-- ===== src/Base/Bytes.antt =====
-- Bytes, big- and little-endian words, JavaScript's 32-bit integers, and `Buffer.copy`.
use Prim.Native.Nat.add
use Prim.Native.Nat.{ℕ, zero, suc, ◌+◌, ◌-◌, ◌*◌, ◌/◌, ◌%◌, ◌^◌, ◌≤◌, ◌<◌}
use mathlib.Core.Path.{◌≡◌, refl, ap}
use mathlib.Core.List.{List, [], ◌∷◌, ◌++◌}
use native.Mathlib.Omega.{arith}
use fast_firebird.Base.Tests.{ltb, if◌then◌else◌}
use fast_firebird.Base.Lists.{length, take, length-append}

abbrev pub IsByte : ℕ → Type 0
IsByte b = b < 256

-- `negsuc n` is -(n + 1).
pub data ℤ : Type 0 where
  pos : ℕ → ℤ
  negsuc : ℕ → ℤ

-- `v & (m - 1)` in two's complement, for m a power of two.
abbrev pub wrap : ℕ → ℤ → ℕ
wrap m (pos n) = n % m
wrap m (negsuc n) = m - 1 - n % m

-- The signed integer whose two's complement modulo m is n < m.
abbrev pub signed : ℕ → ℕ → ℤ
signed m n = if ltb n (m / 2) then pos n else negsuc (m - 1 - n)

-- -m/2 ≤ v < m/2
abbrev pub InSigned : ℕ → ℤ → Type 0
InSigned m (pos n) = n < m / 2
InSigned m (negsuc n) = n < m / 2

pub signed-wrap32 : (v : ℤ) → InSigned (2 ^ 32) v → signed (2 ^ 32) (wrap (2 ^ 32) v) ≡ v
signed-wrap32 (pos n) h = ground arith
signed-wrap32 (negsuc n) h = ground arith

pub signed-wrap64 : (v : ℤ) → InSigned (2 ^ 64) v → signed (2 ^ 64) (wrap (2 ^ 64) v) ≡ v
signed-wrap64 (pos n) h = ground arith
signed-wrap64 (negsuc n) h = ground arith

pub wrap32-lt : (v : ℤ) → wrap (2 ^ 32) v < 2 ^ 32
wrap32-lt (pos n) = omega arith
wrap32-lt (negsuc n) = omega arith

pub wrap64-lt : (v : ℤ) → wrap (2 ^ 64) v < 2 ^ 64
wrap64-lt (pos n) = omega arith
wrap64-lt (negsuc n) = omega arith

-- The k bytes of n, most significant first, and the number that they stand for.
abbrev pub be_bytes : ℕ → ℕ → List ℕ
be_bytes zero n = []
be_bytes (suc k) n = be_bytes k (n / 256) ++ (n % 256) ∷ []

abbrev pub be_value : ℕ → List ℕ → ℕ
be_value acc [] = acc
be_value acc (b ∷ bs) = be_value (acc * 256 + b) bs

-- The k bytes of n, least significant first, and the number that they stand for.
abbrev pub le_bytes : ℕ → ℕ → List ℕ
le_bytes zero n = []
le_bytes (suc k) n = (n % 256) ∷ le_bytes k (n / 256)

abbrev pub le_value : List ℕ → ℕ
le_value [] = 0
le_value (b ∷ bs) = b + 256 * le_value bs

be_value-append :
    (acc : ℕ) (xs : List ℕ) (b : ℕ) → be_value acc (xs ++ b ∷ []) ≡ be_value acc xs * 256 + b
be_value-append acc [] b = refl
be_value-append acc (x ∷ xs) b = be_value-append (acc * 256 + x) xs b

pub be_value-be_bytes : (k n : ℕ) → n < 256 ^ k → be_value 0 (be_bytes k n) ≡ n
be_value-be_bytes zero n h = omega arith
be_value-be_bytes (suc k) n h =
    grind (arith, be_value-append 0 (be_bytes k (n / 256)) (n % 256), be_value-be_bytes k (n / 256))

pub le_value-le_bytes : (k n : ℕ) → n < 256 ^ k → le_value (le_bytes k n) ≡ n
le_value-le_bytes zero n h = omega arith
le_value-le_bytes (suc k) n h = grind (arith, le_value-le_bytes k (n / 256))

pub length-be_bytes : (k n : ℕ) → length (be_bytes k n) ≡ k
length-be_bytes zero n = refl
length-be_bytes (suc k) n =
    omega
      (arith, length-append (be_bytes k (n / 256)) ((n % 256) ∷ []), length-be_bytes k (n / 256))

pub length-le_bytes : (k n : ℕ) → length (le_bytes k n) ≡ k
length-le_bytes zero n = refl
length-le_bytes (suc k) n = ap suc (length-le_bytes k (n / 256))

-- `data.copy(target, at)`: what does not fit behind the end of the target is not copied.
abbrev pub copy_at : List ℕ → ℕ → List ℕ → List ℕ
copy_at [] at src = []
copy_at (b ∷ bs) zero [] = b ∷ bs
copy_at (b ∷ bs) zero (x ∷ xs) = x ∷ copy_at bs zero xs
copy_at (b ∷ bs) (suc at) src = b ∷ copy_at bs at src

pub length-copy_at : (bs : List ℕ) (at : ℕ) (src : List ℕ) → length (copy_at bs at src) ≡ length bs
length-copy_at [] at src = refl
length-copy_at (b ∷ bs) zero [] = refl
length-copy_at (b ∷ bs) zero (x ∷ xs) = ap suc (length-copy_at bs zero xs)
length-copy_at (b ∷ bs) (suc at) src = ap suc (length-copy_at bs at src)

take-copy_at-zero :
    (bs src : List ℕ) → length src ≤ length bs → take (length src) (copy_at bs zero src) ≡ src
take-copy_at-zero bs [] h = refl
take-copy_at-zero [] (x ∷ xs) h = elim h [ ]
take-copy_at-zero (b ∷ bs) (x ∷ xs) h = ap (λ t. x ∷ t) (take-copy_at-zero bs xs (omega arith))

-- The part of the target up to the end of the copy: what stood before it, and the copy.
pub take-copy_at :
    (bs : List ℕ) (at : ℕ) (src : List ℕ)
    → at + length src ≤ length bs
    → take (at + length src) (copy_at bs at src) ≡ take at bs ++ src
take-copy_at bs zero src h = rw add.zero (take-copy_at-zero bs src (omega arith))
take-copy_at [] (suc at) src h = absurd (omega arith)
take-copy_at (b ∷ bs) (suc at) src h =
    rw add.suc (ap (λ t. b ∷ t) (take-copy_at bs at src (omega arith)))

-- A front that is copied to the start of another buffer.
pub take-copy_at-take :
    (n : ℕ) (bs src : List ℕ)
    → n ≤ length src
    → n ≤ length bs
    → take n (copy_at bs 0 (take n src)) ≡ take n src
take-copy_at-take zero bs src h k = refl
take-copy_at-take (suc n) [] src h k = elim k [ ]
take-copy_at-take (suc n) (b ∷ bs) [] h k = elim h [ ]
take-copy_at-take (suc n) (b ∷ bs) (x ∷ xs) h k =
    ap (λ t. x ∷ t) (take-copy_at-take n bs xs (omega arith) (omega arith))

pub copy_at-nil : (bs : List ℕ) (at : ℕ) → copy_at bs at [] ≡ bs
copy_at-nil [] at = refl
copy_at-nil (b ∷ bs) zero = refl
copy_at-nil (b ∷ bs) (suc at) = ap (λ t. b ∷ t) (copy_at-nil bs at)
