-- ===== src/Wire/Arc4/Xor.antt =====
-- The exclusive or of two bytes.
use fast_firebird.Base.{ℕ, zero, suc, ◌<◌, ◌≡◌, refl, Bool, true, ◌&&◌, ltb, ◌==◌, ==_iff, arith}
use Prim.Native.Nat.{bit_xor}

-- A test holds for each number below n.
each_below : ℕ → (ℕ → Bool) → Bool
each_below zero test = true
each_below (suc n) test = test n && each_below n test

each_below_lem :
    (n : ℕ) (test : ℕ → Bool) (x : ℕ) → each_below n test ≡ true → x < n → test x ≡ true
unfolding each_below
each_below_lem zero test x h lt = elim lt [ ]
each_below_lem (suc n) test x h lt = ground (arith, each_below_lem n test x)

byte_pair : ℕ → ℕ → Bool
byte_pair a b = (bit_xor (bit_xor a b) b == a) && ltb (bit_xor a b) 256

table : each_below 256 (λ a. each_below 256 (λ b. byte_pair a b)) ≡ true
unfolding each_below byte_pair
table = refl

pub xor_lem : (a b : ℕ) → a < 256 → b < 256 → (bit_xor (bit_xor a b) b ≡ a) × bit_xor a b < 256
unfolding byte_pair
xor_lem a b h k =
    let row = each_below_lem 256 (λ a. each_below 256 (λ b. byte_pair a b)) a table h in
    let cell = each_below_lem 256 (λ b. byte_pair a b) b row k in
    ground (arith, ==_iff (bit_xor (bit_xor a b) b) a)
