-- ===== src/Wire/Arc4.antt =====
-- packages/core/src/protocol/crypt/arc4.ts: RC4 with one cipher state for each direction.
mod Xor
pub mod Stream
mod Tests
use fast_firebird.Base.{
  ℕ, zero, suc, ◌+◌, ◌%◌, List, [], ◌∷◌, Option, none, some, length, get_or, set,
}
use Prim.Native.Nat.{bit_xor}

-- `s` is the Uint8Array of 256 bytes.
pub record Rc4 : Type 0 where
  pub s : List ℕ
  pub i : ℕ
  pub j : ℕ

-- `const t = s[i]; s[i] = s[j]; s[j] = t;`
unfoldable pub swap : ℕ → ℕ → List ℕ → List ℕ
swap i j s = let t = get_or s i 0 in set (set s i (get_or s j 0)) j t

abbrev pub identity_from : ℕ → ℕ → List ℕ
identity_from k zero = []
identity_from k (suc n) = k ∷ identity_from (suc k) n

-- `for (let k = 0; k < 256; k++)` of the constructor, with `left` rounds to go.
unfoldable pub schedule : ℕ → ℕ → List ℕ → ℕ → List ℕ → List ℕ
schedule zero k key j s = s
schedule (suc left) k key j s =
    let j' = (j + get_or s k 0 + get_or key (k % length key) 0) % 256 in
    schedule left (suc k) key j' (swap k j' s)

-- An empty key makes `key[NaN]` of each round: it is undefined, and so is the stream; callers pass
-- the session key, which is not empty.
unfoldable pub new_rc4 : List ℕ → Rc4
new_rc4 key = record { s = schedule 256 0 key 0 (identity_from 0 256); i = 0; j = 0 }

-- One round of `process`: the byte of the key stream, and the state behind it.
unfoldable pub next_byte : Rc4 → ℕ × Rc4
next_byte r =
    let i = (r.i + 1) % 256 in
    let j = (r.j + get_or r.s i 0) % 256 in
    let s = swap i j r.s in
    (get_or s ((get_or s i 0 + get_or s j 0) % 256) 0, record { s = s; i = i; j = j })

unfoldable pub process : List ℕ → Rc4 → List ℕ × Rc4
process [] r = ([], r)
process (b ∷ bytes) r =
    let next = next_byte r in let rest = process bytes next.1 in (bit_xor b next.0 ∷ rest.0, rest.1)

pub record Arc4Filter : Type 0 where
  pub tx : Rc4
  pub rx : Rc4

unfoldable pub new_arc4_filter : List ℕ → Arc4Filter
new_arc4_filter session_key = record { tx = new_rc4 session_key; rx = new_rc4 session_key }

unfoldable pub send : List ℕ → Arc4Filter → List ℕ × Arc4Filter
send bytes f = let out = process bytes f.tx in (out.0, record f { tx = out.1 })

unfoldable pub receive : List ℕ → Arc4Filter → List ℕ × Arc4Filter
receive bytes f = let out = process bytes f.rx in (out.0, record f { rx = out.1 })
