-- ===== src/Wire/Arc4/Stream.antt =====
-- Decrypting what was encrypted, however it is cut into packets; the state stays a permutation.
use fast_firebird.Base.{
  ℕ, zero, suc, ◌+◌, ◌%◌, ◌≤◌, ◌<◌, ◌≡◌, refl, ap, ap₂, ◌∙◌, List, [], ◌∷◌, ◌++◌, length, get_or,
  set, concat, All, IsByte, arith, length-set,
}
use mathlib.Core.List.{Perm}
use mathlib.Core.List.Perm
use fast_firebird.Wire.Cipher.{Cipher}
use fast_firebird.Wire.Arc4.Xor.{xor_lem}
use fast_firebird.Wire.Arc4.{
  Rc4, swap, identity_from, schedule, new_rc4, next_byte, process, Arc4Filter, new_arc4_filter,
  send, receive,
}

All-set : (xs : List ℕ) (i v : ℕ) → All IsByte xs → IsByte v → All IsByte (set xs i v)
All-set [] i v h k = tt
All-set (x ∷ xs) zero v h k = (k, h.1)
All-set (x ∷ xs) (suc i) v h k = (h.0, All-set xs i v h.1 k)

get_or-IsByte : (xs : List ℕ) (i : ℕ) → All IsByte xs → IsByte (get_or xs i 0)
get_or-IsByte [] i h = omega arith
get_or-IsByte (x ∷ xs) zero h = h.0
get_or-IsByte (x ∷ xs) (suc i) h = get_or-IsByte xs i h.1

swap-IsByte : (i j : ℕ) (s : List ℕ) → All IsByte s → All IsByte (swap i j s)
unfolding swap
swap-IsByte i j s h =
    All-set (set s i (get_or s j 0)) j (get_or s i 0)
      (All-set s i (get_or s j 0) h (get_or-IsByte s j h)) (get_or-IsByte s i h)

schedule-IsByte :
    (left k : ℕ) (key : List ℕ) (j : ℕ) (s : List ℕ)
    → All IsByte s
    → All IsByte (schedule left k key j s)
unfolding schedule
schedule-IsByte zero k key j s h = h
schedule-IsByte (suc left) k key j s h = schedule-IsByte left (suc k) key _ _ (swap-IsByte k _ s h)

identity-IsByte : (k n : ℕ) → k + n ≤ 256 → All IsByte (identity_from k n)
identity-IsByte k zero h = tt
identity-IsByte k (suc n) h = (omega arith, identity-IsByte (suc k) n (omega arith))

next_byte-IsByte :
    (r : Rc4) → All IsByte r.s → IsByte (next_byte r).0 × All IsByte (next_byte r).1.s
unfolding next_byte
next_byte-IsByte r h =
    let i = (r.i + 1) % 256 in
    let j = (r.j + get_or r.s i 0) % 256 in
    let k : All IsByte (swap i j r.s) = swap-IsByte i j r.s h in
    (get_or-IsByte (swap i j r.s) _ k, k)

-- The exchange of a packet keeps the receiver's state equal to the sender's.
process_twice :
    (bytes : List ℕ) (r : Rc4)
    → All IsByte bytes
    → All IsByte r.s
    → process (process bytes r).0 r ≡ (bytes, (process bytes r).1)
unfolding process
process_twice [] r h k = refl
process_twice (b ∷ bytes) r h k =
    let next = next_byte-IsByte r k in
    ap₂ (λ x (t : List ℕ × Rc4). (x ∷ t.0, t.1)) (xor_lem b (next_byte r).0 h.0 next.0).0
      (process_twice bytes (next_byte r).1 h.1 next.1)

pub process_append :
    (xs ys : List ℕ) (r : Rc4)
    → process (xs ++ ys) r
      ≡ ((process xs r).0 ++ (process ys (process xs r).1).0, (process ys (process xs r).1).1)
unfolding process
process_append [] ys r = refl
process_append (x ∷ xs) ys r = rw (process_append xs ys (next_byte r).1) refl

pub process_nil : (r : Rc4) → process [] r ≡ ([], r)
unfolding process
process_nil r = refl

-- RC4 as the transport takes it.
abbrev pub arc4_cipher : Cipher
arc4_cipher = record {
  State = Rc4;
  process = process;
  process_append = process_append;
  process_nil = process_nil;
}

-- Packets sent, and packets received, one after the other.
abbrev pub send_all : List (List ℕ) → Arc4Filter → List ℕ × Arc4Filter
send_all [] f = ([], f)
send_all (p ∷ ps) f =
    let out = send p f in let rest = send_all ps out.1 in (out.0 ++ rest.0, rest.1)

abbrev pub receive_all : List (List ℕ) → Arc4Filter → List ℕ × Arc4Filter
receive_all [] f = ([], f)
receive_all (p ∷ ps) f =
    let out = receive p f in let rest = receive_all ps out.1 in (out.0 ++ rest.0, rest.1)

send_all_lem :
    (ps : List (List ℕ)) (f : Arc4Filter)
    → send_all ps f ≡ ((process (concat ps) f.tx).0, record f { tx = (process (concat ps) f.tx).1 })
unfolding send process
send_all_lem [] f = refl
send_all_lem (p ∷ ps) f = rw (send_all_lem ps (send p f).1, process_append p (concat ps) f.tx) refl

receive_all_lem :
    (ps : List (List ℕ)) (f : Arc4Filter)
    → receive_all ps f
      ≡ ((process (concat ps) f.rx).0, record f { rx = (process (concat ps) f.rx).1 })
unfolding receive process
receive_all_lem [] f = refl
receive_all_lem (p ∷ ps) f =
    rw (receive_all_lem ps (receive p f).1, process_append p (concat ps) f.rx) refl

-- Two ends with one session key: bytes sent in any packets by one and received in any other
-- packets by the other arrive as they were sent.
pub receive_all-send_all :
    (session_key : List ℕ) (packets chunks : List (List ℕ))
    → All IsByte (concat packets)
    → concat chunks ≡ (send_all packets (new_arc4_filter session_key)).0
    → (receive_all chunks (new_arc4_filter session_key)).0 ≡ concat packets
unfolding new_arc4_filter new_rc4
receive_all-send_all key packets chunks h e =
    let f = new_arc4_filter key in
    ap (λ t. t.0) (receive_all_lem chunks f)
    ∙ ap (λ t. (process t f.rx).0) (e ∙ ap (λ t. t.0) (send_all_lem packets f))
    ∙ ap (λ t. t.0)
        (process_twice (concat packets) f.tx h
          (schedule-IsByte 256 0 key 0 _ (identity-IsByte 0 256 (omega arith))))

put_back : (xs : List ℕ) (j x : ℕ) → j < length xs → Perm (get_or xs j 0 ∷ set xs j x) (x ∷ xs)
put_back [] j x h = elim h [ ]
put_back (y ∷ xs) zero x h = Perm.swap _ _ xs
put_back (y ∷ xs) (suc j) x h =
    Perm.trans (Perm.swap _ _ _)
      (Perm.trans (Perm.cons y (put_back xs j x (omega arith))) (Perm.swap _ _ xs))

swap-Perm : (i j : ℕ) (s : List ℕ) → i < length s → j < length s → Perm (swap i j s) s
unfolding swap
swap-Perm i j [] h k = Perm.refl []
swap-Perm zero zero (x ∷ s) h k = Perm.refl (x ∷ s)
swap-Perm zero (suc j) (x ∷ s) h k = put_back s j x (omega arith)
swap-Perm (suc i) zero (x ∷ s) h k = put_back s i x (omega arith)
swap-Perm (suc i) (suc j) (x ∷ s) h k = Perm.cons x (swap-Perm i j s (omega arith) (omega arith))

length-swap : (i j : ℕ) (s : List ℕ) → length (swap i j s) ≡ length s
unfolding swap
length-swap i j s =
    length-set (set s i (get_or s j 0)) j (get_or s i 0) ∙ length-set s i (get_or s j 0)

-- 256 entries that are the bytes in some order.
abbrev pub IsShuffled : List ℕ → Type 0
IsShuffled s = (length s ≡ 256) × Perm s (identity_from 0 256)

swap-IsShuffled :
    (i j : ℕ) (s : List ℕ) → i < 256 → j < 256 → IsShuffled s → IsShuffled (swap i j s)
swap-IsShuffled i j s h k w = (
  length-swap i j s ∙ w.0,
  Perm.trans (swap-Perm i j s (omega (arith, w.0)) (omega (arith, w.0))) w.1,
)

schedule-IsShuffled :
    (left k : ℕ) (key : List ℕ) (j : ℕ) (s : List ℕ)
    → k + left ≤ 256
    → IsShuffled s
    → IsShuffled (schedule left k key j s)
unfolding schedule
schedule-IsShuffled zero k key j s h w = w
schedule-IsShuffled (suc left) k key j s h w =
    schedule-IsShuffled left (suc k) key _ _ (omega arith)
      (swap-IsShuffled k _ s (omega arith) (omega arith) w)

-- With any key and after any bytes, the state holds each byte once: every read of it is in bounds.
pub process-new_rc4-IsShuffled : (key bytes : List ℕ) → IsShuffled (process bytes (new_rc4 key)).1.s
unfolding new_rc4 process next_byte
process-new_rc4-IsShuffled key bytes =
    kept bytes (new_rc4 key) (schedule-IsShuffled 256 0 key 0 _ (omega arith) (refl, Perm.refl _))
  where
    kept : (bytes : List ℕ) (r : Rc4) → IsShuffled r.s → IsShuffled (process bytes r).1.s
    kept [] r w = w
    kept (b ∷ bytes) r w =
        kept bytes (next_byte r).1 (swap-IsShuffled _ _ r.s (omega arith) (omega arith) w)
