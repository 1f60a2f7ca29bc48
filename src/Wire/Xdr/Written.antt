-- ===== src/Wire/Xdr/Written.antt =====
-- The writer refines an append to the bytes written so far, whatever `allocUnsafe` returns.
use fast_firebird.Base.{
  ℕ, zero, suc, ◌+◌, ◌-◌, ◌*◌, ◌≤◌, ◌<◌, ◌≡◌, refl, sym, ap, subst, ◌∙◌, inl, inr, some, List, ◌++◌,
  append_assoc, ltb, leb, leb→le, le→leb, Bool-cases, length, take, replicate, length-replicate,
  copy_at, length-copy_at, take-copy_at, take-copy_at-take, copy_at-nil, if◌then◌else◌, arith,
}
use fast_firebird.Wire.Xdr.{XdrWriter, pad4, grow, put, ensure, opaque_fixed, raw}

abbrev pub written : XdrWriter → List ℕ
written w = take w.at w.buf

-- A buffer of size 0 would never grow.
pub record IsValid (w : XdrWriter) : Type 0 where
  pub room : 0 < length w.buf
  pub within : w.at ≤ length w.buf

-- `fuel` doublings reach every size up to `fuel`.
grow_enough : (fuel size need : ℕ) → 0 < size → need < fuel + size → need ≤ grow fuel size need
unfolding grow
grow_enough zero size need p h = omega arith
grow_enough (suc fuel) size need p h = ground (arith, grow_enough fuel (size * 2) need)

-- `w'` holds what `w` held and then `bytes`.
abbrev pub Appended : XdrWriter → List ℕ → XdrWriter → Type 0
Appended w bytes w' = IsValid w' × (written w' ≡ written w ++ bytes)

-- A write at `pos` that fits.
copy_at-Appended :
    (w : XdrWriter) (bytes : List ℕ)
    → IsValid w
    → w.at + length bytes ≤ length w.buf
    → Appended w bytes (record { buf = copy_at w.buf w.at bytes; at = w.at + length bytes })
copy_at-Appended w bytes v fits = (
  record {
    room = omega (arith, v.room, length-copy_at w.buf w.at bytes);
    within = omega (arith, fits, length-copy_at w.buf w.at bytes);
  },
  take-copy_at w.buf w.at bytes fits,
)

put-Appended :
    (w : XdrWriter) (bytes : List ℕ)
    → IsValid w
    → w.at + length bytes ≤ length w.buf
    → (w' : XdrWriter) × (put bytes w ≡ some w') × Appended w bytes w'
unfolding put
put-Appended w bytes v fits = (
  record { buf = copy_at w.buf w.at bytes; at = w.at + length bytes },
  rw (le→leb (w.at + length bytes) (length w.buf) fits),
  copy_at-Appended w bytes v fits,
)

-- What `opaque_fixed` adds behind its data.
abbrev pub padding : ℕ → List ℕ
padding len = replicate (pad4 len - len) 0

pad-Appended :
    (w : XdrWriter) (d : List ℕ)
    → IsValid w
    → w.at + pad4 (length d) ≤ length w.buf
    → Appended w (d ++ padding (length d)) (record {
      buf = copy_at (copy_at w.buf w.at d) (w.at + length d) (padding (length d));
      at = w.at + pad4 (length d);
    })
pad-Appended w d v fits =
    let one = copy_at-Appended w d v (omega arith) in
    let pads : length (padding (length d)) ≡ pad4 (length d) - length d =
      length-replicate (pad4 (length d) - length d) 0 in
    let two =
      copy_at-Appended (record { buf = copy_at w.buf w.at d; at = w.at + length d })
        (padding (length d)) one.0 (omega (arith, length-copy_at w.buf w.at d, pads)) in
    subst
      (λ k. Appended w (d ++ padding (length d)) (record {
        buf = copy_at (copy_at w.buf w.at d) (w.at + length d) (padding (length d));
        at = k;
      }))
      (omega (arith, pads))
      (two.0, two.1 ∙ ap (λ t. t ++ padding (length d)) one.1 ∙ append_assoc (written w) d _)

-- The padding copy is skipped where there is nothing to pad.
skip_pad :
    (buf : List ℕ) (at len : ℕ)
    → (if ltb len (pad4 len) then copy_at buf at (replicate (pad4 len - len) 0) else buf)
      ≡ copy_at buf at (padding len)
skip_pad buf at len = elim (Bool-cases (ltb len (pad4 len))) [
  | inl e ↦ rw e
  | inr e ↦
      let none_left : pad4 len - len ≡ 0 = ground arith in
      rw (e, none_left) (sym (copy_at-nil buf at))
]

module _ (fresh : ℕ → List ℕ) (length-fresh : (n : ℕ) → length (fresh n) ≡ n) where
  grown : ℕ → XdrWriter → ℕ
  grown n w = grow (w.at + n) (length w.buf * 2) (w.at + n)

  pub record Ensured (n : ℕ) (w w' : XdrWriter) : Type 0 where
    pub valid : IsValid w'
    pub fits : w'.at + n ≤ length w'.buf
    pub kept : written w' ≡ written w

  ensure-Ensured : (n : ℕ) (w : XdrWriter) → IsValid w → Ensured n w (ensure fresh n w)
  unfolding ensure grown
  ensure-Ensured n w v = elim (Bool-cases (leb (w.at + n) (length w.buf))) [
    | inl e ↦ rw (e, ensure) (record { valid = v; fits = leb→le _ _ e; kept = refl })
    | inr e ↦
        let size : length (copy_at (fresh (grown n w)) 0 (take w.at w.buf)) ≡ grown n w =
          length-copy_at (fresh (grown n w)) 0 (take w.at w.buf) ∙ length-fresh (grown n w) in
        let enough : w.at + n ≤ grown n w =
          grow_enough (w.at + n) (length w.buf * 2) (w.at + n) (omega (arith, v.room))
            (omega (arith, v.room)) in
        rw (e, ensure)
          (record {
            valid = record { room = ground (arith, size, enough); within = omega arith };
            fits = omega arith;
            kept =
                take-copy_at-take w.at (fresh (grown n w)) w.buf v.within
                  (omega (arith, length-fresh (grown n w)));
          })
  ]

  pub ensured_put :
      (n : ℕ) (w : XdrWriter) (bytes : List ℕ)
      → length bytes ≡ n
      → IsValid w
      → (w' : XdrWriter) × (put bytes (ensure fresh n w) ≡ some w') × Appended w bytes w'
  ensured_put n w bytes size v =
      let e = ensure-Ensured n w v in
      let (w', done, a) = put-Appended (ensure fresh n w) bytes e.valid (omega (arith, e.fits)) in
      (w', done, (a.0, a.1 ∙ ap (λ t. t ++ bytes) e.kept))

  pub opaque_fixed-Appended :
      (w : XdrWriter) (d : List ℕ)
      → IsValid w
      → Appended w (d ++ padding (length d)) (opaque_fixed fresh d w)
  unfolding opaque_fixed
  opaque_fixed-Appended w d v =
      let e = ensure-Ensured (pad4 (length d)) w v in
      let w' = ensure fresh (pad4 (length d)) w in
      let a = pad-Appended w' d e.valid e.fits in
      rw (skip_pad (copy_at w'.buf w'.at d) (w'.at + length d) (length d))
        (a.0, a.1 ∙ ap (λ t. t ++ (d ++ padding (length d))) e.kept)

  pub raw-Appended : (w : XdrWriter) (d : List ℕ) → IsValid w → Appended w d (raw fresh d w)
  unfolding raw
  raw-Appended w d v =
      let e = ensure-Ensured (length d) w v in
      let a = copy_at-Appended (ensure fresh (length d) w) d e.valid e.fits in
      (a.0, a.1 ∙ ap (λ t. t ++ d) e.kept)
