-- ===== src/Wire/Arc4/Tests.antt =====
-- The cipher run on a published vector, and the theorems applied to it.
use fast_firebird.Base.{ℕ, ◌≡◌, refl, List, [], ◌∷◌, arith}
use fast_firebird.Wire.Arc4.{new_arc4_filter, new_rc4, process, send, next_byte, swap, schedule}
use fast_firebird.Wire.Arc4.Stream.{receive_all, receive_all-send_all}

-- "Key" encrypts "Plaintext" to BBF316E8D940AF0AD3.
abbrev key : List ℕ
key = 75 ∷ 101 ∷ 121 ∷ []

abbrev packets : List (List ℕ)
packets = (80 ∷ 108 ∷ 97 ∷ 105 ∷ []) ∷ (110 ∷ 116 ∷ 101 ∷ 120 ∷ 116 ∷ []) ∷ []

abbrev chunks : List (List ℕ)
chunks = (0xBB ∷ []) ∷ (0xF3 ∷ 0x16 ∷ 0xE8 ∷ 0xD9 ∷ 0x40 ∷ 0xAF ∷ []) ∷ (0x0A ∷ 0xD3 ∷ []) ∷ []

receive_all-send_all_example :
    (receive_all chunks (new_arc4_filter key)).0
    ≡ 80 ∷ 108 ∷ 97 ∷ 105 ∷ 110 ∷ 116 ∷ 101 ∷ 120 ∷ 116 ∷ []
unfolding new_arc4_filter new_rc4 send process next_byte swap schedule
receive_all-send_all_example = receive_all-send_all key packets chunks (omega arith) refl
