-- ===== src/Wire/Xdr/Tests.antt =====
-- Concrete packets, and the theorems of this component at them.
use fast_firebird.Base.{
  ℕ, ◌≡◌, some, List, [], ◌∷◌, length-replicate, replicate, map, negsuc, arith,
}
use fast_firebird.Wire.Xdr.{XdrWriter, new_writer, finish}
use fast_firebird.Wire.Xdr.Reader.{XdrReader}
use fast_firebird.Wire.Xdr.Written.{IsValid, written}
use fast_firebird.Wire.Xdr.Items.{
  Item, int, uint, big_int, counted, encodings, write_items, finish-write_items,
}
use fast_firebird.Wire.Xdr.RoundTrip.{
  read_shapes, read_shapes-finish, reader_of, shape, value, unread,
}

abbrev zeros : ℕ → List ℕ
zeros n = replicate n 0

abbrev packet : List Item
packet = int (negsuc 0) ∷ counted (65 ∷ 66 ∷ 67 ∷ 68 ∷ 69 ∷ []) ∷ big_int (negsuc 1) ∷ uint 7 ∷ []

finish-write_items_example :
    (w : XdrWriter) × (write_items zeros packet (new_writer zeros 1) ≡ some w)
    × ((finish zeros w).0 ≡ encodings packet)
    × IsValid (finish zeros w).1
    × (written (finish zeros w).1 ≡ [])
finish-write_items_example =
    finish-write_items zeros (λ n. length-replicate n 0) 1 packet (omega arith) (omega arith)

read_shapes-finish_example :
    (w : XdrWriter) × (write_items zeros packet (new_writer zeros 1) ≡ some w)
    × (r : XdrReader) × (read_shapes (map shape packet) (reader_of (finish zeros w).0)
        ≡ some (map value packet, r))
    × (unread r ≡ [])
read_shapes-finish_example =
    read_shapes-finish zeros (λ n. length-replicate n 0) 1 packet (omega arith) (omega arith)
