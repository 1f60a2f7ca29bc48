-- ===== src/Wire/Transport/Tests.antt =====
-- A connection encrypted with RC4, and the theorems applied to it.
use fast_firebird.Base.{ℕ, refl, List, [], ◌∷◌, some, false, map, arith}
use fast_firebird.Wire.Arc4.{new_rc4, process}
use fast_firebird.Wire.Arc4.Stream.{arc4_cipher}
use fast_firebird.Wire.Transport.{ByteQueue, Transport, received, read, empty_queue}
use fast_firebird.Wire.Transport.Reads.{Reads, plain, read-plain}

-- Seven bytes in three chunks, the first half read.
abbrev queue : ByteQueue
queue = record { chunks = (1 ∷ 2 ∷ []) ∷ (3 ∷ []) ∷ (4 ∷ 5 ∷ 6 ∷ 7 ∷ []) ∷ []; head = 1; count = 6 }

abbrev key : List ℕ
key = 75 ∷ 101 ∷ 121 ∷ []

abbrev open_transport : Transport arc4_cipher
open_transport = record {
  rx = empty_queue;
  rx_crypt = some (new_rc4 key);
  tx_crypt = some (new_rc4 key);
  failed = false;
  closed = false;
  written = [];
}

abbrev packets : List (List ℕ)
packets = (0xBB ∷ []) ∷ (0xF3 ∷ 0x16 ∷ 0xE8 ∷ 0xD9 ∷ 0x40 ∷ 0xAF ∷ []) ∷ (0x0A ∷ 0xD3 ∷ []) ∷ []

read-plain_example :
    Reads arc4_cipher 4
      (plain arc4_cipher open_transport packets)
      (read arc4_cipher 4 (map received packets) open_transport)
unfolding process
read-plain_example =
    read-plain arc4_cipher 4 packets open_transport (tt, refl, refl) refl (omega arith)
      (omega arith)
