-- ===== src/Runs/Integers.antt =====
-- The number codecs on concrete slices and streams.
use yoshiera_huang_livego.Prelude.{ℕ, ◌≡◌, refl, arith, none, List, [], ◌∷◌, ◌++◌}
use yoshiera_huang_livego.Pio.RoundTrip.{
  UnsignedRoundTrip, SignedRoundTrip, unsigned_round_trip, signed_round_trip,
}
use yoshiera_huang_livego.Rtmp.ReadWriter.{
  ReadWriter, write_uint_be, write_uint_le, read_uint_be, read_uint_le,
}
use yoshiera_huang_livego.Rtmp.ReadWriter.Integers.{feed, uint_round_trip}

abbrev eight : List ℕ
eight = 1 ∷ 2 ∷ 3 ∷ 4 ∷ 5 ∷ 6 ∷ 7 ∷ 8 ∷ []

abbrev link : ReadWriter
link = record { input = []; output = []; room = 1000; read_error = none; write_error = none }

unsigned_round_trip_example : UnsignedRoundTrip 0x123456789a eight
unsigned_round_trip_example = unsigned_round_trip eight 0x123456789a (omega arith)

signed_round_trip_example : SignedRoundTrip 0xfedcba9876543210 eight
signed_round_trip_example = signed_round_trip eight 0xfedcba9876543210 (omega arith)

uint_round_trip_example :
    ((bs : List ℕ) × ((write_uint_be 0x1234 3 link).1.output ≡ [] ++ bs)
      × (read_uint_be 3 (feed (bs ++ eight) link) ≡ ((0x1234, none), feed eight link)))
    × ((bs : List ℕ) × ((write_uint_le 0x1234 3 link).1.output ≡ [] ++ bs)
        × (read_uint_le 3 (feed (bs ++ eight) link) ≡ ((0x1234, none), feed eight link)))
uint_round_trip_example =
    uint_round_trip 3 0x1234 eight link link (omega arith) (omega arith) refl (omega arith)
