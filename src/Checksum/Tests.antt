-- ===== src/Checksum/Tests.antt =====
-- The checksum at a concrete span.
use idem_ip.Base.{◌+◌, ◌-◌, ◌≡◌, true, [], ◌∷◌, arith, refl}
use idem_ip.Endian.{Octets, rd16, wr16}
use idem_ip.Endian.RoundTrip.{IsBytes, are_bytes, are_bytes_sound}
use idem_ip.Host.{bits16, bits32, bits64}
use idem_ip.Checksum.{accum, over, valid, little_endian, big_endian}
use idem_ip.Checksum.Reference.{pair_sum, folded_sum}
use idem_ip.Checksum.Correct.{accum-folded_sum}
use idem_ip.Checksum.Verify.{over_lem, valid-wr16-over, twice}

-- A span of eleven octets with a zero field at octet 2.
abbrev span : Octets
span = 0x45 ∷ 0 ∷ 0 ∷ 0 ∷ 0xff ∷ 0xfe ∷ 0xab ∷ 0xcd ∷ 1 ∷ 2 ∷ 3 ∷ []

span-IsBytes : IsBytes span
unfolding are_bytes
span-IsBytes = are_bytes_sound span refl

accum-folded_sum_example :
    accum little_endian bits64 77 span 11 ≡ folded_sum (77 + pair_sum span 0 11)
accum-folded_sum_example =
    accum-folded_sum little_endian bits64 77 span 11 span-IsBytes (omega arith)

over_lem_run : over big_endian bits32 span 11 ≡ 65535 - folded_sum (pair_sum span 0 11)
over_lem_run = over_lem big_endian bits32 span 11 span-IsBytes (omega arith)

field_is_zero : rd16 span 2 ≡ 0
unfolding rd16
field_is_zero = refl

valid-wr16-over_example :
    valid big_endian bits16 (wr16 span (twice 1) (over little_endian bits32 span 11)) 11 ≡ true
valid-wr16-over_example =
    valid-wr16-over little_endian big_endian bits32 bits16 span 11 1 span-IsBytes (omega arith)
      (omega arith) (omega arith) field_is_zero
