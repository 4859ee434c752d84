-- ===== src/Endian/Tests.antt =====
-- Round trips at concrete fields.
use idem_ip.Base.{◌≡◌, [], ◌∷◌, arith}
use idem_ip.Endian.{Octets, rd16, rd32, wr16, wr32}
use idem_ip.Endian.RoundTrip.{rd16-wr16, rd32-wr32}

abbrev span : Octets
span = 9 ∷ 9 ∷ 9 ∷ 9 ∷ 9 ∷ 9 ∷ []

rd16-wr16_run : rd16 (wr16 span 3 0xabcd) 3 ≡ 0xabcd
rd16-wr16_run = rd16-wr16 span 3 0xabcd (omega arith) (omega arith)

rd32-wr32_run : rd32 (wr32 span 1 0x89ab_cdef) 1 ≡ 0x89ab_cdef
rd32-wr32_run = rd32-wr32 span 1 0x89ab_cdef (omega arith) (omega arith)
