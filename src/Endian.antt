-- ===== src/Endian.antt =====
-- src/endian.c: 16- and 32-bit fields in network byte order. A pointer is a span of octets with an
-- offset into it. An octet past the span reads as 0 and a write there changes nothing; the theorems
-- that depend on a place say that it lies inside.
pub mod RoundTrip
pub mod Frame
mod Tests
use idem_ip.Base.{ℕ, zero, suc, ◌+◌, ◌*◌, ◌/◌, ◌%◌, ◌^◌, List, bit_and, bit_or}
use idem_ip.Base.{u8, u16, u32, ◌<<<◌, ◌>>>◌, get_or, set}

abbrev pub Octets : Type 0
Octets = List ℕ

abbrev pub octet : Octets → ℕ → ℕ
octet p i = get_or p i 0

unfoldable pub rd16 : Octets → ℕ → ℕ
rd16 p i = u16 (bit_or (octet p i <<< 8) (octet p (i + 1)))

unfoldable pub rd32 : Octets → ℕ → ℕ
rd32 p i =
    bit_or
      (bit_or (bit_or (u32 (octet p i <<< 24)) (octet p (i + 1) <<< 16)) (octet p (i + 2) <<< 8))
      (octet p (i + 3))

-- The value is a `uint32_t` that the caller has cut to 16 bits.
unfoldable pub wr16 : Octets → ℕ → ℕ → Octets
wr16 p i v = set (set p i (u8 (v >>> 8))) (i + 1) (u8 (bit_and v 0xff))

unfoldable pub wr32 : Octets → ℕ → ℕ → Octets
wr32 p i v =
    set
      (set (set (set p i (u8 (v >>> 24))) (i + 1) (u8 (bit_and (v >>> 16) 0xff))) (i + 2)
        (u8 (bit_and (v >>> 8) 0xff)))
      (i + 3) (u8 (bit_and v 0xff))

-- `memcpy(w + i, src + j, n)` of spans that do not overlap, and `memset(w + i, 0, n)`.
unfoldable pub copy : ℕ → Octets → ℕ → Octets → ℕ → Octets
copy zero w i src j = w
copy (suc n) w i src j = copy n (set w i (octet src j)) (i + 1) src (j + 1)

unfoldable pub clear : ℕ → Octets → ℕ → Octets
clear zero w i = w
clear (suc n) w i = clear n (set w i 0) (i + 1)
