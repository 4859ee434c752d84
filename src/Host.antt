-- ===== src/Host.antt =====
-- The host that a build is for: its word (src/common.h) and the order of the octets in it.
pub mod Bounds
use idem_ip.Base.{ℕ, zero, suc, ◌+◌, ◌*◌, ◌^◌, Bool, true, false}
use idem_ip.Endian.{Octets, octet}

-- `IdemIpWord`, by IDEMIP_WORD_BITS.
pub data Width : Type 0 where
  bits16 bits32 bits64 : Width

abbrev pub word_octets : Width → ℕ
word_octets bits16 = 2
word_octets bits32 = 4
word_octets bits64 = 8

abbrev pub word_mod : Width → ℕ
word_mod bits16 = 2 ^ 16
word_mod bits32 = 2 ^ 32
word_mod bits64 = 2 ^ 64

-- `memcpy(&w, p + i, n)`, read in the host's byte order.
abbrev pub little_word : Octets → ℕ → ℕ → ℕ
little_word p i zero = 0
little_word p i (suc n) = octet p i + 256 * little_word p (i + 1) n

abbrev pub big_word : Octets → ℕ → ℕ → ℕ
big_word p i zero = 0
big_word p i (suc n) = octet p i * 256 ^ n + big_word p (i + 1) n

abbrev pub load_word : Bool → Width → Octets → ℕ → ℕ
load_word true w p i = little_word p i (word_octets w)
load_word false w p i = big_word p i (word_octets w)
