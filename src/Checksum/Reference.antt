-- ===== src/Checksum/Reference.antt =====
-- RFC 1071's sum as mathematics: the 16-bit words of a span added up, the last one padded with a
-- zero octet, and the one representative of that number modulo 65535 that folding leaves.
use idem_ip.Base.{ℕ, zero, suc, ◌+◌, ◌-◌, ◌*◌, ◌/◌, ◌%◌, ◌<◌, ◌≡◌, arith}
use idem_ip.Base.{◌==◌, if◌then◌else◌}
use idem_ip.Base.Bits.{bit_and_mask}
use idem_ip.Endian.{Octets, octet}
use idem_ip.Checksum.{fold_carries}

abbrev pub pair_sum : Octets → ℕ → ℕ → ℕ
pair_sum p i zero = 0
pair_sum p i (suc zero) = octet p i * 256
pair_sum p i (suc (suc n)) = octet p i * 256 + octet p (i + 1) + pair_sum p (i + 2) n

-- The 1's complement sum as sixteen bits: zero only of zeros, else 1 to 65535.
abbrev pub folded_sum : ℕ → ℕ
folded_sum n = if n == 0 then 0 else (n - 1) % 65535 + 1

-- Two numbers that fold to the same sixteen bits.
pub record SameSum (x y : ℕ) : Type 0 where
  pub residue : x % 65535 ≡ y % 65535
  pub zero_left : x ≡ 0 → y ≡ 0
  pub zero_right : y ≡ 0 → x ≡ 0

pub SameSum-folded_sum : (x y : ℕ) → SameSum x y → folded_sum x ≡ folded_sum y
SameSum-folded_sum x y h = ground arith

-- One end-around fold keeps the residue; the second one leaves sixteen bits.
pub fold_carries-folded_sum : (x : ℕ) → x < 4294967296 → fold_carries x ≡ folded_sum x
fold_carries-folded_sum x h =
    ground (arith, bit_and_mask 16 x, bit_and_mask 16 (x % 65536 + x / 65536))

pub SameSum-add : (a b c d : ℕ) → SameSum a b → SameSum c d → SameSum (a + c) (b + d)
SameSum-add a b c d h k = omega arith

pub SameSum-refl : (a : ℕ) → SameSum a a
SameSum-refl a = omega arith

pub SameSum-trans : (a b c : ℕ) → SameSum a b → SameSum b c → SameSum a c
SameSum-trans a b c h k = omega arith

pub SameSum-cong : (x y x' y' : ℕ) → SameSum x y → x ≡ x' → y ≡ y' → SameSum x' y'
SameSum-cong x y x' y' h e f = omega arith
