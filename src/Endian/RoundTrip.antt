-- ===== src/Endian/RoundTrip.antt =====
-- What is written is read back, and nothing else of the span changes.
use idem_ip.Base.{
  zero, suc, Bool, true, ◌&&◌, ltb, [], ◌∷◌, ℕ, ◌+◌, ◌*◌, ◌/◌, ◌%◌, ◌^◌, ◌≤◌, ◌<◌, ◌≡◌, ◌⊎◌, arith,
  ◌∙◌,
}
use idem_ip.Base.{length, bit_or, length-set, get_or-set}
use idem_ip.Base.Bits.{bit_or_fields, bit_and_mask}
use idem_ip.Endian.{Octets, octet, rd16, rd32, wr16, wr32}

-- Every octet of the span is below 256.
abbrev pub IsBytes : Octets → Type 0
IsBytes p = (i : ℕ) → octet p i < 256

-- The same as a test, for a span that is written out.
unfoldable pub are_bytes : Octets → Bool
are_bytes [] = true
are_bytes (x ∷ p) = ltb x 256 && are_bytes p

pub are_bytes_sound : (p : Octets) → are_bytes p ≡ true → IsBytes p
unfolding are_bytes
are_bytes_sound [] h i = omega arith
are_bytes_sound (x ∷ p) h zero = ground arith
are_bytes_sound (x ∷ p) h (suc i) = are_bytes_sound p (ground arith) i

pub rd16_sum :
    (p : Octets) (i : ℕ)
    → octet p i < 256
    → octet p (i + 1) < 256
    → rd16 p i ≡ octet p i * 256 + octet p (i + 1)
unfolding rd16
rd16_sum p i a b = omega (arith, bit_or_fields 8 (octet p i) (octet p (i + 1)) b)

join3 :
    (a b c d : ℕ)
    → a < 256
    → b < 256
    → c < 256
    → d < 256
    → bit_or (bit_or (bit_or (a * 16777216 % 4294967296) (b * 65536)) (c * 256)) d
      ≡ a * 16777216 + b * 65536 + c * 256 + d
join3 a b c d ha hb hc hd =
    rw (top, upper, middle, bit_or_fields 8 (a * 65536 + b * 256 + c) d hd) (omega arith)
  where
    top : a * 16777216 % 4294967296 ≡ a * 2 ^ 24
    top = omega arith

    upper : bit_or (a * 2 ^ 24) (b * 65536) ≡ (a * 256 + b) * 2 ^ 16
    upper = bit_or_fields 24 a (b * 65536) (omega arith) ∙ omega arith

    middle : bit_or ((a * 256 + b) * 2 ^ 16) (c * 256) ≡ (a * 65536 + b * 256 + c) * 2 ^ 8
    middle = bit_or_fields 16 (a * 256 + b) (c * 256) (omega arith) ∙ omega arith

pub rd32_sum :
    (p : Octets) (i : ℕ)
    → octet p i < 256
    → octet p (i + 1) < 256
    → octet p (i + 2) < 256
    → octet p (i + 3) < 256
    → rd32 p i
      ≡ octet p i * 16777216 + octet p (i + 1) * 65536 + octet p (i + 2) * 256 + octet p (i + 3)
unfolding rd32
rd32_sum p i a b c d = join3 _ _ _ _ a b c d

pub length-wr16 : (p : Octets) (i v : ℕ) → length (wr16 p i v) ≡ length p
unfolding wr16
length-wr16 p i v = length-set _ _ _ ∙ length-set _ _ _

pub length-wr32 : (p : Octets) (i v : ℕ) → length (wr32 p i v) ≡ length p
unfolding wr32
length-wr32 p i v = length-set _ _ _ ∙ length-set _ _ _ ∙ length-set _ _ _ ∙ length-set _ _ _

pub octet-wr16_ne :
    (p : Octets) (i v j : ℕ) → (j < i) ⊎ (i + 2 ≤ j) → octet (wr16 p i v) j ≡ octet p j
unfolding wr16
octet-wr16_ne p i v j h = simp get_or-set (ground arith)

pub octet-wr32_ne :
    (p : Octets) (i v j : ℕ) → (j < i) ⊎ (i + 4 ≤ j) → octet (wr32 p i v) j ≡ octet p j
unfolding wr32
octet-wr32_ne p i v j h = simp get_or-set (ground arith)

-- The octets that a write leaves.
pub octet-wr16 :
    (p : Octets) (i v : ℕ)
    → i + 1 < length p
    → (octet (wr16 p i v) i ≡ v / 256 % 256) × (octet (wr16 p i v) (i + 1) ≡ v % 256)
unfolding wr16
octet-wr16 p i v h = (
  simp (get_or-set, length-set) (ground arith),
  simp (get_or-set, length-set) (ground (arith, bit_and_mask 8 v)),
)

pub octet-wr32 :
    (p : Octets) (i v : ℕ)
    → i + 3 < length p
    → (octet (wr32 p i v) i ≡ v / 16777216 % 256)
      × (octet (wr32 p i v) (i + 1) ≡ v / 65536 % 256)
      × (octet (wr32 p i v) (i + 2) ≡ v / 256 % 256)
      × (octet (wr32 p i v) (i + 3) ≡ v % 256)
unfolding wr32
octet-wr32 p i v h = (
  simp (get_or-set, length-set) (ground arith),
  simp (get_or-set, length-set) (ground (arith, bit_and_mask 8 (v / 65536))),
  simp (get_or-set, length-set) (ground (arith, bit_and_mask 8 (v / 256))),
  simp (get_or-set, length-set) (ground (arith, bit_and_mask 8 v)),
)

-- A 16-bit value written inside the span is read back.
pub rd16-wr16 : (p : Octets) (i v : ℕ) → i + 1 < length p → v < 65536 → rd16 (wr16 p i v) i ≡ v
rd16-wr16 p i v h b =
    let w = octet-wr16 p i v h in omega (arith, rd16_sum (wr16 p i v) i (omega arith) (omega arith))

-- A 32-bit value written inside the span is read back.
pub rd32-wr32 : (p : Octets) (i v : ℕ) → i + 3 < length p → v < 4294967296 → rd32 (wr32 p i v) i ≡ v
rd32-wr32 p i v h b =
    let w = octet-wr32 p i v h in
    omega (arith, rd32_sum (wr32 p i v) i (omega arith) (omega arith) (omega arith) (omega arith))
