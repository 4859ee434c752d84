-- ===== src/Ip4Addr/Mask.antt =====
-- The masks that `ip4_mask_contiguous` of src/ip/ipv4.c takes are those of a prefix, and
-- `ip4_mask_ones` counts its bits.
use idem_ip.Base.{ℕ, zero, suc, ◌+◌, ◌-◌, ◌*◌, ◌/◌, ◌%◌, ◌^◌, ◌≤◌, ◌<◌, Bool, true, bit_and}
use native.Mathlib.Nat.{pow-suc, one-le-pow}
use idem_ip.Base.{Bool-cases, inl, inr, ◌↔◌, ◌&&◌}
use idem_ip.Base.{◌==◌, u32, sub32, ◌≡◌, refl, sym, ap, ap₂, ◌∙◌, arith, ==_iff}
use idem_ip.Base.Bits.{bit_and_step, bit_and_mask, bit_and_high, all_below, all_below_sound}
use idem_ip.Ip4Addr.{mask_ones, mask_contiguous, complement}

-- A number shares no bit with the one before it only when it is a power of two.
bit_and_self : (k a : ℕ) → a ≤ k → bit_and a a ≡ a
bit_and_self k zero h = refl
bit_and_self zero (suc a) h = elim h [ ]
bit_and_self (suc k) (suc a) h =
    omega (arith, bit_and_step (suc a) (suc a), bit_and_self k (suc a / 2) (omega arith))

power_of_two :
    (n h : ℕ) → 0 < h → h < 2 ^ n → bit_and h (h - 1) ≡ 0 → (k : ℕ) × (k < n) × (h ≡ 2 ^ k)
power_of_two zero h p l e = absurd (omega arith)
power_of_two (suc n) h p l e =
    let step = bit_and_step h (h - 1) in
    elim (Bool-cases (h % 2 == 0)) [
      | inl c ↦
          let pred : (h - 1) / 2 ≡ h / 2 - 1 = ground arith in
          let rest =
            power_of_two n (h / 2) (ground arith) (omega (arith, pow-suc 2 n))
              (omega (arith, step, ap (bit_and (h / 2)) pred)) in
          (suc (rest.0), omega (arith, rest.1), ground (arith, rest.2, pow-suc 2 (rest.0)))
      | inr c ↦
          let pred : (h - 1) / 2 ≡ h / 2 = ground arith in
          let none : h / 2 ≡ 0 =
            omega (
              arith,
              step,
              ap (bit_and (h / 2)) pred,
              bit_and_self (h / 2) (h / 2) (omega arith),
            ) in
          (0, omega arith, ground (arith, none))
    ]

-- A mask with no gap in it leaves the low bits of an address.
pub mask_contiguous_from :
    (mask : ℕ)
    → mask < 2 ^ 32
    → mask_contiguous mask ≡ true
    → (k : ℕ) × (k ≤ 32) × (mask ≡ 2 ^ 32 - 2 ^ k)
unfolding mask_contiguous
mask_contiguous_from mask l h = elim (Bool-cases (mask == 0)) [
  | inl c ↦ (32, omega arith, ground arith)
  | inr c ↦
      let host : u32 (complement mask + 1) ≡ 2 ^ 32 - mask = ground arith in
      let less : sub32 (2 ^ 32 - mask) 1 ≡ 2 ^ 32 - mask - 1 = ground arith in
      let none : bit_and (2 ^ 32 - mask) (2 ^ 32 - mask - 1) ≡ 0 =
        sym (ap₂ bit_and host (ap (λ (t : ℕ). sub32 t 1) host ∙ less)) ∙ (==_iff _ _).0 h in
      let power = power_of_two 32 (2 ^ 32 - mask) (omega arith) (ground arith) none in
      (power.0, omega (arith, power.1), omega (arith, power.2))
]

prefix_test : ℕ → Bool
prefix_test k = mask_ones (2 ^ 32 - 2 ^ k) == 32 - k && mask_contiguous (2 ^ 32 - 2 ^ k)

pub prefix_mask :
    (k : ℕ)
    → k ≤ 32
    → (mask_ones (2 ^ 32 - 2 ^ k) ≡ 32 - k) × (mask_contiguous (2 ^ 32 - 2 ^ k) ≡ true)
unfolding prefix_test all_below mask_ones mask_contiguous
prefix_mask k h =
    let t : prefix_test k ≡ true = all_below_sound 33 prefix_test k refl (omega arith) in
    ground (arith, t)

-- A 32-bit mask passes the contiguity test exactly when it is the mask whose leading ones are as
-- many as it is counted to have.
pub mask_prefix :
    (mask : ℕ)
    → mask < 2 ^ 32
    → (mask_contiguous mask ≡ true)
      ↔ ((mask_ones mask ≤ 32) × (mask ≡ 2 ^ 32 - 2 ^ (32 - mask_ones mask)))
mask_prefix mask l = (
  λ h.
      let p = mask_contiguous_from mask l h in
      let ones : mask_ones mask ≡ 32 - p.0 = ap mask_ones p.2 ∙ (prefix_mask (p.0) p.1).0 in
      let back : 32 - mask_ones mask ≡ p.0 = omega (arith, ones, p.1) in
      (omega (arith, ones), rw (back) p.2),
  λ h. ap mask_contiguous h.1 ∙ (prefix_mask (32 - mask_ones mask) (omega arith)).1,
)

quotient_below : (q n p : ℕ) → q * p < n * p → q < n
quotient_below q n p h = grind arith

mul_cancel : (q r p : ℕ) → 1 ≤ p → q * p ≡ r * p → q ≡ r
mul_cancel q r p h e = grind arith

small_rem : (q n : ℕ) → q < n → q % n ≡ q
small_rem q n h = grind arith

span_test : ℕ → Bool
span_test k = 2 ^ (32 - k) * 2 ^ k == 2 ^ 32 && (2 ^ (32 - k) - 1) * 2 ^ k == 2 ^ 32 - 2 ^ k

prefix_span :
    (k : ℕ)
    → k ≤ 32
    → (2 ^ (32 - k) * 2 ^ k ≡ 2 ^ 32) × ((2 ^ (32 - k) - 1) * 2 ^ k ≡ 2 ^ 32 - 2 ^ k)
unfolding span_test all_below
prefix_span k h =
    let t : span_test k ≡ true = all_below_sound 33 span_test k refl (omega arith) in
    ground (arith, t)

-- A prefix's mask keeps the leading bits of an address.
pub bit_and_prefix :
    (k a : ℕ) → k ≤ 32 → a < 2 ^ 32 → bit_and a (2 ^ 32 - 2 ^ k) ≡ a / 2 ^ k * 2 ^ k
bit_and_prefix k a h l =
    let span = prefix_span k h in
    let low : a % 2 ^ k < 2 ^ k = omega (arith, one-le-pow k 2) in
    let parts : a / 2 ^ k * 2 ^ k + a % 2 ^ k ≡ a = grind arith in
    let small : a / 2 ^ k < 2 ^ (32 - k) =
      quotient_below (a / 2 ^ k) (2 ^ (32 - k)) (2 ^ k) (omega (arith, parts, span.0, l)) in
    let masked = bit_and_high k (a / 2 ^ k) (a % 2 ^ k) (2 ^ (32 - k) - 1) low in
    let kept : bit_and (a / 2 ^ k) (2 ^ (32 - k) - 1) ≡ a / 2 ^ k =
      bit_and_mask (32 - k) (a / 2 ^ k) ∙ small_rem _ _ small in
    ap₂ bit_and (sym parts) (sym span.1) ∙ masked ∙ ap (λ (t : ℕ). t * 2 ^ k) kept

-- A row's prefix matches an address exactly when their leading bits are the same.
pub prefix_matches :
    (k a b : ℕ)
    → k ≤ 32
    → a < 2 ^ 32
    → b < 2 ^ 32
    → bit_and b (2 ^ 32 - 2 ^ k) ≡ b
    → (bit_and a (2 ^ 32 - 2 ^ k) ≡ b) ↔ (a / 2 ^ k ≡ b / 2 ^ k)
prefix_matches k a b h l m e =
    let left = bit_and_prefix k a h l in
    let right = bit_and_prefix k b h m in
    (
      λ t.
          mul_cancel (a / 2 ^ k) (b / 2 ^ k) (2 ^ k) (one-le-pow k 2 (omega arith))
            (omega (arith, left, right, t, e)),
      λ t. left ∙ ap (λ (q : ℕ). q * 2 ^ k) t ∙ sym right ∙ e,
    )
