-- ===== src/Base/Bits.antt =====
-- The native bit operations at variables: masks are remainders, disjoint fields are sums, and two
-- words are equal exactly when their difference has no bit set.
use Prim.Native.Nat.{ℕ, zero, suc, ◌+◌, ◌-◌, ◌*◌, ◌/◌, ◌%◌, ◌^◌, ◌≤◌, ◌<◌, min, max}
use Prim.Native.Nat.{bit_and, bit_or, bit_xor, digits, differ}
use Prim.Native.Nat.{bit_and-bitwise, bit_or-bitwise, bit_xor-bitwise}
use native.Mathlib.Nat.{pow-suc, one-le-pow}
use native.Mathlib.Omega.{arith}
use mathlib.Core.Bool.{Bool, true, ◌&&◌}
use mathlib.Core.Path.{◌≡◌, refl, sym, ap, ap₂, ◌∙◌}

-- The recursion that an operation stands for, with any count of digits that is enough.
module _ (z : ℕ → ℕ) (f : ℕ → ℕ → ℕ) where
  more_digits : (k j a b : ℕ) → a ≤ k → a ≤ j → digits z f k a b ≡ digits z f j a b
  more_digits zero zero a b h g = refl
  more_digits zero (suc j) zero b h g = refl
  more_digits zero (suc j) (suc a) b h g = elim h [ ]
  more_digits (suc k) zero zero b h g = refl
  more_digits (suc k) zero (suc a) b h g = elim g [ ]
  more_digits (suc k) (suc j) zero b h g = refl
  more_digits (suc k) (suc j) (suc a) b h g =
      ap (λ (t : ℕ). t * 2 + f (suc a % 2) (b % 2))
        (more_digits k j (suc a / 2) (b / 2) (omega arith) (omega arith))

  -- One digit at a time, where the rest of `b` is copied or dropped digit by digit too.
  lowest_digit :
      ((b : ℕ) → z b ≡ z (b / 2) * 2 + f 0 (b % 2))
      → (a b : ℕ) → digits z f a a b ≡ digits z f (a / 2) (a / 2) (b / 2) * 2 + f (a % 2) (b % 2)
  lowest_digit rest zero b = rest b
  lowest_digit rest (suc a) b =
      ap (λ (t : ℕ). t * 2 + f (suc a % 2) (b % 2))
        (more_digits a (suc a / 2) (suc a / 2) (b / 2) (omega arith) (omega arith))

pub bit_and_step : (a b : ℕ) → bit_and a b ≡ bit_and (a / 2) (b / 2) * 2 + min (a % 2) (b % 2)
bit_and_step a b =
    rw (bit_and-bitwise, bit_and-bitwise) (lowest_digit (λ b. 0) min (λ b. omega arith) a b)

bit_or_step : (a b : ℕ) → bit_or a b ≡ bit_or (a / 2) (b / 2) * 2 + max (a % 2) (b % 2)
bit_or_step a b =
    rw (bit_or-bitwise, bit_or-bitwise) (lowest_digit (λ b. b) max (λ b. omega arith) a b)

bit_xor_step : (a b : ℕ) → bit_xor a b ≡ bit_xor (a / 2) (b / 2) * 2 + differ (a % 2) (b % 2)
bit_xor_step a b =
    rw (bit_xor-bitwise, bit_xor-bitwise) (lowest_digit (λ b. b) differ (λ b. omega arith) a b)

bit_or-zero : (k a : ℕ) → a ≤ k → bit_or a 0 ≡ a
bit_or-zero k zero h = refl
bit_or-zero zero (suc a) h = elim h [ ]
bit_or-zero (suc k) (suc a) h =
    omega (arith, bit_or_step (suc a) 0, bit_or-zero k (suc a / 2) (omega arith))

bit_and-zero : (k a : ℕ) → a ≤ k → bit_and a 0 ≡ 0
bit_and-zero k zero h = refl
bit_and-zero zero (suc a) h = elim h [ ]
bit_and-zero (suc k) (suc a) h =
    omega (arith, bit_and_step (suc a) 0, bit_and-zero k (suc a / 2) (omega arith))

pub zero-bit_and : (b : ℕ) → bit_and 0 b ≡ 0
zero-bit_and b = bit_and-bitwise 0 b

-- Fields that do not overlap: the or is the sum.
pub bit_or_fields : (k q r : ℕ) → r < 2 ^ k → bit_or (q * 2 ^ k) r ≡ q * 2 ^ k + r
bit_or_fields zero q r h = ground (arith, bit_or-zero q q)
bit_or_fields (suc k) q r h =
    let twice : q * 2 ^ suc k ≡ q * 2 ^ k * 2 =
      omega (arith, ap (λ (t : ℕ). q * t) (pow-suc 2 k)) in
    let half : q * 2 ^ suc k / 2 ≡ q * 2 ^ k = omega (arith, twice) in
    let low : r / 2 < 2 ^ k = omega (arith, pow-suc 2 k) in
    omega (
      arith,
      bit_or_step (q * 2 ^ suc k) r,
      ap (λ (t : ℕ). bit_or t (r / 2)) half,
      bit_or_fields k q (r / 2) low,
      twice,
    )

-- A mask of `k` ones keeps the remainder, stated for a number in its two parts.
bit_and_parts : (k q r : ℕ) → r < 2 ^ k → bit_and (q * 2 ^ k + r) (2 ^ k - 1) ≡ r
bit_and_parts zero q r h = omega (arith, bit_and-zero (q * 1 + r) (q * 1 + r) (omega arith))
bit_and_parts (suc k) q r h =
    let twice : q * 2 ^ suc k ≡ q * 2 ^ k * 2 =
      omega (arith, ap (λ (t : ℕ). q * t) (pow-suc 2 k)) in
    let half : (q * 2 ^ suc k + r) / 2 ≡ q * 2 ^ k + r / 2 = omega (arith, twice) in
    let ones : (2 ^ suc k - 1) / 2 ≡ 2 ^ k - 1 = omega (arith, pow-suc 2 k) in
    omega (
      arith,
      bit_and_step (q * 2 ^ suc k + r) (2 ^ suc k - 1),
      ap₂ bit_and half ones,
      bit_and_parts k q (r / 2) (omega (arith, pow-suc 2 k)),
      twice,
      pow-suc 2 k,
      one-le-pow k 2,
    )

pub bit_and_mask : (k a : ℕ) → bit_and a (2 ^ k - 1) ≡ a % 2 ^ k
bit_and_mask k a =
    let below : a % 2 ^ k < 2 ^ k = omega (arith, one-le-pow k 2) in
    let parts : a / 2 ^ k * 2 ^ k + a % 2 ^ k ≡ a = grind arith in
    ap (λ (t : ℕ). bit_and t (2 ^ k - 1)) (sym parts)
    ∙ bit_and_parts k (a / 2 ^ k) (a % 2 ^ k) below

-- An or is zero only of zeros, and an exclusive or only of equals.
pub bit_or-eq-zero : (k a b : ℕ) → a ≤ k → bit_or a b ≡ 0 → (a ≡ 0) × (b ≡ 0)
bit_or-eq-zero k zero b h e = (refl, sym (bit_or-bitwise 0 b) ∙ e)
bit_or-eq-zero zero (suc a) b h e = elim h [ ]
bit_or-eq-zero (suc k) (suc a) b h e = absurd (
    omega (
      arith,
      bit_or_step (suc a) b,
      bit_or-eq-zero k (suc a / 2) (b / 2) (omega arith) (omega (arith, bit_or_step (suc a) b)),
    ))

differ-eq-zero : (a b : ℕ) → differ a b ≡ 0 → a ≡ b
differ-eq-zero zero b e = sym e
differ-eq-zero (suc a) zero e = absurd (omega arith)
differ-eq-zero (suc a) (suc b) e = ap suc (differ-eq-zero a b e)

differ_self : (a : ℕ) → differ a a ≡ 0
differ_self zero = refl
differ_self (suc a) = differ_self a

pub bit_xor-eq-zero : (k a b : ℕ) → a ≤ k → bit_xor a b ≡ 0 → a ≡ b
bit_xor-eq-zero k zero b h e = sym e ∙ bit_xor-bitwise 0 b
bit_xor-eq-zero zero (suc a) b h e = elim h [ ]
bit_xor-eq-zero (suc k) (suc a) b h e =
    let step : bit_xor (suc a / 2) (b / 2) * 2 + differ (suc a % 2) (b % 2) ≡ 0 =
      sym (bit_xor_step (suc a) b) ∙ e in
    omega (
      arith,
      bit_xor-eq-zero k (suc a / 2) (b / 2) (omega arith) (omega arith),
      differ-eq-zero (suc a % 2) (b % 2) (omega arith),
    )

bit_xor_self_bounded : (k a : ℕ) → a ≤ k → bit_xor a a ≡ 0
bit_xor_self_bounded k zero h = refl
bit_xor_self_bounded zero (suc a) h = elim h [ ]
bit_xor_self_bounded (suc k) (suc a) h = omega (
  arith,
  bit_xor_step (suc a) (suc a),
  bit_xor_self_bounded k (suc a / 2) (omega arith),
  differ_self (suc a % 2),
)

pub bit_xor_self : (a : ℕ) → bit_xor a a ≡ 0
bit_xor_self a = bit_xor_self_bounded a a (omega arith)

-- A mask of the bits from `k` on keeps the multiple of `2 ^ k`.
pub bit_and_high :
    (k q r m : ℕ) → r < 2 ^ k → bit_and (q * 2 ^ k + r) (m * 2 ^ k) ≡ bit_and q m * 2 ^ k
bit_and_high zero q r m h =
    let left : q * 1 + r ≡ q = omega arith in
    let right : m * 1 ≡ m = omega arith in omega (arith, ap₂ bit_and left right)
bit_and_high (suc k) q r m h =
    let twice : q * 2 ^ suc k ≡ q * 2 ^ k * 2 =
      omega (arith, ap (λ (t : ℕ). q * t) (pow-suc 2 k)) in
    let even : m * 2 ^ suc k ≡ m * 2 ^ k * 2 = omega (arith, ap (λ (t : ℕ). m * t) (pow-suc 2 k)) in
    let both : bit_and q m * 2 ^ suc k ≡ bit_and q m * 2 ^ k * 2 =
      omega (arith, ap (λ (t : ℕ). bit_and q m * t) (pow-suc 2 k)) in
    let half : (q * 2 ^ suc k + r) / 2 ≡ q * 2 ^ k + r / 2 = omega (arith, twice) in
    let mask : m * 2 ^ suc k / 2 ≡ m * 2 ^ k = omega (arith, even) in
    omega (
      arith,
      bit_and_step (q * 2 ^ suc k + r) (m * 2 ^ suc k),
      ap₂ bit_and half mask,
      bit_and_high k q (r / 2) m (omega (arith, pow-suc 2 k)),
      even,
      both,
    )

-- Masking twice is masking once.
bit_and_idem_bounded : (k a m : ℕ) → a ≤ k → bit_and (bit_and a m) m ≡ bit_and a m
bit_and_idem_bounded k zero m h = ap (λ (t : ℕ). bit_and t m) (zero-bit_and m)
bit_and_idem_bounded zero (suc a) m h = elim h [ ]
bit_and_idem_bounded (suc k) (suc a) m h =
    let step = bit_and_step (suc a) m in
    let half : bit_and (suc a) m / 2 ≡ bit_and (suc a / 2) (m / 2) = omega (arith, step) in
    omega (
      arith,
      step,
      bit_and_step (bit_and (suc a) m) m,
      ap (λ (t : ℕ). bit_and t (m / 2)) half,
      bit_and_idem_bounded k (suc a / 2) (m / 2) (omega arith),
    )

pub bit_and_idem : (a m : ℕ) → bit_and (bit_and a m) m ≡ bit_and a m
bit_and_idem a m = bit_and_idem_bounded a a m (omega arith)

-- Over a small range, a test of every value.
unfoldable pub all_below : ℕ → (ℕ → Bool) → Bool
all_below zero p = true
all_below (suc n) p = p n && all_below n p

pub all_below_sound : (n : ℕ) (p : ℕ → Bool) (x : ℕ) → all_below n p ≡ true → x < n → p x ≡ true
unfolding all_below
all_below_sound zero p x h l = elim l [ ]
all_below_sound (suc n) p x h l = ground (arith, all_below_sound n p x)
