-- ===== src/Span/Words.antt =====
-- A word, and the masked tail of one, say exactly what the octets in them say.
use idem_ip.Base.{
  ℕ, zero, suc, ◌+◌, ◌-◌, ◌*◌, ◌/◌, ◌%◌, ◌^◌, ◌<◌, ◌≡◌, arith, refl, ap, ap₂, ◌∙◌, sym,
}
use idem_ip.Base.{Bool, true, false, bit_and, ◌&&◌, ◌↔◌, ◌==◌}
use native.Mathlib.Nat.{
  pow-suc, one-le-pow, mul-add-div_right, div-eq_of_lt, mod-eq_of_lt, add-mul-mod_self_left,
}
use native.Mathlib.Decide.{ℕ_discrete}
use idem_ip.Base.Bits.{bit_and_mask, bit_and_high, all_below, all_below_sound}
use idem_ip.Endian.{Octets, octet}
use idem_ip.Endian.RoundTrip.{IsBytes}
use idem_ip.Endian.Frame.{SameOctets}
use idem_ip.Host.Bounds.{little_word-lt, big_word-lt}
use idem_ip.Host.{Width, bits16, bits32, bits64, word_octets, load_word, little_word, big_word}
use idem_ip.Span.{tail, tail_mask}

SameOctets-first :
    (p q : Octets) (i e : ℕ) → octet p i ≡ octet q i → SameOctets p q (i + 1) e → SameOctets p q i e
SameOctets-first p q i e first rest j l h = elim (ℕ_discrete j i) [
  | yes here ↦ ap (octet p) here ∙ first ∙ sym (ap (octet q) here)
  | no there ↦ rest j (omega arith) h
]

-- Words of the same octets are equal, and equal words hold the same octets.
module _ (p q : Octets) where
  little_word_cong : (n i : ℕ) → SameOctets p q i (i + n) → little_word p i n ≡ little_word q i n
  little_word_cong zero i h = refl
  little_word_cong (suc n) i h = omega (
    arith,
    h i (omega arith) (omega arith),
    little_word_cong n (i + 1) (λ j l g. h j (omega arith) (omega arith)),
  )

  big_word_cong : (n i : ℕ) → SameOctets p q i (i + n) → big_word p i n ≡ big_word q i n
  big_word_cong zero i h = refl
  big_word_cong (suc n) i h =
      ap₂ (λ (a : ℕ) (b : ℕ). a * 256 ^ n + b) (h i (omega arith) (omega arith))
        (big_word_cong n (i + 1) (λ j l g. h j (omega arith) (omega arith)))

  module _ (b : IsBytes p) (c : IsBytes q) where
    little_word_injective :
        (n i : ℕ) → little_word p i n ≡ little_word q i n → SameOctets p q i (i + n)
    little_word_injective zero i e = λ j l h. absurd (omega arith)
    little_word_injective (suc n) i e =
        SameOctets-first p q i (i + suc n) (omega (arith, b i, c i))
          (λ j l h. little_word_injective n (i + 1) (omega (arith, b i, c i)) j l (omega arith))

-- A number in base `m` determines its two digits.
digits_injective : (m a b x y : ℕ) → x < m → y < m → a * m + x ≡ b * m + y → (a ≡ b) × (x ≡ y)
digits_injective m a b x y h k e =
    let pos : 0 < m = omega arith in
    let same : a ≡ b = omega (
      arith,
      mul-add-div_right pos a x,
      mul-add-div_right pos b y,
      ap (λ (t : ℕ). t / m) e,
      div-eq_of_lt h,
      div-eq_of_lt k,
    ) in
    (same, omega (arith, ap (λ (t : ℕ). t * m) same))

big_word_injective :
    (p q : Octets) (n i : ℕ)
    → IsBytes p
    → IsBytes q
    → big_word p i n ≡ big_word q i n
    → SameOctets p q i (i + n)
big_word_injective p q zero i b c e = λ j l h. absurd (omega arith)
big_word_injective p q (suc n) i b c e =
    let both =
      digits_injective (256 ^ n) (octet p i) (octet q i) (big_word p (i + 1) n)
        (big_word q (i + 1) n) (big_word-lt p n (i + 1) b) (big_word-lt q n (i + 1) c) e in
    SameOctets-first p q i (i + suc n) both.0
      (λ j l h. big_word_injective p q n (i + 1) b c both.1 j l (omega arith))

-- A word in two pieces.
little_word_split :
    (p : Octets) (n m i : ℕ)
    → little_word p i (n + m) ≡ little_word p i n + 256 ^ n * little_word p (i + n) m
little_word_split p zero m i =
    let all : 0 + m ≡ m = omega arith in
    let here : i ≡ i + 0 = omega arith in
    omega (arith, ap (little_word p i) all, ap (λ (t : ℕ). little_word p t m) here)
little_word_split p (suc n) m i =
    let all : suc n + m ≡ suc (n + m) = omega arith in
    let next : i + 1 + n ≡ i + suc n = omega arith in
    let rest = ap (λ (t : ℕ). little_word p t m) next in
    omega (
      arith,
      ap (little_word p i) all,
      little_word_split p n m (i + 1),
      ap (λ (t : ℕ). 256 ^ n * t) rest,
      ap (λ (t : ℕ). t * little_word p (i + suc n) m) (pow-suc 256 n),
    )

pow-add_256 : (n m : ℕ) → 256 ^ (n + m) ≡ 256 ^ n * 256 ^ m
pow-add_256 zero m = let all : 0 + m ≡ m = omega arith in omega (arith, ap (λ (t : ℕ). 256 ^ t) all)
pow-add_256 (suc n) m =
    let all : suc n + m ≡ suc (n + m) = omega arith in
    omega (
      arith,
      ap (λ (t : ℕ). 256 ^ t) all,
      pow-suc 256 (n + m),
      pow-add_256 n m,
      ap (λ (t : ℕ). t * 256 ^ m) (pow-suc 256 n),
    )

big_word_split :
    (p : Octets) (n m i : ℕ)
    → big_word p i (n + m) ≡ big_word p i n * 256 ^ m + big_word p (i + n) m
big_word_split p zero m i =
    let all : 0 + m ≡ m = omega arith in
    let here : i ≡ i + 0 = omega arith in
    omega (arith, ap (big_word p i) all, ap (λ (t : ℕ). big_word p t m) here)
big_word_split p (suc n) m i =
    let all : suc n + m ≡ suc (n + m) = omega arith in
    let next : i + 1 + n ≡ i + suc n = omega arith in
    omega (
      arith,
      ap (big_word p i) all,
      big_word_split p n m (i + 1),
      ap (λ (t : ℕ). big_word p t m) next,
      ap (λ (t : ℕ). octet p i * t) (pow-add_256 n m),
    )

-- The masks, over the counts that a tail can have.
abbrev good_mask : Width → ℕ → Bool
good_mask wd n =
    tail_mask true wd n == 2 ^ (8 * n) - 1
    && tail_mask false wd n == (2 ^ (8 * n) - 1) * 2 ^ (8 * (word_octets wd - n))
    && 256 ^ n == 2 ^ (8 * n)
    && 256 ^ (word_octets wd - n) == 2 ^ (8 * (word_octets wd - n))

mask_table : (wd : Width) → all_below (word_octets wd) (good_mask wd) ≡ true
unfolding all_below tail_mask
mask_table bits16 = refl
mask_table bits32 = refl
mask_table bits64 = refl

record Masks (wd : Width) (n : ℕ) : Type 0 where
  low : tail_mask true wd n ≡ 2 ^ (8 * n) - 1
  high : tail_mask false wd n ≡ (2 ^ (8 * n) - 1) * 2 ^ (8 * (word_octets wd - n))
  base : 256 ^ n ≡ 2 ^ (8 * n)
  rest : 256 ^ (word_octets wd - n) ≡ 2 ^ (8 * (word_octets wd - n))

masks : (wd : Width) (n : ℕ) → n < word_octets wd → Masks wd n
masks wd n h =
    let t = all_below_sound (word_octets wd) (good_mask wd) n (mask_table wd) h in ground arith

tail_little :
    (wd : Width) (p : Octets) (i n : ℕ)
    → IsBytes p
    → n < word_octets wd
    → tail true wd p i n ≡ little_word p i n
unfolding tail
tail_little wd p i n b h =
    let m = masks wd n h in
    let all : word_octets wd ≡ n + (word_octets wd - n) = omega arith in
    let upper = little_word p (i + n) (word_octets wd - n) in
    let whole : little_word p i (word_octets wd) ≡ little_word p i n + 2 ^ (8 * n) * upper =
      ap (little_word p i) all
      ∙ little_word_split p n (word_octets wd - n) i
      ∙ ap (λ (t : ℕ). little_word p i n + t * upper) m.base in
    ap (bit_and (little_word p i (word_octets wd))) m.low
    ∙ bit_and_mask (8 * n) (little_word p i (word_octets wd))
    ∙ ap (λ (t : ℕ). t % 2 ^ (8 * n)) whole
    ∙ add-mul-mod_self_left (little_word p i n) (2 ^ (8 * n)) upper
    ∙ mod-eq_of_lt (omega (arith, little_word-lt p n i b, m.base))

tail_big :
    (wd : Width) (p : Octets) (i n : ℕ)
    → IsBytes p
    → n < word_octets wd
    → tail false wd p i n ≡ big_word p i n * 256 ^ (word_octets wd - n)
unfolding tail
tail_big wd p i n b h =
    let m = masks wd n h in
    let left = word_octets wd - n in
    let all : word_octets wd ≡ n + left = omega arith in
    let lower = big_word p (i + n) left in
    let whole : big_word p i (word_octets wd) ≡ big_word p i n * 2 ^ (8 * left) + lower =
      ap (big_word p i) all
      ∙ big_word_split p n left i
      ∙ ap (λ (t : ℕ). big_word p i n * t + lower) m.rest in
    ap₂ bit_and whole m.high
    ∙ bit_and_high (8 * left) (big_word p i n) lower (2 ^ (8 * n) - 1)
        (omega (arith, big_word-lt p left (i + n) b, m.rest))
    ∙ ap₂ (λ (a : ℕ) (t : ℕ). a * t)
        (bit_and_mask (8 * n) (big_word p i n)
          ∙ mod-eq_of_lt (omega (arith, big_word-lt p n i b, m.base)))
        (sym m.rest)

pow_256-pos : (n : ℕ) → 0 < 256 ^ n
pow_256-pos n = omega (arith, one-le-pow n 256)

times_injective : (m a b : ℕ) → 0 < m → a * m ≡ b * m → a ≡ b
times_injective m a b h e = (digits_injective m a b 0 0 h h (omega arith)).0

-- Whole words are equal exactly when their octets are the same.
pub load_word_iff :
    (little : Bool) (wd : Width) (p q : Octets) (i : ℕ)
    → IsBytes p
    → IsBytes q
    → (load_word little wd p i ≡ load_word little wd q i) ↔ SameOctets p q i (i + word_octets wd)
load_word_iff true wd p q i b c =
    (little_word_injective p q b c (word_octets wd) i, little_word_cong p q (word_octets wd) i)
load_word_iff false wd p q i b c =
    (big_word_injective p q (word_octets wd) i b c, big_word_cong p q (word_octets wd) i)

-- The masked tails are equal exactly when the octets inside the spans are the same.
pub tail_iff :
    (little : Bool) (wd : Width) (p q : Octets) (i n : ℕ)
    → IsBytes p
    → IsBytes q
    → n < word_octets wd
    → (tail little wd p i n ≡ tail little wd q i n) ↔ SameOctets p q i (i + n)
tail_iff true wd p q i n b c h =
    rw (tail_little wd p i n b h, tail_little wd q i n c h)
      (little_word_injective p q b c n i, little_word_cong p q n i)
tail_iff false wd p q i n b c h =
    let m = 256 ^ (word_octets wd - n) in
    rw (tail_big wd p i n b h, tail_big wd q i n c h)
      (
        λ e.
            big_word_injective p q n i b c
              (times_injective m _ _ (pow_256-pos (word_octets wd - n)) e),
        λ s. ap (λ (t : ℕ). t * m) (big_word_cong p q n i s),
      )
