-- ===== src/Checksum/Words.antt =====
-- The word path adds up the same number as the pairs do, on either byte order: a word of the span,
-- the end-around addition of words, the folding of a word and the swap all keep the sum.
use idem_ip.Base.{
  ℕ, zero, suc, ◌+◌, ◌-◌, ◌*◌, ◌/◌, ◌%◌, ◌^◌, ◌≤◌, ◌<◌, ◌≡◌, arith, refl, ap, ap₂, ◌∙◌,
}
use idem_ip.Base.{Bool, true, false, bit_and, bit_or, leb, u32}
use idem_ip.Base.{Bool-cases, inl, inr}
use native.Mathlib.Nat.{add_assoc, mod-eq_of_lt}
use idem_ip.Host.Bounds.{load_word-lt, word_octets-pos}
use idem_ip.Base.Bits.{bit_and_mask, bit_or_fields}
use idem_ip.Endian.{Octets, octet}
use idem_ip.Endian.RoundTrip.{IsBytes}
use idem_ip.Host.{Width, bits16, bits32, bits64, word_octets, word_mod, load_word}
use idem_ip.Checksum.{
  add_end_around, fold_word, fold16, fold32, fold64, word_loop, swap_octets, network_order,
}
use idem_ip.Checksum.Reference.{pair_sum, SameSum, SameSum-add, SameSum-refl, SameSum-trans}

-- A sum as the host adds it up: with the octets of each pair swapped on a little-endian host.
abbrev pub host_sum : Bool → ℕ → ℕ
host_sum true n = n * 256
host_sum false n = n

-- A word steps by octets and the pairs by two: the same places.
same_places :
    (p : Octets) (i : ℕ)
    → (octet p (i + 1 + 1) ≡ octet p (i + 2))
      × (octet p (i + 1 + 1 + 1) ≡ octet p (i + 2 + 1))
      × (octet p (i + 1 + 1 + 1 + 1) ≡ octet p (i + 2 + 2))
      × (octet p (i + 1 + 1 + 1 + 1 + 1) ≡ octet p (i + 2 + 2 + 1))
      × (octet p (i + 1 + 1 + 1 + 1 + 1 + 1) ≡ octet p (i + 2 + 2 + 2))
      × (octet p (i + 1 + 1 + 1 + 1 + 1 + 1 + 1) ≡ octet p (i + 2 + 2 + 2 + 1))
same_places p i = (
  ap (octet p) (omega arith),
  ap (octet p) (omega arith),
  ap (octet p) (omega arith),
  ap (octet p) (omega arith),
  ap (octet p) (omega arith),
  ap (octet p) (omega arith),
)

SameSum-load_word :
    (little : Bool) (wd : Width) (p : Octets) (i : ℕ)
    → SameSum (host_sum little (load_word little wd p i)) (pair_sum p i (word_octets wd))
SameSum-load_word true bits16 p i = omega arith
SameSum-load_word true bits32 p i = omega (arith, same_places p i)
SameSum-load_word true bits64 p i = omega (arith, same_places p i)
SameSum-load_word false bits16 p i = omega arith
SameSum-load_word false bits32 p i = omega (arith, same_places p i)
SameSum-load_word false bits64 p i = omega (arith, same_places p i)

add_end_around-lt : (wd : Width) (a w : ℕ) → add_end_around wd a w < word_mod wd
unfolding add_end_around
add_end_around-lt bits16 a w = omega arith
add_end_around-lt bits32 a w = omega arith
add_end_around-lt bits64 a w = omega arith

SameSum-add_end_around :
    (wd : Width) (a w : ℕ)
    → a < word_mod wd
    → w < word_mod wd
    → SameSum (add_end_around wd a w) (a + w)
unfolding add_end_around
SameSum-add_end_around bits16 a w h k = ground arith
SameSum-add_end_around bits32 a w h k = ground arith
SameSum-add_end_around bits64 a w h k = ground arith

-- Each halving keeps the sum, and the last pair of adds leaves sixteen bits.
SameSum-fold64 : (a : ℕ) → a < 2 ^ 64 → SameSum (fold64 a) a × (fold64 a < 2 ^ 34)
SameSum-fold64 a h = omega (arith, bit_and_mask 32 a)

SameSum-fold32 :
    (m a : ℕ) → a < 2 ^ 34 → 2 ^ 20 ≤ m → SameSum (fold32 m a) a × (fold32 m a < 2 ^ 19)
SameSum-fold32 m a h k =
    let fits : (bit_and a 0xffff + a / 65536) % m ≡ bit_and a 0xffff + a / 65536 =
      mod-eq_of_lt (omega (arith, bit_and_mask 16 a)) in
    omega (arith, bit_and_mask 16 a, fits)

SameSum-fold16 : (a : ℕ) → a < 2 ^ 19 → SameSum (fold16 a) a × (fold16 a < 65536)
SameSum-fold16 a h =
    let low : bit_and a 0xffff ≡ a % 65536 = bit_and_mask 16 a in
    let once : u32 (u32 (bit_and a 0xffff) + u32 (a / 65536)) ≡ a % 65536 + a / 65536 =
      omega arith in
    let twice : bit_and (u32 (u32 (bit_and a 0xffff) + u32 (a / 65536))) 0xffff
        ≡ (a % 65536 + a / 65536) % 65536 =
      bit_and_mask 16 _ ∙ ap (λ (t : ℕ). t % 65536) once in
    omega arith

SameSum-fold_word :
    (wd : Width) (a : ℕ) → a < word_mod wd → SameSum (fold_word wd a) a × (fold_word wd a < 65536)
unfolding fold_word
SameSum-fold_word bits16 a h = SameSum-fold16 a (omega arith)
SameSum-fold_word bits32 a h =
    let b = SameSum-fold32 (2 ^ 32) a (omega arith) (omega arith) in
    let c = SameSum-fold16 (fold32 (2 ^ 32) a) (b.1) in (SameSum-trans _ _ _ c.0 b.0, c.1)
SameSum-fold_word bits64 a h =
    let d = SameSum-fold64 a h in
    let b = SameSum-fold32 (2 ^ 64) (fold64 a) (d.1) (omega arith) in
    let c = SameSum-fold16 (fold32 (2 ^ 64) (fold64 a)) (b.1) in
    (SameSum-trans _ _ _ c.0 (SameSum-trans _ _ _ b.0 d.0), c.1)

SameSum-swap_octets :
    (n : ℕ) → n < 65536 → SameSum (swap_octets n) (n * 256) × (swap_octets n < 65536)
SameSum-swap_octets n h =
    let fields : bit_or (n * 256 % 65536) (n / 256 % 65536) ≡ n % 256 * 256 + n / 256 =
      ap₂ bit_or high low ∙ bit_or_fields 8 (n % 256) (n / 256) (omega arith) in
    omega (arith, fields)
  where
    high : n * 256 % 65536 ≡ n % 256 * 256
    high = omega arith

    low : n / 256 % 65536 ≡ n / 256
    low = omega arith

SameSum-host_sum :
    (little : Bool) (x y : ℕ) → SameSum x y → SameSum (host_sum little x) (host_sum little y)
SameSum-host_sum true x y h = omega arith
SameSum-host_sum false x y h = h

-- The folded sum, back in network order.
pub SameSum-network_order :
    (little : Bool) (wd : Width) (a : ℕ)
    → a < word_mod wd
    → SameSum (network_order little (fold_word wd a)) (host_sum little a)
      × (network_order little (fold_word wd a) < 65536)
SameSum-network_order true wd a h =
    let f = SameSum-fold_word wd a h in
    let s = SameSum-swap_octets (fold_word wd a) (f.1) in
    (SameSum-trans _ _ _ s.0 (SameSum-host_sum true _ _ f.0), s.1)
SameSum-network_order false wd a h = SameSum-fold_word wd a h

-- One pair, where the places are equal to the next ones but not written so.
pub pair_sum_next :
    (p : Octets) (i j n m : ℕ)
    → n ≡ m + 2
    → j ≡ i + 2
    → pair_sum p i n ≡ octet p i * 256 + octet p (i + 1) + pair_sum p j m
pair_sum_next p i j n m e f = let two : n ≡ suc (suc m) = omega arith in rw (two, f) refl

-- The pairs of a whole word, and those behind it.
pub pair_sum_split :
    (wd : Width) (p : Octets) (i m : ℕ)
    → pair_sum p i (m + word_octets wd)
      ≡ pair_sum p i (word_octets wd) + pair_sum p (i + word_octets wd) m
pair_sum_split bits16 p i m = omega (arith, pair_sum_next p i (i + 2) (m + 2) m refl refl)
pair_sum_split bits32 p i m = omega (
  arith,
  pair_sum_next p i (i + 2) (m + 4) (m + 2) (omega arith) refl,
  pair_sum_next p (i + 2) (i + 4) (m + 2) m refl (omega arith),
)
pair_sum_split bits64 p i m = omega (
  arith,
  pair_sum_next p i (i + 2) (m + 8) (m + 6) (omega arith) refl,
  pair_sum_next p (i + 2) (i + 2 + 2) (m + 6) (m + 4) (omega arith) refl,
  pair_sum_next p (i + 2 + 2) (i + 2 + 2 + 2) (m + 4) (m + 2) (omega arith) refl,
  pair_sum_next p (i + 2 + 2 + 2) (i + 8) (m + 2) m refl (omega arith),
)

pub host_sum_zero : (little : Bool) → host_sum little 0 ≡ 0
host_sum_zero true = refl
host_sum_zero false = refl

host_sum-add :
    (little : Bool) (x y : ℕ) → host_sum little (x + y) ≡ host_sum little x + host_sum little y
host_sum-add true x y = omega arith
host_sum-add false x y = refl

-- What the word loop has done when it stops, started at octet `i` with the sum `acc`.
pub record AddsWords (little : Bool) (wd : Width) (p : Octets) (len i acc : ℕ) (out : ℕ × ℕ)
    : Type 0 where
  pub bounded : out.0 < word_mod wd
  pub progress : i + word_octets wd ≤ out.1
  pub inside : out.1 ≤ len
  pub same :
      SameSum
        (host_sum little out.0 + pair_sum p out.1 (len - out.1))
        (host_sum little acc + pair_sum p i (len - i))

-- One round of the loop, where a whole word is left.
module _ (little : Bool) (wd : Width) (p : Octets) (len i acc : ℕ) (b : IsBytes p)
    (fits : i + word_octets wd ≤ len) (small : acc < word_mod wd) where
  abbrev added : ℕ
  added = add_end_around wd acc (load_word little wd p i)

  abbrev next_word : ℕ
  next_word = i + word_octets wd

  round_same :
      SameSum
        (host_sum little added + pair_sum p next_word (len - next_word))
        (host_sum little acc + pair_sum p i (len - i))
  round_same =
      let w = load_word little wd p i in
      let sums : SameSum (host_sum little added) (host_sum little (acc + w)) =
        SameSum-host_sum little added (acc + w)
          (SameSum-add_end_around wd acc w small (load_word-lt little wd p i b)) in
      let rest : pair_sum p i (len - i)
          ≡ pair_sum p i (word_octets wd) + pair_sum p next_word (len - next_word) =
        ap (pair_sum p i) (omega arith) ∙ pair_sum_split wd p i (len - next_word) in
      let left = SameSum-add _ _ _ _ sums (SameSum-refl (pair_sum p next_word (len - next_word))) in
      let word =
        SameSum-add _ _ _ _ (SameSum-load_word little wd p i)
          (SameSum-refl (pair_sum p next_word (len - next_word))) in
      let right = SameSum-add _ _ _ _ (SameSum-refl (host_sum little acc)) word in
      SameSum-trans _ _ _ left (rw (host_sum-add little acc w, add_assoc, rest) right)

  round_stops : AddsWords little wd p len i acc (added, next_word)
  round_stops = record {
    bounded = add_end_around-lt wd acc _;
    progress = omega arith;
    inside = fits;
    same = round_same;
  }

  round_goes_on :
      (out : ℕ × ℕ)
      → AddsWords little wd p len next_word added out
      → AddsWords little wd p len i acc out
  round_goes_on out r = record {
    bounded = r.bounded;
    progress = omega (arith, r.progress);
    inside = r.inside;
    same = SameSum-trans _ _ _ r.same round_same;
  }

pub word_loop-AddsWords :
    (little : Bool) (wd : Width) (p : Octets) (len fuel i acc : ℕ)
    → IsBytes p
    → i + word_octets wd ≤ len
    → len ≤ i + fuel
    → acc < word_mod wd
    → AddsWords little wd p len i acc (word_loop little wd p len fuel i acc)
unfolding word_loop
word_loop-AddsWords little wd p len zero i acc b h f a = absurd (omega (arith, word_octets-pos wd))
word_loop-AddsWords little wd p len (suc fuel) i acc b h f a =
    elim (Bool-cases (leb (i + word_octets wd + word_octets wd) len)) [
      | inl more ↦ rw more (
          round_goes_on little wd p len i acc b h a _ (
            word_loop-AddsWords little wd p len fuel (i + word_octets wd) _ b (ground arith)
              (omega (arith, word_octets-pos wd)) (add_end_around-lt wd acc _)))
      | inr last ↦ rw last (round_stops little wd p len i acc b h a)
    ]
