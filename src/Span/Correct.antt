-- ===== src/Span/Correct.antt =====
-- Both questions are answered as octet by octet, at every word width and byte order.
use idem_ip.Base.{ℕ, zero, suc, ◌+◌, ◌-◌, ◌≤◌, ◌<◌, ◌≡◌, arith, refl, ap, ap₂, ◌∙◌, sym}
use idem_ip.Base.{
  Bool, true, false, bit_and, bit_or, bit_xor, leb, ◌↔◌, ◌==◌, ==_iff, [], Bool-cases, inl, inr,
}
use native.Mathlib.Decide.{dec_lt}
use idem_ip.Base.Bits.{bit_or-eq-zero, bit_xor-eq-zero, bit_xor_self, zero-bit_and}
use idem_ip.Endian.{Octets, octet}
use idem_ip.Endian.RoundTrip.{IsBytes}
use idem_ip.Host.Bounds.{word_octets-pos}
use idem_ip.Host.{Width, word_octets, load_word, little_word, big_word}
use idem_ip.Span.{tail, tail_mask, eq_loop, zero_loop, bytes_eq, bytes_zero}
use idem_ip.Endian.Frame.{SameOctets}
use idem_ip.Span.Words.{load_word_iff, tail_iff}

or_zero_iff : (a b : ℕ) → (bit_or a b ≡ 0) ↔ ((a ≡ 0) × (b ≡ 0))
or_zero_iff a b = (bit_or-eq-zero a a b (omega arith), λ h. ap₂ bit_or h.0 h.1)

xor_zero_iff : (a b : ℕ) → (bit_xor a b ≡ 0) ↔ (a ≡ b)
xor_zero_iff a b =
    (bit_xor-eq-zero a a b (omega arith), λ e. ap (λ (t : ℕ). bit_xor t b) e ∙ bit_xor_self b)

SameOctets_join :
    (p q : Octets) (i m e : ℕ) → SameOctets p q i m → SameOctets p q m e → SameOctets p q i e
SameOctets_join p q i m e h k j l g = elim (dec_lt j m) [
  | yes low ↦ h j l low
  | no high ↦ k j (omega arith) g
]

module _ (little : Bool) (wd : Width) (p q : Octets) (n : ℕ) (b : IsBytes p) (c : IsBytes q) where
  -- What the loop over words has found when it stops.
  record Compares (i diff : ℕ) (out : ℕ × ℕ) : Type 0 where
    from : i ≤ out.1
    inside : out.1 ≤ n
    short : n < out.1 + word_octets wd
    found : (out.0 ≡ 0) ↔ ((diff ≡ 0) × SameOctets p q i out.1)

  -- One more word, with what its own difference `w` says.
  round :
      (i diff w : ℕ) (out : ℕ × ℕ)
      → (w ≡ 0) ↔ SameOctets p q i (i + word_octets wd)
      → Compares (i + word_octets wd) (bit_or diff w) out
      → Compares i diff out
  round i diff w out same r = record {
    from = omega (arith, r.from);
    inside = r.inside;
    short = r.short;
    found = (
      λ e. (
        ((or_zero_iff diff w).0 (r.found.0 e).0).0,
        SameOctets_join p q i (i + word_octets wd) out.1
            (same.0 ((or_zero_iff diff w).0 (r.found.0 e).0).1) (r.found.0 e).1,
      ),
      λ h. r.found.1 (
        (or_zero_iff diff w).1 (h.0, same.1 (λ j l g. h.1 j l (omega (arith, r.from)))),
        λ j l g. h.1 j (omega arith) g,
      ),
    );
  }

  stop_here : (i diff : ℕ) → i ≤ n → leb (i + word_octets wd) n ≡ false → Compares i diff (diff, i)
  stop_here i diff h stop = record {
    from = omega arith;
    inside = h;
    short = ground arith;
    found = (λ e. (e, λ j l g. absurd (omega arith)), λ h. h.0);
  }

  eq_loop-Compares :
      (fuel i diff : ℕ)
      → i ≤ n
      → n < i + fuel
      → Compares i diff (eq_loop little wd p q n fuel i diff)
  unfolding eq_loop
  eq_loop-Compares zero i diff h g = absurd (omega arith)
  eq_loop-Compares (suc fuel) i diff h g = elim (Bool-cases (leb (i + word_octets wd) n)) [
    | inl whole ↦
        let w = bit_xor (load_word little wd p i) (load_word little wd q i) in
        let word = load_word_iff little wd p q i b c in
        let xor = xor_zero_iff (load_word little wd p i) (load_word little wd q i) in
        let fits : i + word_octets wd ≤ n = ground arith in
        rw whole (
          round i diff w _ (λ e. word.0 (xor.0 e), λ e. xor.1 (word.1 e))
            (eq_loop-Compares fuel (i + word_octets wd) (bit_or diff w) fits
              (omega (arith, word_octets-pos wd))))
    | inr stop ↦ rw stop (stop_here i diff h stop)
  ]

  -- The accumulator and the tail together.
  last :
      (out : ℕ × ℕ) (t : ℕ)
      → Compares 0 0 out
      → (t ≡ 0) ↔ SameOctets p q out.1 (out.1 + (n - out.1))
      → ((bit_or out.0 t == 0) ≡ true) ↔ SameOctets p q 0 n
  last out t r tail_same =
      let or = or_zero_iff out.0 t in
      let test = ==_iff (bit_or out.0 t) 0 in
      (
        λ e.
            SameOctets_join p q 0 out.1 n (r.found.0 (or.0 (test.0 e)).0).1
              (λ j l g. tail_same.0 (or.0 (test.0 e)).1 j l (omega (arith, r.inside))),
        λ h. test.1 (
            or.1 (
              r.found.1 (refl, λ j l g. h j l (omega (arith, r.inside))),
              tail_same.1 (λ j l g. h j (omega arith) (omega (arith, r.inside))),
            )),
      )

-- Span.eq answers true exactly when the first n octets of two spans of octets are the same,
-- whatever octets stand behind them.
pub bytes_eq_iff :
    (little : Bool) (wd : Width) (p q : Octets) (n : ℕ)
    → IsBytes p
    → IsBytes q
    → (bytes_eq little wd p q n ≡ true) ↔ ((j : ℕ) → j < n → octet p j ≡ octet q j)
unfolding bytes_eq
bytes_eq_iff little wd p q n b c =
    let r = eq_loop-Compares little wd p q n b c (n + 1) 0 0 (omega arith) (omega arith) in
    let i = (eq_loop little wd p q n (n + 1) 0 0).1 in
    let short : n - i < word_octets wd = omega (arith, r.short) in
    let tails = tail_iff little wd p q i (n - i) b c short in
    let xor = xor_zero_iff (tail little wd p i (n - i)) (tail little wd q i (n - i)) in
    let all = last little wd p q n b c _ _ r (λ e. tails.0 (xor.0 e), λ e. xor.1 (tails.1 e)) in
    (λ e j g. all.0 e j (omega arith) g, λ h. all.1 (λ j l g. h j g))

-- A span with no octet left reads as zeros.
little_word-nil : (n i : ℕ) → little_word [] i n ≡ 0
little_word-nil zero i = refl
little_word-nil (suc n) i = omega (arith, little_word-nil n (i + 1))

big_word-nil : (n i : ℕ) → big_word [] i n ≡ 0
big_word-nil zero i = refl
big_word-nil (suc n) i = omega (arith, big_word-nil n (i + 1))

load_word-nil : (little : Bool) (wd : Width) (i : ℕ) → load_word little wd [] i ≡ 0
load_word-nil true wd i = little_word-nil (word_octets wd) i
load_word-nil false wd i = big_word-nil (word_octets wd) i

tail-nil : (little : Bool) (wd : Width) (i n : ℕ) → tail little wd [] i n ≡ 0
unfolding tail
tail-nil little wd i n =
    ap (λ (t : ℕ). bit_and t (tail_mask little wd n)) (load_word-nil little wd i)
    ∙ zero-bit_and (tail_mask little wd n)

nil-IsBytes : IsBytes []
nil-IsBytes i = omega arith

module _ (little : Bool) (wd : Width) (p : Octets) (n : ℕ) (b : IsBytes p) where
  zero_loop-Compares :
      (fuel i any : ℕ)
      → i ≤ n
      → n < i + fuel
      → Compares little wd p [] n b nil-IsBytes i any (zero_loop little wd p n fuel i any)
  unfolding zero_loop
  zero_loop-Compares zero i any h g = absurd (omega arith)
  zero_loop-Compares (suc fuel) i any h g = elim (Bool-cases (leb (i + word_octets wd) n)) [
    | inl whole ↦
        let w = load_word little wd p i in
        let word = load_word_iff little wd p [] i b nil-IsBytes in
        let none_set = load_word-nil little wd i in
        let fits : i + word_octets wd ≤ n = ground arith in
        rw whole (
          round little wd p [] n b nil-IsBytes i any w _
            (λ e. word.0 (e ∙ sym none_set), λ s. word.1 s ∙ none_set)
            (zero_loop-Compares fuel (i + word_octets wd) (bit_or any w) fits
              (omega (arith, word_octets-pos wd))))
    | inr stop ↦ rw stop (stop_here little wd p [] n b nil-IsBytes i any h stop)
  ]

-- Span.zero answers true exactly when the first n octets of a span of octets are zero.
pub bytes_zero_iff :
    (little : Bool) (wd : Width) (p : Octets) (n : ℕ)
    → IsBytes p
    → (bytes_zero little wd p n ≡ true) ↔ ((j : ℕ) → j < n → octet p j ≡ 0)
unfolding bytes_zero
bytes_zero_iff little wd p n b =
    let r = zero_loop-Compares little wd p n b (n + 1) 0 0 (omega arith) (omega arith) in
    let i = (zero_loop little wd p n (n + 1) 0 0).1 in
    let short : n - i < word_octets wd = omega (arith, r.short) in
    let tails = tail_iff little wd p [] i (n - i) b nil-IsBytes short in
    let none_set = tail-nil little wd i (n - i) in
    let all =
      last little wd p [] n b nil-IsBytes _ _ r
        (λ e. tails.0 (e ∙ sym none_set), λ s. tails.1 s ∙ none_set) in
    (λ e j g. all.0 e j (omega arith) g, λ h. all.1 (λ j l g. h j g))
