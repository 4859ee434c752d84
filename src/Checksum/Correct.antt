-- ===== src/Checksum/Correct.antt =====
-- Every route computes RFC 1071's sum.
use idem_ip.Base.{ℕ, zero, suc, ◌+◌, ◌-◌, ◌*◌, ◌≤◌, ◌<◌, ◌≡◌, arith, refl, ap, ◌∙◌}
use idem_ip.Base.{Bool, true, false, bit_or, leb, u32, ◌<<<◌}
use idem_ip.Base.{Bool-cases, inl, inr}
use native.Mathlib.Decide.{dec_lt}
use idem_ip.Base.Bits.{bit_or_fields}
use idem_ip.Endian.{Octets, octet}
use idem_ip.Endian.RoundTrip.{IsBytes}
use idem_ip.Host.{Width, bits16, bits32, bits64, word_octets, word_mod}
use idem_ip.Checksum.{Route, by_pairs, little_endian, big_endian, word_path, fold_carries}
use idem_ip.Checksum.{word_loop, pair_loop, accum}
use idem_ip.Checksum.Reference.{
  pair_sum, folded_sum, SameSum, SameSum-add, SameSum-refl, SameSum-cong,
}
use idem_ip.Checksum.Reference.{SameSum-trans, SameSum-folded_sum, fold_carries-folded_sum}
use idem_ip.Checksum.Words.{
  pair_sum_next, word_loop-AddsWords, SameSum-network_order, host_sum_zero,
}

-- The pair loop adds what is left, where the accumulator has the room.
pair_loop_sum :
    (p : Octets) (len fuel i sum : ℕ)
    → IsBytes p
    → len ≤ i + fuel
    → i ≤ len
    → sum + 32768 * (len - i + 1) < 4294967296
    → pair_loop p len (suc fuel) i sum ≡ sum + pair_sum p i (len - i)
unfolding pair_loop
pair_loop_sum p len zero i sum b h g r =
    let none_left : len - i ≡ 0 = omega arith in ground (arith, ap (pair_sum p i) none_left)
pair_loop_sum p len (suc fuel) i sum b h g r = elim (dec_lt (i + 1) len) [
  | yes more ↦
      let pair = bit_or_fields 8 (octet p i) (octet p (i + 1)) (b (i + 1)) in
      let here = b i in
      let next = b (i + 1) in
      ground (
        arith,
        pair,
        here,
        next,
        pair_sum_next p i (i + 2) (len - i) (len - (i + 2)) (omega arith) refl,
        pair_loop_sum p len fuel (i + 2) (u32 (sum + bit_or (octet p i <<< 8) (octet p (i + 1)))) b
            (omega arith) (omega arith) (omega arith),
      )
  | no last ↦ elim (dec_lt i len) [
    | yes odd ↦ let one : len - i ≡ 1 = omega arith in ground (arith, b i, ap (pair_sum p i) one)
    | no even ↦
        let none_left : len - i ≡ 0 = omega arith in ground (arith, ap (pair_sum p i) none_left)
  ]
]

word_octets-two : (wd : Width) → 2 ≤ word_octets wd
word_octets-two bits16 = omega arith
word_octets-two bits32 = omega arith
word_octets-two bits64 = omega arith

word_mod-pos : (wd : Width) → 0 < word_mod wd
word_mod-pos bits16 = omega arith
word_mod-pos bits32 = omega arith
word_mod-pos bits64 = omega arith

-- Two octets add less than 65536, and an odd one less than that.
pair_sum-lt : (p : Octets) (n i : ℕ) → IsBytes p → pair_sum p i n < 32768 * (n + 1)
pair_sum-lt p zero i b = omega arith
pair_sum-lt p (suc zero) i b = omega (arith, b i)
pair_sum-lt p (suc (suc n)) i b = omega (arith, b i, b (i + 1), pair_sum-lt p n (i + 2) b)

-- The word path leaves a sum of the whole words and the place behind them.
word_path_sum :
    (little : Bool) (wd : Width) (sum : ℕ) (p : Octets) (len : ℕ)
    → IsBytes p
    → sum + 32768 * (len + 1) < 4294967296
    → let (s, i) = word_path little wd sum p len in
      SameSum (s + pair_sum p i (len - i)) (sum + pair_sum p 0 len)
      × (i ≤ len)
      × (s + 32768 * (len - i + 1) < 4294967296)
unfolding word_path
word_path_sum little wd sum p len b r = elim (Bool-cases (leb (word_octets wd) len)) [
  | inl whole ↦
      let fits : word_octets wd ≤ len = ground arith in
      let out = word_loop little wd p len len 0 0 in
      let done =
        word_loop-AddsWords little wd p len len 0 0 b (omega (arith, fits)) (omega arith)
          (word_mod-pos wd) in
      let folded = SameSum-network_order little wd out.0 done.bounded in
      let rest = pair_sum p out.1 (len - out.1) in
      let back = SameSum-trans _ _ _ (SameSum-add _ _ _ _ folded.0 (SameSum-refl rest)) done.same in
      let all = SameSum-add _ _ _ _ (SameSum-refl sum) back in
      let begin : len - 0 ≡ len = omega arith in
      rw whole (
        SameSum-cong _ _ _ _ all (omega (arith, folded.1, fits, word_octets-two wd))
            (omega (arith, host_sum_zero little, ap (pair_sum p 0) begin)),
        done.inside,
        omega (arith, folded.1, done.progress, done.inside, word_octets-two wd),
      )
  | inr short ↦
      let begin : len - 0 ≡ len = omega arith in
      rw short (
        SameSum-cong _ _ _ _ (SameSum-refl (sum + pair_sum p 0 len))
            (omega (arith, ap (pair_sum p 0) begin)) refl,
        omega arith,
        omega arith,
      )
]

-- The pairs that the head of the span leaves, and the folds.
accum_tail :
    (p : Octets) (len sum s i : ℕ)
    → IsBytes p
    → SameSum (s + pair_sum p i (len - i)) (sum + pair_sum p 0 len)
    → i ≤ len
    → s + 32768 * (len - i + 1) < 4294967296
    → fold_carries (pair_loop p len (len + 1) i s) ≡ folded_sum (sum + pair_sum p 0 len)
accum_tail p len sum s i b same h r =
    let rounds : pair_loop p len (len + 1) i s ≡ s + pair_sum p i (len - i) =
      ap (λ (f : ℕ). pair_loop p len f i s) (omega arith)
      ∙ pair_loop_sum p len len i s b (omega arith) h r in
    let bound : pair_sum p i (len - i) < 32768 * (len - i + 1) = pair_sum-lt p (len - i) i b in
    rw rounds (fold_carries-folded_sum _ (omega arith) ∙ SameSum-folded_sum _ _ same)

-- By pairs or by words of 16, 32 or 64 bits, on a little-endian or a big-endian host, where the
-- 32-bit accumulator has the room, accum gives the sixteen bits of the running sum plus the sum of
-- the span's big-endian 16-bit words, an odd last octet padded with a zero, for a span of octets.
pub accum-folded_sum :
    (route : Route) (wd : Width) (sum : ℕ) (p : Octets) (len : ℕ)
    → IsBytes p
    → sum + 32768 * (len + 1) < 4294967296
    → accum route wd sum p len ≡ folded_sum (sum + pair_sum p 0 len)
unfolding accum
accum-folded_sum by_pairs wd sum p len b r =
    let begin : len - 0 ≡ len = omega arith in
    accum_tail p len sum sum 0 b
      (SameSum-cong _ _ _ _ (SameSum-refl (sum + pair_sum p 0 len))
        (omega (arith, ap (pair_sum p 0) begin)) refl)
      (omega arith) (omega arith)
accum-folded_sum little_endian wd sum p len b r =
    let h = word_path_sum true wd sum p len b r in accum_tail p len sum _ _ b h.0 h.1 h.2
accum-folded_sum big_endian wd sum p len b r =
    let h = word_path_sum false wd sum p len b r in accum_tail p len sum _ _ b h.0 h.1 h.2
