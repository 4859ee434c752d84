-- ===== src/Checksum/Verify.antt =====
-- A receiver's check of what a sender wrote, and the sum over a span taken in two pieces.
use idem_ip.Base.{ℕ, zero, suc, ◌+◌, ◌-◌, ◌*◌, ◌≤◌, ◌<◌, ◌≡◌, arith, refl, ap, ◌∙◌}
use idem_ip.Base.{true, length, ==_iff, inl, inr, get_or-set}
use idem_ip.Base.Bits.{bit_and_mask}
use idem_ip.Endian.{Octets, octet, rd16, wr16}
use idem_ip.Endian.RoundTrip.{IsBytes, octet-wr16, octet-wr16_ne, rd16_sum}
use idem_ip.Host.{Width}
use idem_ip.Checksum.{Route, final, over, valid, fold_carries}
use idem_ip.Checksum.Reference.{pair_sum, folded_sum, fold_carries-folded_sum}
use idem_ip.Checksum.Correct.{accum-folded_sum}

pub folded_sum-lt : (n : ℕ) → folded_sum n < 65536
folded_sum-lt n = ground arith

pub final_lem : (s : ℕ) → s < 65536 → final s ≡ 65535 - folded_sum s
unfolding final
final_lem s h = omega (
  arith,
  fold_carries-folded_sum s (omega arith),
  folded_sum-lt s,
  bit_and_mask 16 (4294967295 - fold_carries s),
)

pub folded_sum_self : (n : ℕ) → folded_sum (folded_sum n) ≡ folded_sum n
folded_sum_self n = ground arith

-- The checksum of a span of fewer than 131071 octets is, on every route, the complement of the
-- folded sum of its 16-bit words.
pub over_lem :
    (route : Route) (wd : Width) (p : Octets) (len : ℕ)
    → IsBytes p
    → len < 131071
    → over route wd p len ≡ 65535 - folded_sum (pair_sum p 0 len)
unfolding over
over_lem route wd p len b h =
    let sum = accum-folded_sum route wd 0 p len b (omega arith) in
    let add : folded_sum (0 + pair_sum p 0 len) ≡ folded_sum (pair_sum p 0 len) =
      ap folded_sum (omega arith) in
    ap final (sum ∙ add)
    ∙ final_lem (folded_sum (pair_sum p 0 len)) (folded_sum-lt (pair_sum p 0 len))
    ∙ ap (λ (t : ℕ). 65535 - t) (folded_sum_self (pair_sum p 0 len))

-- An even place: `k` octets on, in whole pairs.
abbrev pub twice : ℕ → ℕ
twice zero = 0
twice (suc k) = suc (suc (twice k))

-- A write behind the pairs summed changes nothing of them, and one in them changes one term.
pair_sum-wr16_behind :
    (p : Octets) (i n k v : ℕ) → k + 2 ≤ i → pair_sum (wr16 p k v) i n ≡ pair_sum p i n
pair_sum-wr16_behind p i zero k v h = refl
pair_sum-wr16_behind p i (suc zero) k v h = ap (λ (t : ℕ). t * 256) (octet-wr16_ne p k v i (inr h))
pair_sum-wr16_behind p i (suc (suc n)) k v h = omega (
  arith,
  octet-wr16_ne p k v i (inr h),
  octet-wr16_ne p k v (i + 1) (inr (omega arith)),
  pair_sum-wr16_behind p (i + 2) n k v (omega arith),
)

pub pair_sum-wr16 :
    (p : Octets) (j i n k v : ℕ)
    → k ≡ i + twice j
    → twice j + 2 ≤ n
    → k + 1 < length p
    → v < 65536
    → pair_sum (wr16 p k v) i n + octet p k * 256 + octet p (k + 1) ≡ pair_sum p i n + v
pair_sum-wr16 p j i zero k v e h l b = absurd (omega arith)
pair_sum-wr16 p j i (suc zero) k v e h l b = absurd (omega arith)
pair_sum-wr16 p zero i (suc (suc n)) k v e h l b =
    let here : k ≡ i = omega arith in
    let next : k + 1 ≡ i + 1 = omega arith in
    omega (
      arith,
      octet-wr16 p k v l,
      ap (octet p) here,
      ap (octet p) next,
      ap (octet (wr16 p k v)) here,
      ap (octet (wr16 p k v)) next,
      pair_sum-wr16_behind p (i + 2) n k v (omega arith),
    )
pair_sum-wr16 p (suc j) i (suc (suc n)) k v e h l b = omega (
  arith,
  octet-wr16_ne p k v i (inl (omega arith)),
  octet-wr16_ne p k v (i + 1) (inl (omega arith)),
  pair_sum-wr16 p j (i + 2) n k v (omega arith) (omega arith) l b,
)

pub wr16-IsBytes : (p : Octets) (k v : ℕ) → IsBytes p → IsBytes (wr16 p k v)
unfolding wr16
wr16-IsBytes p k v b i = simp get_or-set (ground (arith, b i))

-- A sum with its own complement folds to all ones.
pub complement : (n v : ℕ) → v ≡ 65535 - folded_sum n → 65535 - folded_sum (n + v) ≡ 0
complement n v e = ground arith

-- Over a span of fewer than 131071 octets, a sender that leaves a 16-bit field at an even place in
-- it zero, computes the checksum of the span and writes it there gives a span that a receiver
-- finds valid, whichever routes the two are built for.
pub valid-wr16-over :
    (sender receiver : Route) (ws wr : Width) (p : Octets) (len j : ℕ)
    → IsBytes p
    → len < 131071
    → len ≤ length p
    → twice j + 2 ≤ len
    → rd16 p (twice j) ≡ 0
    → valid receiver wr (wr16 p (twice j) (over sender ws p len)) len ≡ true
unfolding valid
valid-wr16-over sender receiver ws wr p len j b h l f z =
    let v = over sender ws p len in
    let k = twice j in
    let sent = over_lem sender ws p len b h in
    let zero_field = rd16_sum p k (b k) (b (k + 1)) in
    let received : pair_sum (wr16 p k v) 0 len ≡ pair_sum p 0 len + v =
      omega (arith, pair_sum-wr16 p j 0 len k v (omega arith) f (omega arith) (omega arith)) in
    (==_iff (over receiver wr (wr16 p k v) len) 0).1 (
      over_lem receiver wr (wr16 p k v) len (wr16-IsBytes p k v b) h
      ∙ ap (λ (t : ℕ). 65535 - folded_sum t) received
      ∙ complement (pair_sum p 0 len) v sent)
