-- ===== src/Endian/Frame.antt =====
-- Which octets a write leaves alone, and what a copy leaves.
use idem_ip.Base.{
  drop, [], ◌∷◌, ℕ, zero, suc, ◌+◌, ◌≤◌, ◌<◌, ◌≡◌, ◌⊎◌, arith, refl, ap, ap₂, ◌∙◌, sym,
}
use idem_ip.Base.{length, set, length-set, get_or-set, bit_or, u16, u32, ◌<<<◌}
use native.Mathlib.Decide.{ℕ_discrete}
use idem_ip.Endian.{Octets, octet, rd16, rd32, wr16, wr32, copy, clear}
use idem_ip.Endian.RoundTrip.{octet-wr16_ne, octet-wr32_ne}

-- The two spans hold the same octets from octet `i` up to octet `e`.
abbrev pub SameOctets : Octets → Octets → ℕ → ℕ → Type 0
SameOctets p q i e = (j : ℕ) → i ≤ j → j < e → octet p j ≡ octet q j

pub rd16_cong : (p q : Octets) (i : ℕ) → SameOctets p q i (i + 2) → rd16 p i ≡ rd16 q i
unfolding rd16
rd16_cong p q i h =
    ap₂ (λ (a : ℕ) (b : ℕ). u16 (bit_or (a <<< 8) b)) (h i (omega arith) (omega arith))
      (h (i + 1) (omega arith) (omega arith))

pub rd32_cong : (p q : Octets) (i : ℕ) → SameOctets p q i (i + 4) → rd32 p i ≡ rd32 q i
unfolding rd32
rd32_cong p q i h =
    ap₂ bit_or
      (ap₂ bit_or
        (ap₂ (λ (a : ℕ) (b : ℕ). bit_or (u32 (a <<< 24)) (b <<< 16))
          (h i (omega arith) (omega arith)) (h (i + 1) (omega arith) (omega arith)))
        (ap (λ (t : ℕ). t <<< 8) (h (i + 2) (omega arith) (omega arith))))
      (h (i + 3) (omega arith) (omega arith))

-- The octets from `i` up to `e`, where a write of `n` octets at `k` does not reach.
abbrev pub Apart : ℕ → ℕ → ℕ → ℕ → Type 0
Apart k n i e = (e ≤ k) ⊎ (k + n ≤ i)

pub set-SameOctets : (p : Octets) (k v i e : ℕ) → Apart k 1 i e → SameOctets (set p k v) p i e
set-SameOctets p k v i e a j l g = get_or-set p k j v 0 ∙ ground arith

pub wr16-SameOctets : (p : Octets) (k v i e : ℕ) → Apart k 2 i e → SameOctets (wr16 p k v) p i e
wr16-SameOctets p k v i e a j l g = octet-wr16_ne p k v j (omega arith)

pub wr32-SameOctets : (p : Octets) (k v i e : ℕ) → Apart k 4 i e → SameOctets (wr32 p k v) p i e
wr32-SameOctets p k v i e a j l g = octet-wr32_ne p k v j (omega arith)

pub copy-SameOctets :
    (n : ℕ) (p : Octets) (k : ℕ) (src : Octets) (m i e : ℕ)
    → Apart k n i e
    → SameOctets (copy n p k src m) p i e
unfolding copy
copy-SameOctets zero p k src m i e a j l g = refl
copy-SameOctets (suc n) p k src m i e a j l g =
    copy-SameOctets n (set p k (octet src m)) (k + 1) src (m + 1) i e (omega arith) j l g
    ∙ set-SameOctets p k (octet src m) i e (omega arith) j l g

pub clear-SameOctets :
    (n : ℕ) (p : Octets) (k i e : ℕ) → Apart k n i e → SameOctets (clear n p k) p i e
unfolding clear
clear-SameOctets zero p k i e a j l g = refl
clear-SameOctets (suc n) p k i e a j l g =
    clear-SameOctets n (set p k 0) (k + 1) i e (omega arith) j l g
    ∙ set-SameOctets p k 0 i e (omega arith) j l g

pub length-copy :
    (n : ℕ) (p : Octets) (k : ℕ) (src : Octets) (m : ℕ) → length (copy n p k src m) ≡ length p
unfolding copy
length-copy zero p k src m = refl
length-copy (suc n) p k src m =
    length-copy n (set p k (octet src m)) (k + 1) src (m + 1) ∙ length-set p k (octet src m)

pub length-clear : (n : ℕ) (p : Octets) (k : ℕ) → length (clear n p k) ≡ length p
unfolding clear
length-clear zero p k = refl
length-clear (suc n) p k = length-clear n (set p k 0) (k + 1) ∙ length-set p k 0

-- The octets copied, and the octets cleared.
pub octet-copy :
    (n : ℕ) (p : Octets) (k : ℕ) (src : Octets) (m j : ℕ)
    → j < n
    → k + n ≤ length p
    → octet (copy n p k src m) (k + j) ≡ octet src (m + j)
unfolding copy
octet-copy zero p k src m j h l = elim h [ ]
octet-copy (suc n) p k src m zero h l =
    let here : k + 0 ≡ k = omega arith in
    let from : m ≡ m + 0 = omega arith in
    copy-SameOctets n (set p k (octet src m)) (k + 1) src (m + 1) (k + 0) (k + 1) (omega arith)
      (k + 0) (omega arith) (omega arith)
    ∙ get_or-set p k (k + 0) (octet src m) 0
    ∙ ground (arith, ap (octet src) from)
octet-copy (suc n) p k src m (suc j) h l =
    let there : k + suc j ≡ k + 1 + j = omega arith in
    let from : m + 1 + j ≡ m + suc j = omega arith in
    ap (octet (copy n (set p k (octet src m)) (k + 1) src (m + 1))) there
    ∙ octet-copy n (set p k (octet src m)) (k + 1) src (m + 1) j (omega arith)
        (omega (arith, length-set p k (octet src m)))
    ∙ ap (octet src) from

pub octet-clear : (n : ℕ) (p : Octets) (k j : ℕ) → k ≤ j → j < k + n → octet (clear n p k) j ≡ 0
unfolding clear
octet-clear zero p k j h g = absurd (omega arith)
octet-clear (suc n) p k j h g = elim (ℕ_discrete j k) [
  | yes here ↦
      clear-SameOctets n (set p k 0) (k + 1) j (k + 1) (omega arith) j (omega arith) (omega arith)
      ∙ get_or-set p k j 0 0
      ∙ ground arith
  | no there ↦ octet-clear n (set p k 0) (k + 1) j (omega arith) (omega arith)
]

-- The octets behind a pointer moved on.
pub octet-drop : (n : ℕ) (p : Octets) (j : ℕ) → octet (drop n p) j ≡ octet p (n + j)
octet-drop zero p j = ap (octet p) (omega arith)
octet-drop (suc n) [] j = refl
octet-drop (suc n) (x ∷ p) j =
    let there : suc n + j ≡ suc (n + j) = omega arith in
    octet-drop n p j ∙ sym (ap (octet (x ∷ p)) there)

pub rd16-drop : (n : ℕ) (p : Octets) (i : ℕ) → rd16 (drop n p) i ≡ rd16 p (n + i)
unfolding rd16
rd16-drop n p i =
    let second : octet (drop n p) (i + 1) ≡ octet p (n + i + 1) =
      octet-drop n p (i + 1) ∙ ap (octet p) (omega arith) in
    ap₂ (λ (a : ℕ) (b : ℕ). u16 (bit_or (a <<< 8) b)) (octet-drop n p i) second

pub rd32-drop : (n : ℕ) (p : Octets) (i : ℕ) → rd32 (drop n p) i ≡ rd32 p (n + i)
unfolding rd32
rd32-drop n p i =
    let at : (j : ℕ) → octet (drop n p) (i + j) ≡ octet p (n + i + j) =
      λ j. octet-drop n p (i + j) ∙ ap (octet p) (omega arith) in
    ap₂ bit_or
      (ap₂ bit_or
        (ap₂ (λ (a : ℕ) (b : ℕ). bit_or (u32 (a <<< 24)) (b <<< 16)) (octet-drop n p i) (at 1))
        (ap (λ (t : ℕ). t <<< 8) (at 2)))
      (at 3)
