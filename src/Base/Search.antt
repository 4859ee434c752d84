-- ===== src/Base/Search.antt =====
-- The first entry of an array that passes a test, as the loops that look for one find it.
use Prim.Native.Nat.{ℕ, zero, suc, ◌+◌, ◌<◌, ◌≤◌}
use mathlib.Core.Path.{◌≡◌, refl, ap, ◌∙◌}
use mathlib.Core.Logic.{◌⊎◌, inl, inr}
use mathlib.Core.Bool.{Bool, true, false}
use mathlib.Core.List.{List, [], ◌∷◌}
use idem_ip.Base.Tests.{if◌then◌else◌, Bool-cases}
use idem_ip.Base.Lists.{length, get_or}
use native.Mathlib.Omega.{arith}

module _ {ℓ} {A : Type ℓ} where
  -- The index of the first entry that passes a test, counted from `i`, or `missing`.
  abbrev pub find_index : (A → Bool) → ℕ → List A → ℕ → ℕ
  find_index p missing [] i = missing
  find_index p missing (x ∷ xs) i =
      let rest = find_index p missing xs (i + 1) in if p x then i else rest

  before_suc :
      (p : A → Bool) (d : A) (xs : List A) (x : A) (k : ℕ)
      → p x ≡ false
      → ((j : ℕ) → j < k → p (get_or xs j d) ≡ false)
      → (j : ℕ) → j < suc k
      → p (get_or (x ∷ xs) j d) ≡ false
  before_suc p d xs x k c h zero l = c
  before_suc p d xs x k c h (suc j) l = h j (omega arith)

  module _ (p : A → Bool) (missing : ℕ) (d : A) where
    find_index_from :
        (xs : List A) (i : ℕ)
        → ((k : ℕ) × (find_index p missing xs i ≡ i + k)
            × (k < length xs)
            × (p (get_or xs k d) ≡ true)
            × ((j : ℕ) → j < k → p (get_or xs j d) ≡ false))
          ⊎ ((find_index p missing xs i ≡ missing)
              × ((j : ℕ) → j < length xs → p (get_or xs j d) ≡ false))
    find_index_from [] i = inr (refl, λ j l. absurd (omega arith))
    find_index_from (x ∷ xs) i = elim (Bool-cases (p x)) [
      | inl c ↦
          inl (0, rw (find_index, c) (omega arith), omega arith, c, λ j l. absurd (omega arith))
      | inr c ↦ elim (find_index_from xs (i + 1)) [
        | inl q ↦ inl (
          suc (q.0),
          rw (find_index, c) (omega (arith, q.1)),
          omega (arith, q.2),
          q.3,
          λ j. before_suc p d xs x (q.0) c q.4 j,
        )
        | inr q ↦ inr (rw (find_index, c) q.0, λ j. before_suc p d xs x (length xs) c q.1 j)
      ]
    ]

    -- The search from the start, in an array shorter than the mark for none.
    pub find_index_lem :
        (xs : List A)
        → length xs ≤ missing
        → ((find_index p missing xs 0 < length xs)
            × (p (get_or xs (find_index p missing xs 0) d) ≡ true)
            × ((j : ℕ) → j < find_index p missing xs 0 → p (get_or xs j d) ≡ false))
          ⊎ ((find_index p missing xs 0 ≡ missing)
              × ((j : ℕ) → j < length xs → p (get_or xs j d) ≡ false))
    find_index_lem xs l = elim (find_index_from xs 0) [
      | inl q ↦
          let here : find_index p missing xs 0 ≡ q.0 = omega (arith, q.1) in
          inl (
            omega (arith, here, q.2),
            ap (λ (k : ℕ). p (get_or xs k d)) here ∙ q.3,
            λ j m. q.4 j (omega (arith, here)),
          )
      | inr q ↦ inr q
    ]

    pub find_index_at :
        (xs : List A) (k : ℕ)
        → length xs ≤ missing
        → k < length xs
        → p (get_or xs k d) ≡ true
        → ((j : ℕ) → j < k → p (get_or xs j d) ≡ false)
        → find_index p missing xs 0 ≡ k
    find_index_at xs k l m h before = elim (find_index_lem xs l) [
      | inr q ↦ absurd (ground (arith, q.1 k m))
      | inl q ↦
          let r = find_index p missing xs 0 in
          let up : ¬ (r < k) = λ t. absurd (ground (arith, before r t, q.1)) in
          let down : ¬ (k < r) = λ t. absurd (ground (arith, q.2 k t)) in omega arith
    ]

    -- Two arrays whose entries answer the test alike are searched alike.
    pub find_index_cong :
        (xs ys : List A) (i : ℕ)
        → length xs ≡ length ys
        → ((j : ℕ) → p (get_or xs j d) ≡ p (get_or ys j d))
        → find_index p missing xs i ≡ find_index p missing ys i
    find_index_cong [] [] i l h = refl
    find_index_cong [] (y ∷ ys) i l h = absurd (omega arith)
    find_index_cong (x ∷ xs) [] i l h = absurd (omega arith)
    find_index_cong (x ∷ xs) (y ∷ ys) i l h =
        ground (arith, h 0, find_index_cong xs ys (i + 1) (omega arith) (λ j. h (suc j)))
