-- ===== src/Ip4Route/Passes.antt =====
-- The passes of `ip4_route_best` over the rows, each with what it is for. A row is named by its
-- index; an index past the table names a row that is not used.
use idem_ip.Base.{ℕ, zero, suc, ◌+◌, ◌≤◌, ◌<◌, Bool, true, List, [], ◌∷◌}
use idem_ip.Base.{◌≡◌, refl, ◌⊎◌, inl, inr, Bool-cases, length, arith}
use idem_ip.Base.{ap, ◌∙◌}
use idem_ip.Ip4Route.{Entry, at, basic_match, survives, is_left, Longest, keep_longest, longest}
use idem_ip.Ip4Route.{has_tos, Picked, keep_better, pick}
use idem_ip.Ip4Route.{index_none}

module _ (dst : ℕ) where
  keep_longest_lem :
      (e : Entry) (b : Longest)
      → (b.matched ≡ true
          → ((keep_longest e dst b).matched ≡ true)
            × (b.best_len ≤ (keep_longest e dst b).best_len))
        × (basic_match e dst ≡ true
            → ((keep_longest e dst b).matched ≡ true) × (e.plen ≤ (keep_longest e dst b).best_len))
  unfolding keep_longest
  keep_longest_lem e b = (λ h. ground arith, λ h. ground arith)

  keep_longest_from :
      (e : Entry) (b : Longest)
      → (keep_longest e dst b ≡ b)
        ⊎ ((basic_match e dst ≡ true) × ((keep_longest e dst b).best_len ≡ e.plen))
  unfolding keep_longest
  keep_longest_from e b = ground arith

  longest_keeps :
      (es : List Entry) (b : Longest)
      → b.matched ≡ true
      → ((longest es dst b).matched ≡ true) × (b.best_len ≤ (longest es dst b).best_len)
  unfolding longest
  longest_keeps [] b h = (h, omega arith)
  longest_keeps (e ∷ es) b h =
      let step = (keep_longest_lem e b).0 h in
      let rest = longest_keeps es (keep_longest e dst b) step.0 in
      (rest.0, omega (arith, step.1, rest.1))

  pub longest_upper :
      (es : List Entry) (b : Longest) (j : ℕ)
      → basic_match (at es j) dst ≡ true
      → ((longest es dst b).matched ≡ true) × ((at es j).plen ≤ (longest es dst b).best_len)
  unfolding longest basic_match
  longest_upper [] b j h = absurd (ground arith)
  longest_upper (e ∷ es) b zero h =
      let step = (keep_longest_lem e b).1 h in
      let rest = longest_keeps es (keep_longest e dst b) step.0 in
      (rest.0, omega (arith, step.1, rest.1))
  longest_upper (e ∷ es) b (suc j) h = longest_upper es _ j h

  -- The length is that of a row that matched.
  pub longest_attained :
      (es : List Entry) (b : Longest)
      → (longest es dst b ≡ b)
        ⊎ ((j : ℕ) × (survives (at es j) dst (longest es dst b).best_len ≡ true))
  unfolding longest survives
  longest_attained [] b = inl refl
  longest_attained (e ∷ es) b = elim (longest_attained es (keep_longest e dst b)) [
    | inr p ↦ inr (suc (p.0), p.1)
    | inl same ↦ elim (keep_longest_from e b) [
      | inl p ↦ inl (same ∙ p)
      | inr p ↦ inr (0, ground (arith, ap (λ (l : Longest). l.best_len) same))
    ]
  ]

  module _ (len : ℕ) where
    has_tos_keeps : (es : List Entry) (tos : ℕ) → has_tos es dst len tos true ≡ true
    unfolding has_tos
    has_tos_keeps [] tos = refl
    has_tos_keeps (e ∷ es) tos = elim (Bool-cases (is_left e dst len tos)) [
      | inl c ↦ rw (has_tos, c) (has_tos_keeps es tos)
      | inr c ↦ rw (has_tos, c) (has_tos_keeps es tos)
    ]

    pub has_tos-any :
        (es : List Entry) (tos : ℕ) (x : Bool) (j : ℕ)
        → is_left (at es j) dst len tos ≡ true
        → has_tos es dst len tos x ≡ true
    unfolding has_tos is_left survives basic_match
    has_tos-any [] tos x j h = absurd (ground arith)
    has_tos-any (e ∷ es) tos x zero h = rw (has_tos, h) (has_tos_keeps es tos)
    has_tos-any (e ∷ es) tos x (suc j) h = has_tos-any es tos _ j h

    pub has_tos_from :
        (es : List Entry) (tos : ℕ) (x : Bool)
        → has_tos es dst len tos x ≡ true
        → (x ≡ true) ⊎ ((j : ℕ) × (is_left (at es j) dst len tos ≡ true))
    unfolding has_tos
    has_tos_from [] tos x h = inl h
    has_tos_from (e ∷ es) tos x h = elim (has_tos_from es tos _ h) [
      | inr p ↦ inr (suc (p.0), p.1)
      | inl same ↦ elim (Bool-cases (is_left e dst len tos)) [
        | inl c ↦ inr (0, c)
        | inr c ↦ inl (ground arith)
      ]
    ]

    module _ (want : ℕ) where
      -- A row that is picked, against one that is left.
      abbrev pub Beats : Picked → ℕ → ℕ → Type 0
      Beats p i metric =
          (p.best < index_none) × (p.best_metric ≤ metric) × (p.best_metric ≡ metric → p.best ≤ i)

      keep_better_lem :
          (e : Entry) (i : ℕ) (p : Picked)
          → i < index_none
          → (p.best < i) ⊎ (p.best ≡ index_none)
          → (is_left e dst len want ≡ true → Beats (keep_better e i dst len want p) i e.metric)
            × ((n m : ℕ) → Beats p n m → Beats (keep_better e i dst len want p) n m)
            × (((keep_better e i dst len want p).best < i + 1)
                ⊎ ((keep_better e i dst len want p).best ≡ index_none))
      unfolding keep_better
      keep_better_lem e i p l h = (λ c. ground arith, λ n m b. ground arith, ground arith)

      keep_better_from :
          (e : Entry) (i : ℕ) (p : Picked)
          → (keep_better e i dst len want p ≡ p)
            ⊎ ((is_left e dst len want ≡ true)
                × ((keep_better e i dst len want p).best ≡ i)
                × ((keep_better e i dst len want p).best_metric ≡ e.metric))
      unfolding keep_better
      keep_better_from e i p = ground arith

      pick_keeps :
          (es : List Entry) (i : ℕ) (p : Picked) (n m : ℕ)
          → i + length es ≤ index_none
          → (p.best < i) ⊎ (p.best ≡ index_none)
          → Beats p n m
          → Beats (pick es i dst len want p) n m
      unfolding pick
      pick_keeps [] i p n m l h b = b
      pick_keeps (e ∷ es) i p n m l h b =
          let step = keep_better_lem e i p (omega arith) h in
          pick_keeps es (i + 1) (keep_better e i dst len want p) n m (omega arith) step.2
            (step.1 n m b)

      pub pick-Beats :
          (es : List Entry) (i : ℕ) (p : Picked) (j : ℕ)
          → i + length es ≤ index_none
          → (p.best < i) ⊎ (p.best ≡ index_none)
          → is_left (at es j) dst len want ≡ true
          → Beats (pick es i dst len want p) (i + j) (at es j).metric
      unfolding pick is_left survives basic_match
      pick-Beats [] i p j l h c = absurd (ground arith)
      pick-Beats (e ∷ es) i p zero l h c =
          let step = keep_better_lem e i p (omega arith) h in
          let here : i ≡ i + 0 = omega arith in
          rw (← here) (
            pick_keeps es (i + 1) (keep_better e i dst len want p) i e.metric (omega arith) step.2
              (step.0 c))
      pick-Beats (e ∷ es) i p (suc j) l h c =
          let step = keep_better_lem e i p (omega arith) h in
          let move : i + 1 + j ≡ i + suc j = omega arith in
          rw (← move)
            (pick-Beats es (i + 1) (keep_better e i dst len want p) j (omega arith) step.2 c)

      pub pick_from :
          (es : List Entry) (i : ℕ) (p : Picked)
          → (pick es i dst len want p ≡ p)
            ⊎ ((j : ℕ) × ((pick es i dst len want p).best ≡ i + j)
                × ((pick es i dst len want p).best_metric ≡ (at es j).metric)
                × (is_left (at es j) dst len want ≡ true))
      unfolding pick
      pick_from [] i p = inl refl
      pick_from (e ∷ es) i p = elim (pick_from es (i + 1) (keep_better e i dst len want p)) [
        | inr q ↦ inr (suc (q.0), omega (arith, q.1), q.2, q.3)
        | inl same ↦ elim (keep_better_from e i p) [
          | inl q ↦ inl (same ∙ q)
          | inr q ↦ inr (
            0,
            omega (arith, q.1, ap (λ (r : Picked). r.best) same),
            ap (λ (r : Picked). r.best_metric) same ∙ q.2,
            q.0,
          )
        ]
      ]

pub is_left_iff :
    (e : Entry) (dst len want : ℕ)
    → (is_left e dst len want ≡ true → (basic_match e dst ≡ true) × (e.plen ≡ len) × (e.tos ≡ want))
      × (basic_match e dst ≡ true → e.plen ≡ len → e.tos ≡ want → is_left e dst len want ≡ true)
unfolding is_left survives
is_left_iff e dst len want = (λ h. ground arith, λ m p t. ground arith)

pub survives_iff :
    (e : Entry) (dst len : ℕ)
    → survives e dst len ≡ true
    → (basic_match e dst ≡ true) × (e.plen ≡ len)
unfolding survives
survives_iff e dst len h = ground arith

pub basic_match-length :
    (tab : List Entry) (dst i : ℕ) → basic_match (at tab i) dst ≡ true → i < length tab
unfolding basic_match
basic_match-length [] dst i h = absurd (ground arith)
basic_match-length (e ∷ es) dst zero h = omega arith
basic_match-length (e ∷ es) dst (suc i) h = omega (arith, basic_match-length es dst i h)

pub basic_match-used : (e : Entry) (dst : ℕ) → basic_match e dst ≡ true → e.used ≡ true
unfolding basic_match
basic_match-used e dst h = ground arith
