-- ===== src/Ip4Route/Choice.antt =====
-- The choice that `ip4_route_best` makes, against the pruning rules of RFC 1812 sec 5.2.4.3.
use idem_ip.Base.{ℕ, ◌≤◌, ◌<◌, Bool, true, false, List, ◌≡◌, refl, ◌≢◌}
use idem_ip.Base.{◌⊎◌, inl, inr, Bool-cases, length, arith, sym, ap, ap₂, ◌∙◌}
use idem_ip.Ip4Route.{Entry, at, basic_match, survives, is_left, Longest, longest_of}
use idem_ip.Ip4Route.{has_tos, Picked, pick, wanted, picked, best, Best, index_none, tos_default}
use idem_ip.Ip4Route.Passes.{longest_upper, longest_attained, has_tos-any, has_tos_from}
use idem_ip.Ip4Route.Passes.{pick-Beats, pick_from, is_left_iff, survives_iff, basic_match-length}

-- The row that the rules leave: it matches, no row that matches is longer, its type of service is
-- the one asked for where a row as long has that and the default where none has, and of the rows that
-- are left it has the least metric, at the lowest index.
unfoldable pub Chosen : List Entry → ℕ → ℕ → ℕ → Type 0
Chosen tab dst tos i =
    (i < length tab)
    × (basic_match (at tab i) dst ≡ true)
    × ((j : ℕ) → basic_match (at tab j) dst ≡ true → (at tab j).plen ≤ (at tab i).plen)
    × (((at tab i).tos ≡ tos) ⊎ ((at tab i).tos ≡ tos_default))
    × ((j : ℕ) → is_left (at tab j) dst (at tab i).plen tos ≡ true → (at tab i).tos ≡ tos)
    × ((j : ℕ)
        → is_left (at tab j) dst (at tab i).plen (at tab i).tos ≡ true
        → ((at tab i).metric ≤ (at tab j).metric) × ((at tab i).metric ≡ (at tab j).metric → i ≤ j))

-- No row matches, or the longest that do are all of other types of service.
unfoldable pub NoneLeft : List Entry → ℕ → ℕ → Bool → Type 0
NoneLeft tab dst tos matched =
    ((matched ≡ false) × ((j : ℕ) → basic_match (at tab j) dst ≡ false))
    ⊎ ((matched ≡ true)
        × ((i : ℕ) × (basic_match (at tab i) dst ≡ true)
            × ((j : ℕ) → basic_match (at tab j) dst ≡ true → (at tab j).plen ≤ (at tab i).plen)
            × ((j : ℕ)
                → survives (at tab j) dst (at tab i).plen ≡ true
                → ((at tab j).tos ≢ tos) × ((at tab j).tos ≢ tos_default))))

unfoldable pub Outcome : List Entry → ℕ → ℕ → Best → Type 0
Outcome tab dst tos b =
    ((b.index < index_none) × Chosen tab dst tos b.index × (b.matched ≡ true))
    ⊎ ((b.index ≡ index_none) × NoneLeft tab dst tos b.matched)

module _ (tab : List Entry) (dst tos : ℕ) (room : length tab ≤ index_none) where
  wanted_lem :
      (len : ℕ)
      → ((wanted tab dst len tos ≡ tos) ⊎ (wanted tab dst len tos ≡ tos_default))
        × ((j : ℕ) → is_left (at tab j) dst len tos ≡ true → wanted tab dst len tos ≡ tos)
  unfolding wanted
  wanted_lem len = (ground arith, λ j h. rw (has_tos-any dst len tab tos false j h) refl)

  unwanted :
      (len : ℕ)
      → ((j : ℕ) × (is_left (at tab j) dst len (wanted tab dst len tos) ≡ true))
        ⊎ ((wanted tab dst len tos ≡ tos_default)
            × ((j : ℕ) → is_left (at tab j) dst len tos ≡ false))
  unfolding wanted
  unwanted len = elim (Bool-cases (has_tos tab dst len tos false)) [
    | inl c ↦ elim (has_tos_from dst len tab tos false c) [
      | inl e ↦ absurd (ground arith)
      | inr p ↦ inl (rw (wanted, c) p)
    ]
    | inr c ↦ inr (
      rw (c) refl,
      λ j. elim (Bool-cases (is_left (at tab j) dst len tos)) [
        | inl h ↦ absurd (ground (arith, has_tos-any dst len tab tos false j h))
        | inr h ↦ h
      ],
    )
  ]

  -- The row that is picked is left, and it beats the others that are.
  picked_lem :
      (len want j : ℕ)
      → is_left (at tab j) dst len want ≡ true
      → (picked tab dst len want < index_none)
        × (is_left (at tab (picked tab dst len want)) dst len want ≡ true)
        × ((at tab (picked tab dst len want)).metric ≤ (at tab j).metric)
        × ((at tab (picked tab dst len want)).metric ≡ (at tab j).metric
            → picked tab dst len want ≤ j)
  unfolding picked
  picked_lem len want j h =
      let none_yet : Picked = record { best = index_none; best_metric = 0 } in
      let beats = pick-Beats dst len want tab 0 none_yet j (omega (arith, room)) (inr refl) h in
      elim (pick_from dst len want tab 0 none_yet) [
        | inl same ↦ absurd (omega (arith, beats.0, ap (λ (p : Picked). p.best) same))
        | inr q ↦
            let here : (pick tab 0 dst len want none_yet).best ≡ q.0 = omega (arith, q.1) in
            (
              beats.0,
              ap (λ (i : ℕ). is_left (at tab i) dst len want) here ∙ q.3,
              omega (arith, beats.1, q.2, ap (λ (i : ℕ). (at tab i).metric) here),
              λ e. omega (arith, beats.2 (q.2 ∙ sym (ap (λ (i : ℕ). (at tab i).metric) here) ∙ e)),
            )
      ]

  picked_cases :
      (len want : ℕ)
      → ((j : ℕ) × (is_left (at tab j) dst len want ≡ true))
        ⊎ ((picked tab dst len want ≡ index_none)
            × ((j : ℕ) → is_left (at tab j) dst len want ≡ false))
  unfolding picked
  picked_cases len want =
      elim (pick_from dst len want tab 0 (record { best = index_none; best_metric = 0 })) [
        | inr q ↦ inl (q.0, q.3)
        | inl same ↦
            let missing : picked tab dst len want ≡ index_none = ap (λ (p : Picked). p.best) same in
            inr (
              missing,
              λ j. elim (Bool-cases (is_left (at tab j) dst len want)) [
                | inl c ↦ absurd (omega (arith, (picked_lem len want j c).0, missing))
                | inr c ↦ c
              ],
            )
      ]

  -- A row of the longest length.
  top_row :
      (longest_of tab dst).matched ≡ true
      → (i : ℕ) × (survives (at tab i) dst (longest_of tab dst).best_len ≡ true)
  unfolding longest_of
  top_row h = elim (longest_attained dst tab (record { matched = false; best_len = 0 })) [
    | inl same ↦ absurd (ground (arith, ap (λ (l : Longest). l.matched) same))
    | inr p ↦ p
  ]

  upper :
      (j : ℕ)
      → basic_match (at tab j) dst ≡ true
      → ((longest_of tab dst).matched ≡ true) × ((at tab j).plen ≤ (longest_of tab dst).best_len)
  unfolding longest_of
  upper j h = longest_upper dst tab _ j h

  module _ (len : ℕ)
      (bound : (j : ℕ) → basic_match (at tab j) dst ≡ true → (at tab j).plen ≤ len) where
    left-Chosen :
        (want j : ℕ)
        → wanted tab dst len tos ≡ want
        → is_left (at tab j) dst len want ≡ true
        → (picked tab dst len want < index_none) × Chosen tab dst tos (picked tab dst len want)
    unfolding Chosen
    left-Chosen want j w h =
        let i = picked tab dst len want in
        let lem = picked_lem len want j h in
        let row = (is_left_iff (at tab i) dst len want).0 lem.1 in
        let all = wanted_lem len in
        (
          lem.0,
          (
            basic_match-length tab dst i row.0,
            row.0,
            λ k t. omega (arith, bound k t, row.1),
            ground (arith, all.0),
            λ k t.
                row.2
                ∙ sym w
                ∙ all.1 k (ap (λ (l : ℕ). is_left (at tab k) dst l tos) (sym row.1) ∙ t),
            λ k t.
                let left =
                  ap₂ (λ (l n : ℕ). is_left (at tab k) dst l n) (sym row.1) (sym row.2) ∙ t in
                ((picked_lem len want k left).2, (picked_lem len want k left).3),
          ),
        )

    none-NoneLeft :
        (i : ℕ)
        → survives (at tab i) dst len ≡ true
        → ((j : ℕ) → is_left (at tab j) dst len (wanted tab dst len tos) ≡ false)
        → NoneLeft tab dst tos true
    unfolding NoneLeft
    none-NoneLeft i h e =
        let top = survives_iff (at tab i) dst len h in
        inr (
          refl,
          (
            i,
            top.0,
            λ j t. omega (arith, bound j t, top.1),
            λ j t.
                let row = survives_iff (at tab j) dst (at tab i).plen t in
                let not_wanted : (at tab j).tos ≢ wanted tab dst len tos = λ eq. absurd (
                  ground (
                    arith,
                    e j,
                    (is_left_iff (at tab j) dst len (wanted tab dst len tos)).1 row.0
                        (row.1 ∙ top.1) eq,
                  )) in
                elim (unwanted len) [
                  | inl p ↦ absurd (ground (arith, e (p.0), p.1))
                  | inr p ↦ (
                    λ eq. absurd (
                        ground (
                          arith,
                          p.1 j,
                          (is_left_iff (at tab j) dst len tos).1 row.0 (row.1 ∙ top.1) eq,
                        )),
                    λ eq. not_wanted (eq ∙ sym p.0),
                  )
                ],
          ),
        )

  -- In a table of at most 255 rows, the choice that the three passes make is the row that RFC 1812
  -- sec 5.2.4.3 leaves: it matches the address, no row that matches is longer, its type of service
  -- is the one asked for where a row as long has that and otherwise the default, and of the rows
  -- that are left it has the least metric, at the lowest index; and no row is given exactly when
  -- none matches or the longest that do are all of other types of service, which is reported
  -- apart.
  pub best_lem : Outcome tab dst tos (best tab dst tos)
  unfolding best Outcome NoneLeft
  best_lem = elim (Bool-cases (longest_of tab dst).matched) [
    | inr c ↦
        rw (best, c)
          (inr (
            refl,
            inl (
              refl,
              λ j. elim (Bool-cases (basic_match (at tab j) dst)) [
                | inl h ↦ absurd (ground (arith, (upper j h).0))
                | inr h ↦ h
              ],
            ),
          ))
    | inl c ↦
        let len = (longest_of tab dst).best_len in
        let want = wanted tab dst len tos in
        let top = top_row c in
        elim (picked_cases len want) [
          | inl p ↦
              let row = left-Chosen len (λ j h. (upper j h).1) want p.0 refl p.1 in
              rw (best, c) (inl (row.0, row.1, refl))
          | inr p ↦
              rw (best, c) (inr (p.0, none-NoneLeft len (λ j h. (upper j h).1) top.0 top.1 p.1))
        ]
  ]
