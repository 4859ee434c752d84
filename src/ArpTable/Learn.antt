-- ===== src/ArpTable/Learn.antt =====
-- The merge and the add of RFC 826, in `arp_learn` of src/arp/arp_table.c: what they leave in the
-- rows.
use idem_ip.Base.{ℕ, ◌+◌, ◌≤◌, ◌<◌, Bool, true, false, List, [], ◌∷◌}
use idem_ip.Base.{◌≡◌, refl, ap, ◌∙◌, ◌≢◌, ◌⊎◌, inl, inr, Bool-cases, ==_iff, ◌==◌, length, set}
use idem_ip.Base.{get_or, take, find_index_lem, find_index_at, arith}
use idem_ip.Base.{length-set, get_or-set_self, get_or-set_ne}
use idem_ip.Endian.{Octets}
use idem_ip.ArpTable.{row_empty, row_stable, Row, Tables, row_at, put_row}
use idem_ip.ArpTable.{
  zero_row, index_none, is_empty, has_key, row_find, row_free, closed_row, Oldest,
}
use idem_ip.ArpTable.{keep_older, oldest, row_take, opened_row, row_open, learned_row, learn}
use idem_ip.ArpTable.{free_slot, oldest_slot, write_learned, is_group, Learned}
use idem_ip.Arp.Packet.{mac_len}

-- The same rows but for one.
unfoldable pub AllBut : Tables → Tables → ℕ → Type 0
AllBut t u i = (length u.rows ≡ length t.rows) × ((j : ℕ) → i ≢ j → row_at u j ≡ row_at t j)

AllBut-put : (t u : Tables) (i : ℕ) (e : Row) → AllBut t u i → AllBut t (put_row u i e) i
unfolding AllBut
AllBut-put t u i e h =
    (length-set u.rows i e ∙ h.0, λ j n. get_or-set_ne u.rows i j e zero_row n ∙ h.1 j n)

oldest_victim :
    (es : List Row) (i now : ℕ) (o : Oldest)
    → ((oldest es i now o).victim ≡ o.victim) ⊎ ((oldest es i now o).victim < i + length es)
unfolding oldest keep_older
oldest_victim [] i now o = inl refl
oldest_victim (e ∷ es) i now o = ground (arith, oldest_victim es (i + 1) now (keep_older e i now o))

pub AllBut-refl : (t : Tables) (i : ℕ) → AllBut t t i
unfolding AllBut
AllBut-refl t i = (refl, λ j n. refl)

pub AllBut-row_free : (t : Tables) (i : ℕ) → AllBut t (row_free t i) i
unfolding AllBut row_free
AllBut-row_free t i =
    (length-set t.rows i closed_row, λ j n. get_or-set_ne t.rows i j closed_row zero_row n)

free_slot_lem :
    (t : Tables)
    → length t.rows ≤ index_none
    → (free_slot t ≡ index_none) ⊎ (free_slot t < length t.rows)
unfolding free_slot
free_slot_lem t l =
    elim (find_index_lem (λ (e : Row). is_empty e.state) index_none zero_row t.rows l) [
      | inl q ↦ inr q.0
      | inr q ↦ inl q.0
    ]

oldest_slot_lem :
    (t : Tables) (now : ℕ) → (oldest_slot t now ≡ index_none) ⊎ (oldest_slot t now < length t.rows)
unfolding oldest_slot
oldest_slot_lem t now =
    ground (arith, oldest_victim t.rows 0 now (record { victim = index_none; age = 0 }))

AllBut-length : (t u : Tables) (i : ℕ) → (i < length t.rows) × AllBut t u i → i < length u.rows
unfolding AllBut
AllBut-length t u i h = omega (arith, h.0, h.1.0)

-- The row that is taken lies in the table, and no other changes.
pub row_take_lem :
    (t : Tables) (now : ℕ)
    → length t.rows ≤ index_none
    → ((row_take t now).slot ≡ index_none)
      ⊎ (((row_take t now).slot < length t.rows)
          × AllBut t (row_take t now).tabs (row_take t now).slot)
unfolding row_take
row_take_lem t now l = elim (Bool-cases (free_slot t == index_none)) [
  | inr c ↦ rw (row_take, c) (inr (ground (arith, free_slot_lem t l), AllBut-refl t (free_slot t)))
  | inl c ↦ elim (Bool-cases (oldest_slot t now == index_none)) [
    | inl d ↦ rw (row_take, c, d) (inl ((==_iff _ _).0 d))
    | inr d ↦
        rw (row_take, c, d)
          (inr (ground (arith, oldest_slot_lem t now), AllBut-row_free t (oldest_slot t now)))
  ]
]

-- What learning a triplet leaves, where it reports a row: that row is the first of the key and holds
-- the triplet, and the other rows are as they were.
pub record Written (t : Tables) (pro spa : ℕ) (sha : Octets) (netif now : ℕ) (l : Learned)
    : Type 0 where
  pub inside : l.slot < length t.rows
  pub others : AllBut t l.tabs l.slot
  pub keyed : has_key pro spa (row_at l.tabs l.slot) ≡ true
  pub stable : (row_at l.tabs l.slot).state ≡ row_stable
  pub address : (row_at l.tabs l.slot).sha ≡ take mac_len sha
  pub from : (row_at l.tabs l.slot).netif ≡ netif
  pub seen : (row_at l.tabs l.slot).used_ms ≡ now
  pub first : (j : ℕ) → j < l.slot → has_key pro spa (row_at t j) ≡ false

pub row_find_lem :
    (t : Tables) (pro spa : ℕ)
    → length t.rows ≤ index_none
    → ((row_find t pro spa < length t.rows)
        × (has_key pro spa (row_at t (row_find t pro spa)) ≡ true)
        × ((j : ℕ) → j < row_find t pro spa → has_key pro spa (row_at t j) ≡ false))
      ⊎ ((row_find t pro spa ≡ index_none)
          × ((j : ℕ) → j < length t.rows → has_key pro spa (row_at t j) ≡ false))
unfolding row_find
row_find_lem t pro spa l = find_index_lem (has_key pro spa) index_none zero_row t.rows l

written :
    (t u : Tables) (pro spa : ℕ) (sha : Octets) (netif now i : ℕ) (m : Bool)
    → i < length t.rows
    → AllBut t u i
    → ((row_at u i).pro ≡ pro) × ((row_at u i).spa ≡ spa)
    → ((j : ℕ) → j < i → has_key pro spa (row_at t j) ≡ false)
    → Written t pro spa sha netif now
        (record { tabs = write_learned u i sha netif now; slot = i; merged = m })
unfolding write_learned learned_row AllBut has_key
written t u pro spa sha netif now i m l b k f =
    let e = learned_row (row_at u i) sha netif now in
    let here : get_or (set u.rows i e) i zero_row ≡ e =
      get_or-set_self u.rows i e zero_row (omega (arith, b.0)) in
    record {
      inside = l;
      others = AllBut-put t u i e b;
      keyed = ap (has_key pro spa) here ∙ ground (arith, k);
      stable = ap (λ (r : Row). r.state) here;
      address = ap (λ (r : Row). r.sha) here;
      from = ap (λ (r : Row). r.netif) here;
      seen = ap (λ (r : Row). r.used_ms) here;
      first = f;
    }

has_key_iff : (pro spa : ℕ) (e : Row) → has_key pro spa e ≡ true → (e.pro ≡ pro) × (e.spa ≡ spa)
unfolding has_key
has_key_iff pro spa e h = ground arith

-- The row that is opened is keyed, and nothing else is.
row_open_lem :
    (t : Tables) (i pro spa now : ℕ)
    → i < length t.rows
    → ((row_at (row_open t i pro spa now) i).pro ≡ pro)
      × ((row_at (row_open t i pro spa now) i).spa ≡ spa)
unfolding row_open opened_row
row_open_lem t i pro spa now l =
    let here = get_or-set_self t.rows i (opened_row pro spa now) zero_row l in
    (ap (λ (r : Row). r.pro) here, ap (λ (r : Row). r.spa) here)

row_take-none :
    (t : Tables) (now : ℕ)
    → length t.rows ≤ index_none
    → (row_take t now).slot ≡ index_none
    → (row_take t now).tabs ≡ t
unfolding row_take
row_take-none t now l = elim (Bool-cases (free_slot t == index_none)) [
  | inr c ↦ rw (row_take, c) (λ h. refl)
  | inl c ↦ elim (Bool-cases (oldest_slot t now == index_none)) [
    | inl d ↦ rw (row_take, c, d) (λ h. refl)
    | inr d ↦ rw (row_take, c, d) (λ h. absurd (ground arith))
  ]
]

-- Where it reports no row, it has changed nothing.
pub learn-none :
    (t : Tables) (pro spa : ℕ) (sha : Octets) (netif now : ℕ) (add_absent : Bool)
    → length t.rows ≤ index_none
    → (learn t pro spa sha netif now add_absent).slot ≡ index_none
    → (learn t pro spa sha netif now add_absent).tabs ≡ t
unfolding learn
learn-none t pro spa sha netif now add_absent l = elim (Bool-cases (is_group sha)) [
  | inl c ↦ rw (learn, c) (λ h. refl)
  | inr c ↦ elim (Bool-cases (row_find t pro spa == index_none)) [
    | inr d ↦ rw (learn, c, d) (λ h. absurd (ground arith))
    | inl d ↦ elim (Bool-cases add_absent) [
      | inr e ↦ rw (learn, c, d, e) (λ h. refl)
      | inl e ↦ elim (Bool-cases ((row_take t now).slot == index_none)) [
        | inl f ↦ rw (learn, c, d, e, f) (λ h. row_take-none t now l ((==_iff _ _).0 f))
        | inr f ↦ rw (learn, c, d, e, f) (λ h. absurd (ground arith))
      ]
    ]
  ]
]

-- A free row is always there to take.
free_slot-found :
    (t : Tables) (i : ℕ)
    → length t.rows ≤ index_none
    → i < length t.rows
    → (row_at t i).state ≡ row_empty
    → free_slot t == index_none ≡ false
unfolding free_slot
free_slot-found t i l m e =
    elim (find_index_lem (λ (r : Row). is_empty r.state) index_none zero_row t.rows l) [
      | inl q ↦ ground (arith, q.0)
      | inr q ↦ absurd (ground (arith, q.1 i m, ap is_empty e))
    ]

pub learn-found :
    (t : Tables) (pro spa : ℕ) (sha : Octets) (netif now i : ℕ)
    → length t.rows ≤ index_none
    → i < length t.rows
    → (row_at t i).state ≡ row_empty
    → is_group sha ≡ false
    → (learn t pro spa sha netif now true).slot ≢ index_none
unfolding learn row_take
learn-found t pro spa sha netif now i l m e g =
    elim (Bool-cases (row_find t pro spa == index_none)) [
      | inr d ↦ rw (learn, g, d) (λ h. absurd (ground arith))
      | inl d ↦
          let c = free_slot-found t i l m e in rw (learn, g, d, c) (λ h. absurd (ground (arith, h)))
    ]

-- Where the learning reports a row, it has written the triplet there.
pub learn-Written :
    (t : Tables) (pro spa : ℕ) (sha : Octets) (netif now : ℕ) (add_absent : Bool)
    → length t.rows ≤ index_none
    → (learn t pro spa sha netif now add_absent).slot ≢ index_none
    → Written t pro spa sha netif now (learn t pro spa sha netif now add_absent)
unfolding learn
learn-Written t pro spa sha netif now add_absent l n = elim (Bool-cases (is_group sha)) [
  | inl c ↦ absurd (n (rw (learn, c) refl))
  | inr c ↦ elim (row_find_lem t pro spa l) [
    | inl q ↦
        let found : row_find t pro spa == index_none ≡ false = ground (arith, q.0) in
        rw (learn, c, found)
          (written t t pro spa sha netif now (row_find t pro spa) true q.0
            (AllBut-refl t (row_find t pro spa))
            (has_key_iff pro spa (row_at t (row_find t pro spa)) q.1) q.2)
    | inr q ↦
        let missing : row_find t pro spa == index_none ≡ true = ground (arith, q.0) in
        elim (Bool-cases add_absent) [
          | inr d ↦ absurd (n (rw (learn, c, missing, d) refl))
          | inl d ↦ elim (row_take_lem t now l) [
            | inl r ↦
                let full : (row_take t now).slot == index_none ≡ true = ground (arith, r) in
                absurd (n (rw (learn, c, missing, d, full) refl))
            | inr r ↦
                let found : (row_take t now).slot == index_none ≡ false = ground (arith, r.0) in
                let k = (row_take t now).slot in
                let u = (row_take t now).tabs in
                rw (learn, c, missing, d, found)
                  (written t (row_open u k pro spa now) pro spa sha netif now k false r.0
                    (unfold row_open in AllBut-put t u k (opened_row pro spa now) r.1)
                    (row_open_lem u k pro spa now (AllBut-length t u k r))
                    (λ j m. q.1 j (omega (arith, r.0))))
          ]
        ]
  ]
]

-- The row that has been written is the one that the key finds.
pub Written-row_find :
    (t : Tables) (pro spa : ℕ) (sha : Octets) (netif now : ℕ) (l : Learned)
    → length t.rows ≤ index_none
    → Written t pro spa sha netif now l
    → row_find l.tabs pro spa ≡ l.slot
unfolding row_find AllBut
Written-row_find t pro spa sha netif now l r w =
    let same = w.others in
    find_index_at (has_key pro spa) index_none zero_row l.tabs.rows l.slot (omega (arith, same.0))
      (omega (arith, same.0, w.inside)) w.keyed
      (λ j m. ap (has_key pro spa) (same.1 j (λ e. absurd (omega arith))) ∙ w.first j m)
