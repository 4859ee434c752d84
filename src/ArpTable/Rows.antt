-- ===== src/ArpTable/Rows.antt =====
-- What the sweeps of src/arp/arp_table.c leave of the rows.
use idem_ip.Base.{ℕ, zero, suc, ◌+◌, ◌≤◌, ◌<◌, Bool, true, false, not, ◌&&◌, ◌||◌, List, [], ◌∷◌}
use idem_ip.Base.{◌≡◌, refl, sym, ap, ◌∙◌, inl, inr, Bool-cases, ◌==◌, length, set}
use idem_ip.Base.{get_or, get_or-set, length-set, arith}
use native.Mathlib.Decide.{ℕ_discrete}
use idem_ip.Base.{◌⊎◌, sub32}
use mathlib.Core.Path.{subst}
use idem_ip.ArpTable.{row_empty, row_pending, row_stable}
use idem_ip.ArpTable.{Row, Tables, row_at, zero_row, index_none, closed_row, row_free, is_old}
use idem_ip.ArpTable.{
  age_row, age_from, age_rows, hold_unlink, unlink_walk, expire_hold, hold_at, is_due, is_waiting,
}
use idem_ip.ArpTable.{expire_from, expire_holds, is_pending}
use idem_ip.ArpTable.Learn.{AllBut, AllBut-row_free, AllBut-refl}

age_row-AllBut : (t : Tables) (i now : ℕ) → AllBut t (age_row t i now) i
age_row-AllBut t i now = elim (Bool-cases (is_old (row_at t i) now)) [
  | inr c ↦ rw (c) (AllBut-refl t i)
  | inl c ↦ rw (c) (AllBut-row_free t i)
]

age_from-before :
    (n : ℕ) (t : Tables) (i now j : ℕ) → j < i → row_at (age_from n t i now) j ≡ row_at t j
unfolding age_from AllBut
age_from-before zero t i now j l = refl
age_from-before (suc n) t i now j l =
    age_from-before n (age_row t i now) (i + 1) now j (omega arith)
    ∙ (age_row-AllBut t i now).1 j (λ e. absurd (omega arith))

-- A row that is within the age that its state allows: five seconds while it waits for an address,
-- three hundred once it has one.
abbrev pub IsFresh : Row → ℕ → Type 0
IsFresh e now =
    (e.state ≡ row_empty)
    ⊎ (e.state ≡ row_pending) × (sub32 now e.used_ms < 5000)
    ⊎ (e.state ≡ row_stable) × (sub32 now e.used_ms < 300000)

is_old_lem :
    (e : Row) (now : ℕ)
    → ((is_old e now ≡ false) × IsFresh e now) ⊎ ((is_old e now ≡ true) × ¬ IsFresh e now)
unfolding is_old
is_old_lem e now = ground arith

age_row_closes :
    (t : Tables) (i now : ℕ)
    → is_old (row_at t i) now ≡ true
    → (row_at (age_row t i now) i).state ≡ row_empty
unfolding row_free
age_row_closes t i now c =
    rw (c) (ap (λ (e : Row). e.state) (get_or-set t.rows i i closed_row zero_row) ∙ ground arith)

-- What a sweep makes of a row: it leaves a row that is fresh, and closes one that is not.
abbrev pub Aged : Row → Row → ℕ → Type 0
Aged before after now =
    ((after ≡ before) × IsFresh before now) ⊎ ((after.state ≡ row_empty) × ¬ IsFresh before now)

age_row-Aged : (t : Tables) (i now : ℕ) → Aged (row_at t i) (row_at (age_row t i now) i) now
age_row-Aged t i now = elim (is_old_lem (row_at t i) now) [
  | inl p ↦ inl (rw (p.0) refl, p.1)
  | inr p ↦ inr (age_row_closes t i now p.0, p.1)
]

age_from-Aged :
    (n : ℕ) (t : Tables) (i now j : ℕ)
    → i ≤ j
    → j < i + n
    → Aged (row_at t j) (row_at (age_from n t i now) j) now
unfolding age_from AllBut
age_from-Aged zero t i now j l m = absurd (omega arith)
age_from-Aged (suc n) t i now j l m = elim (ℕ_discrete i j) [
  | yes e ↦
      let u = age_row t i now in
      subst (λ (r : Row). Aged (row_at t j) r now)
        (sym (age_from-before n u (i + 1) now j (omega arith)))
        (subst (λ (k : ℕ). Aged (row_at t k) (row_at u k) now) e (age_row-Aged t i now))
  | no e ↦
      let rest = age_from-Aged n (age_row t i now) (i + 1) now j (omega arith) (omega arith) in
      subst (λ (r : Row). Aged r (row_at (age_from n (age_row t i now) (i + 1) now) j) now)
        ((age_row-AllBut t i now).1 j e) rest
]

-- The sweep of a table leaves each row of it that is empty, that waits for an address and was used
-- less than 5000 ms before, or that has one and was used less than 300000 ms before, as it is, and
-- empties every other row.
pub age_rows-Aged :
    (t : Tables) (now j : ℕ) → j < length t.rows → Aged (row_at t j) (row_at (age_rows t now) j) now
unfolding age_rows
age_rows-Aged t now j l = age_from-Aged (length t.rows) t 0 now j (omega arith) (omega arith)

-- A row that is not asking for an address, or has asked at `t1`.
unfoldable pub has_asked : ℕ → Row → Bool
has_asked t1 e = not (is_pending e.state) || (not (e.tries == 0) && e.req_ms == t1)

age_row-has_asked :
    (t : Tables) (i now t1 j : ℕ)
    → has_asked t1 (row_at t j) ≡ true
    → has_asked t1 (row_at (age_row t i now) j) ≡ true
unfolding row_free has_asked
age_row-has_asked t i now t1 j h = elim (Bool-cases (is_old (row_at t i) now)) [
  | inr c ↦ rw (c) h
  | inl c ↦ rw (c) (ap (has_asked t1) (get_or-set t.rows i j closed_row zero_row) ∙ ground arith)
]

pub age_from-has_asked :
    (n : ℕ) (t : Tables) (i now t1 j : ℕ)
    → has_asked t1 (row_at t j) ≡ true
    → has_asked t1 (row_at (age_from n t i now) j) ≡ true
unfolding age_from
age_from-has_asked zero t i now t1 j h = h
age_from-has_asked (suc n) t i now t1 j h =
    age_from-has_asked n (age_row t i now) (i + 1) now t1 j (age_row-has_asked t i now t1 j h)

-- A row but for the head of its list, which is all that unlinking a hold may change of it.
but_head : Row → Row
but_head e = record e { pending = 0 }

set_head :
    (rows : List Row) (i j p : ℕ)
    → but_head (get_or (set rows i (record (get_or rows i zero_row) { pending = p })) j zero_row)
      ≡ but_head (get_or rows j zero_row)
unfolding but_head
set_head [] i j p = refl
set_head (e ∷ es) zero zero p = refl
set_head (e ∷ es) zero (suc j) p = refl
set_head (e ∷ es) (suc i) zero p = refl
set_head (e ∷ es) (suc i) (suc j) p = set_head es i j p

unlink_walk-row :
    (n : ℕ) (t : Tables) (i h cur prev j : ℕ)
    → but_head (row_at (unlink_walk n t i h cur prev) j) ≡ but_head (row_at t j)
unfolding unlink_walk
unlink_walk-row zero t i h cur prev j = refl
unlink_walk-row (suc n) t i h cur prev j = elim (Bool-cases (cur == index_none)) [
  | inl c ↦ rw (unlink_walk, c) refl
  | inr c ↦ elim (Bool-cases (cur == h)) [
    | inr d ↦ rw (unlink_walk, c, d) (unlink_walk-row n t i h (hold_at t.holds cur).next cur j)
    | inl d ↦ elim (Bool-cases (prev == index_none)) [
      | inl p ↦ rw (unlink_walk, c, d, p) (set_head t.rows i j (hold_at t.holds cur).next)
      | inr p ↦ rw (unlink_walk, c, d, p) refl
    ]
  ]
]

expire_hold-row :
    (t : Tables) (h now j : ℕ) → but_head (row_at (expire_hold t h now) j) ≡ but_head (row_at t j)
unfolding expire_hold hold_unlink
expire_hold-row t h now j = elim (Bool-cases (is_waiting (hold_at t.holds h).state)) [
  | inr c ↦ rw (expire_hold, c) refl
  | inl c ↦ elim (Bool-cases (is_due now (hold_at t.holds h).deadline_ms)) [
    | inr d ↦ rw (expire_hold, c, d) refl
    | inl d ↦ elim (Bool-cases ((hold_at t.holds h).entry == index_none)) [
      | inl e ↦ rw (expire_hold, c, d, e) refl
      | inr e ↦
          rw (expire_hold, c, d, e)
            (unlink_walk-row (length t.holds) t (hold_at t.holds h).entry h
              (row_at t (hold_at t.holds h).entry).pending index_none j)
    ]
  ]
]

expire_from-row :
    (n : ℕ) (t : Tables) (h now j : ℕ)
    → but_head (row_at (expire_from n t h now) j) ≡ but_head (row_at t j)
unfolding expire_from
expire_from-row zero t h now j = refl
expire_from-row (suc n) t h now j =
    expire_from-row n (expire_hold t h now) (h + 1) now j ∙ expire_hold-row t h now j

pub expire_holds-has_asked :
    (t : Tables) (now t1 j : ℕ)
    → has_asked t1 (row_at (expire_holds t now) j) ≡ has_asked t1 (row_at t j)
unfolding expire_holds has_asked but_head
expire_holds-has_asked t now t1 j = ap (has_asked t1) (expire_from-row (length t.holds) t 0 now j)

-- The sweeps keep the count of rows.
length-age_from :
    (n : ℕ) (t : Tables) (i now : ℕ) → length (age_from n t i now).rows ≡ length t.rows
unfolding age_from AllBut
length-age_from zero t i now = refl
length-age_from (suc n) t i now =
    length-age_from n (age_row t i now) (i + 1) now ∙ (age_row-AllBut t i now).0

length-unlink_walk :
    (n : ℕ) (t : Tables) (i h cur prev : ℕ)
    → length (unlink_walk n t i h cur prev).rows ≡ length t.rows
unfolding unlink_walk
length-unlink_walk zero t i h cur prev = refl
length-unlink_walk (suc n) t i h cur prev = ground (
  arith,
  length-unlink_walk n t i h (hold_at t.holds cur).next cur,
  length-set t.rows i (record (row_at t i) { pending = (hold_at t.holds cur).next }),
)

length-expire_hold : (t : Tables) (h now : ℕ) → length (expire_hold t h now).rows ≡ length t.rows
unfolding expire_hold hold_unlink
length-expire_hold t h now =
    let p = hold_at t.holds h in
    ground
      (arith, length-unlink_walk (length t.holds) t p.entry h (row_at t p.entry).pending index_none)

length-expire_from :
    (n : ℕ) (t : Tables) (h now : ℕ) → length (expire_from n t h now).rows ≡ length t.rows
unfolding expire_from
length-expire_from zero t h now = refl
length-expire_from (suc n) t h now =
    length-expire_from n (expire_hold t h now) (h + 1) now ∙ length-expire_hold t h now

pub length-age_rows : (t : Tables) (now : ℕ) → length (age_rows t now).rows ≡ length t.rows
unfolding age_rows
length-age_rows t now = length-age_from (length t.rows) t 0 now

pub length-expire_holds : (t : Tables) (now : ℕ) → length (expire_holds t now).rows ≡ length t.rows
unfolding expire_holds
length-expire_holds t now = length-expire_from (length t.holds) t 0 now
