-- ===== src/ArpTable/Entries/Tick.antt =====
-- The rate at which src/arp/arp_table.c has its caller send requests.
use idem_ip.Base.{ℕ, ◌≤◌, ◌<◌, true, false, List, [], ◌∷◌}
use idem_ip.Base.{◌≡◌, sym, ap, ◌∙◌, ◌≢◌, ◌⊎◌, inl, inr, Bool-cases, ◌==◌, length, sub32}
use idem_ip.Base.{find_index_lem, get_or-set_self, get_or-set_ne, arith, length-set}
use mathlib.Core.Path.{subst}
use idem_ip.ArpTable.{Row, Tables, row_at, zero_row, index_none, is_asking, asked, age_rows}
use idem_ip.ArpTable.Rows.{
  has_asked, age_from-has_asked, expire_holds-has_asked, length-expire_holds, length-age_rows,
}
use idem_ip.ArpTable.Entries.{
  Borrow, Io, tick, tick_opened, sweep, expire, settle, tick_report, first_reclaim, first_asking,
}
use idem_ip.ArpTable.Entries.{report_reclaim, report_request}

abbrev settled : Borrow → ℕ → Tables
settled w now = (settle w now).tabs

sweep-has_asked :
    (w : Borrow) (now t1 j : ℕ)
    → has_asked t1 (row_at w.tabs j) ≡ true
    → (has_asked t1 (row_at (sweep w now).tabs j) ≡ true)
      × (length (sweep w now).tabs.rows ≡ length w.tabs.rows)
      × ((sweep w now).io ≡ w.io)
unfolding sweep age_rows
sweep-has_asked w now t1 j h =
    ground (
      arith,
      age_from-has_asked (length w.tabs.rows) w.tabs 0 now t1 j h,
      length-age_rows w.tabs now,
    )

sweep_lem :
    (w : Borrow) (now : ℕ)
    → (length (sweep w now).tabs.rows ≡ length w.tabs.rows) × ((sweep w now).io ≡ w.io)
unfolding sweep
sweep_lem w now = ground (arith, length-age_rows w.tabs now)

settled-has_asked :
    (w : Borrow) (now t1 j : ℕ)
    → has_asked t1 (row_at w.tabs j) ≡ true
    → has_asked t1 (row_at (settled w now) j) ≡ true
unfolding settle expire
settled-has_asked w now t1 j h =
    expire_holds-has_asked (sweep (tick_opened w) now).tabs now t1 j
    ∙ (sweep-has_asked (tick_opened w) now t1 j h).0

settle-index : (w : Borrow) (now : ℕ) → (settle w now).io.index ≡ index_none
unfolding settle expire
settle-index w now = ap (λ (io : Io). io.index) (sweep_lem (tick_opened w) now).1

length-settled : (w : Borrow) (now : ℕ) → length (settled w now).rows ≡ length w.tabs.rows
unfolding settle expire
length-settled w now =
    length-expire_holds (sweep (tick_opened w) now).tabs now ∙ (sweep_lem (tick_opened w) now).0

asked-has_asked : (e : Row) (now : ℕ) → has_asked now (asked e now) ≡ true
unfolding has_asked asked
asked-has_asked e now = ground arith

length-tick_report :
    (s : Borrow) (now : ℕ) → length (tick_report s now).tabs.rows ≡ length s.tabs.rows
unfolding tick_report report_request report_reclaim
length-tick_report s now =
    let i = first_asking s.tabs now in
    ground (arith, length-set s.tabs.rows i (asked (row_at s.tabs i) now))

length-tick : (w : Borrow) (now : ℕ) → length (tick w now).tabs.rows ≡ length w.tabs.rows
unfolding tick
length-tick w now = ground (arith, length-tick_report (settle w now) now, length-settled w now)

-- What a tick that names a row leaves: the row was due to ask, and it has asked now.
Named : Borrow → Borrow → ℕ → Type 0
Named s r now =
    (r.io.index < length s.tabs.rows)
    × (is_asking now (row_at s.tabs r.io.index) ≡ true)
    × (has_asked now (row_at r.tabs r.io.index) ≡ true)

report_names :
    (s : Borrow) (now : ℕ)
    → length s.tabs.rows ≤ index_none
    → s.io.index ≡ index_none
    → ((tick_report s now).io.index ≡ index_none) ⊎ Named s (tick_report s now) now
unfolding tick_report Named report_request report_reclaim first_asking
report_names s now l u = elim (Bool-cases (first_reclaim s.tabs == index_none)) [
  | inr c ↦ rw (tick_report, c) (inl u)
  | inl c ↦ elim (find_index_lem (is_asking now) index_none zero_row s.tabs.rows l) [
    | inr q ↦
        let missing : first_asking s.tabs now == index_none ≡ true = ground (arith, q.0) in
        rw (tick_report, c, missing) (inl u)
    | inl q ↦
        let i = first_asking s.tabs now in
        let found : i == index_none ≡ false = ground (arith, q.0) in
        rw (tick_report, c, found)
          (inr (
            q.0,
            q.1,
            ap (has_asked now)
                  (get_or-set_self s.tabs.rows i (asked (row_at s.tabs i) now) zero_row q.0)
                ∙ asked-has_asked (row_at s.tabs i) now,
          ))
  ]
]

tick_names :
    (w : Borrow) (now : ℕ)
    → length w.tabs.rows ≤ index_none
    → ((tick w now).io.index ≡ index_none) ⊎ Named (settle w now) (tick w now) now
unfolding tick
tick_names w now l = elim (Bool-cases w.ready) [
  | inr r ↦ inl (ground arith)
  | inl r ↦
      let step : tick w now ≡ tick_report (settle w now) now = ground arith in
      subst (λ (b : Borrow). (b.io.index ≡ index_none) ⊎ Named (settle w now) b now) (sym step)
        (report_names (settle w now) now (omega (arith, length-settled w now)) (settle-index w now))
]

report-has_asked :
    (s : Borrow) (now t1 j : ℕ)
    → has_asked t1 (row_at s.tabs j) ≡ true
    → (tick_report s now).io.index ≢ j
    → has_asked t1 (row_at (tick_report s now).tabs j) ≡ true
unfolding tick_report report_request report_reclaim
report-has_asked s now t1 j h = elim (Bool-cases (first_reclaim s.tabs == index_none)) [
  | inr c ↦ rw (tick_report, c) (λ n. h)
  | inl c ↦ elim (Bool-cases (first_asking s.tabs now == index_none)) [
    | inl d ↦ rw (tick_report, c, d) (λ n. h)
    | inr d ↦
        rw (tick_report, c, d)
          (λ n.
            let i = first_asking s.tabs now in
            ap (has_asked t1)
              (get_or-set_ne s.tabs.rows i j (asked (row_at s.tabs i) now) zero_row n)
            ∙ h)
  ]
]

tick-has_asked :
    (w : Borrow) (now t1 j : ℕ)
    → has_asked t1 (row_at w.tabs j) ≡ true
    → (tick w now).io.index ≢ j
    → has_asked t1 (row_at (tick w now).tabs j) ≡ true
unfolding tick
tick-has_asked w now t1 j h n =
    ground (arith, settled-has_asked w now t1 j h, report-has_asked (settle w now) now t1 j)

is_asking-has_asked :
    (e : Row) (now t1 : ℕ) → has_asked t1 e ≡ true → sub32 now t1 < 1000 → is_asking now e ≡ false
unfolding is_asking has_asked
is_asking-has_asked e now t1 h l = ground arith

abbrev pub ticks : List ℕ → Borrow → Borrow
ticks [] w = w
ticks (now ∷ later) w = ticks later (tick w now)

abbrev pub AllWithin : ℕ → List ℕ → Type 0
AllWithin t1 [] = Unit
AllWithin t1 (now ∷ later) = (sub32 now t1 < 1000) × AllWithin t1 later

quiet_tick :
    (w : Borrow) (t1 t i : ℕ)
    → length w.tabs.rows ≤ index_none
    → i < index_none
    → has_asked t1 (row_at w.tabs i) ≡ true
    → sub32 t t1 < 1000
    → (tick w t).io.index ≢ i
unfolding Named
quiet_tick w t1 t i l m h b e = elim (tick_names w t l) [
  | inl q ↦ absurd (omega arith)
  | inr q ↦ absurd (
      ground (
        arith,
        is_asking-has_asked (row_at (settled w t) i) t t1 (settled-has_asked w t t1 i h) b,
        ap (λ (k : ℕ). is_asking t (row_at (settled w t) k)) (sym e) ∙ q.1,
      ))
]

quiet :
    (ts : List ℕ) (w : Borrow) (t1 t i : ℕ)
    → length w.tabs.rows ≤ index_none
    → i < index_none
    → has_asked t1 (row_at w.tabs i) ≡ true
    → AllWithin t1 ts
    → sub32 t t1 < 1000
    → (tick (ticks ts w) t).io.index ≢ i
quiet [] w t1 t i l m h a b = quiet_tick w t1 t i l m h b
quiet (now ∷ ts) w t1 t i l m h a b =
    quiet ts (tick w now) t1 t i (omega (arith, length-tick w now)) m
      (tick-has_asked w now t1 i h (quiet_tick w t1 now i l m h a.0)) a.1 b

-- In a table of at most 255 rows, a row whose address a tick has asked for is asked for again by
-- no tick less than 1000 ms after it, whatever ticks within that second come between.
pub requests_apart :
    (w : Borrow) (t1 t : ℕ) (ts : List ℕ)
    → length w.tabs.rows ≤ index_none
    → (tick w t1).io.index ≢ index_none
    → AllWithin t1 ts
    → sub32 t t1 < 1000
    → (tick (ticks ts (tick w t1)) t).io.index ≢ (tick w t1).io.index
unfolding Named
requests_apart w t1 t ts l n a b = elim (tick_names w t1 l) [
  | inl q ↦ absurd (n q)
  | inr q ↦
      quiet ts (tick w t1) t1 t (tick w t1).io.index (omega (arith, length-tick w t1))
        (omega (arith, q.0, length-settled w t1)) q.2 a b
]
