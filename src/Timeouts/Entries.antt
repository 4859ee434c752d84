-- ===== src/Timeouts/Entries.antt =====
-- What `expire` takes off the list, and what `arm` and `cancel` find in the table.
use idem_ip.Base.{ℕ, zero, suc, ◌+◌, ◌≤◌, ◌<◌, ◌≡◌, ◌⊎◌, inl, inr, List, ◌∷◌, length}
use idem_ip.Base.{arith, refl, sym, ap, ◌==◌, true, false}
use idem_ip.Base.{◌&&◌, Bool-cases}
use native.Mathlib.Decide.{ℕ_discrete}
use idem_ip.Config.{ok, busy, err}
use idem_ip.Timeouts.{Entry, Io, status, Borrow, zero_entry, at, no_slot, before, expire, drop_slot}
use idem_ip.Timeouts.{report, magic_mark, is_armed, find, find_from}
use idem_ip.Timeouts.Chain.{Chain, NotIn, Chain-set}
use idem_ip.Timeouts.Remove.{unlink_first}

drop_slot_head :
    (w : Borrow) (h i : ℕ) (is : List ℕ)
    → h ≡ i
    → Chain w.tab w.ctx.head (i ∷ is)
    → NotIn i is
    → Chain (drop_slot w h).tab (drop_slot w h).ctx.head is
unfolding drop_slot
drop_slot_head w h i is e c d =
    rw (e, unlink_first w.tab w.ctx.head i c.0) (Chain-set w.tab i _ zero_entry is d c.3)

-- What `expire` reports of the slot that it takes.
abbrev expire_io : Borrow → Io
expire_io w =
    let slot = at w.tab w.ctx.head in
    record (w.io) { status = err; unit = slot.unit; arg = slot.arg; deadline_ms = slot.deadline_ms }

-- The calls after the test of `expire`.
expire_is :
    (w : Borrow)
    → w.ctx.magic ≡ magic_mark
    → w.ctx.head < no_slot
    → before w.ctx.now_ms (at w.tab w.ctx.head).deadline_ms ≡ false
    → expire w ≡ status ok (report (drop_slot (record w { io = expire_io w }) w.ctx.head))
unfolding expire
expire_is w m h due = rw (m, due) (ground arith)

-- In a cleared borrow, when the first slot of the list is due and does not come in it again,
-- expire reports that slot's unit, index and deadline, and the rest of the list is left in its
-- order.
pub expire_due :
    (w : Borrow) (i : ℕ) (is : List ℕ)
    → w.ctx.magic ≡ magic_mark
    → Chain w.tab w.ctx.head (i ∷ is)
    → NotIn i is
    → before w.ctx.now_ms (at w.tab i).deadline_ms ≡ false
    → let after = expire w in
      (after.io.status ≡ ok)
      × (after.io.unit ≡ (at w.tab i).unit)
      × (after.io.arg ≡ (at w.tab i).arg)
      × (after.io.deadline_ms ≡ (at w.tab i).deadline_ms)
      × Chain after.tab after.ctx.head is
unfolding report drop_slot
expire_due w i is m c d due =
    let slot : at w.tab w.ctx.head ≡ at w.tab i = ap (at w.tab) c.0 in
    rw (expire_is w m (omega (arith, c.0, c.2)) (rw slot due)) (
      refl,
      ap (λ (e : Entry). e.unit) slot,
      ap (λ (e : Entry). e.arg) slot,
      ap (λ (e : Entry). e.deadline_ms) slot,
      drop_slot_head (record w { io = expire_io w }) w.ctx.head i is c.0 c d,
    )

-- In a cleared borrow, when the list is empty or its first slot is not due, expire is BUSY and
-- takes nothing.
pub expire_early :
    (w : Borrow)
    → w.ctx.magic ≡ magic_mark
    → (w.ctx.head ≡ no_slot) ⊎ (before w.ctx.now_ms (at w.tab w.ctx.head).deadline_ms ≡ true)
    → let after = expire w in (after.io.status ≡ busy) × (after.ctx ≡ w.ctx) × (after.tab ≡ w.tab)
unfolding expire report
expire_early w m h = ground arith

-- The slot is armed for the unit and index.
abbrev pub Holds : Entry → ℕ → ℕ → Type 0
Holds e unit arg = (is_armed e ≡ true) × (e.unit ≡ unit) × (e.arg ≡ arg)

-- The search from `i` on.
find_from_lem :
    (tab : List Entry) (unit arg n i : ℕ)
    → i + n ≡ length tab
    → let k = find_from tab unit arg n i in
      (i ≤ k)
        × (k < length tab)
        × Holds (at tab k) unit arg
        × ((j : ℕ) → i ≤ j → j < k → ¬ Holds (at tab j) unit arg)
      ⊎ (k ≡ no_slot) × ((j : ℕ) → i ≤ j → j < length tab → ¬ Holds (at tab j) unit arg)
find_from_lem tab unit arg zero i e = inr (refl, λ j a b. absurd (omega arith))
find_from_lem tab unit arg (suc n) i e =
    let found = is_armed (at tab i) && (at tab i).unit == unit && (at tab i).arg == arg in
    elim (Bool-cases found) [
      | inl hit ↦
          rw hit (inl (omega arith, omega arith, ground arith, λ j a b. absurd (omega arith)))
      | inr not_here ↦
          let miss : ¬ Holds (at tab i) unit arg = ground arith in
          let more = find_from_lem tab unit arg n (i + 1) (omega arith) in
          rw not_here (elim more [
            | inl r ↦ inl (
              omega (arith, r.0),
              r.1,
              r.2,
              λ j a b. elim (ℕ_discrete i j) [
                | yes here ↦ rw (sym here) miss
                | no there ↦ r.3 j (omega arith) b
              ],
            )
            | inr r ↦ inr (
              r.0,
              λ j a b. elim (ℕ_discrete i j) [
                | yes here ↦ rw (sym here) miss
                | no there ↦ r.1 j (omega arith) b
              ],
            )
          ])
    ]

-- In a table of at most 255 slots, find gives the first slot of the table that is armed for the
-- unit and index, or the end of the list when none is.
pub find_lem :
    (tab : List Entry) (unit arg : ℕ)
    → length tab ≤ no_slot
    → let i = find tab unit arg in
      (i < length tab) × Holds (at tab i) unit arg × ((j : ℕ) → j < i → ¬ Holds (at tab j) unit arg)
      ⊎ (i ≡ no_slot) × ((j : ℕ) → j < length tab → ¬ Holds (at tab j) unit arg)
unfolding find
find_lem tab unit arg fits = elim (find_from_lem tab unit arg (length tab) 0 (omega arith)) [
  | inl r ↦ inl (r.1, r.2, λ j. r.3 j (omega arith))
  | inr r ↦ inr (r.0, λ j. r.1 j (omega arith))
]
