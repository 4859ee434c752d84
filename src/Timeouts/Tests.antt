-- ===== src/Timeouts/Tests.antt =====
-- The deadline list at concrete tables.
use idem_ip.Base.{ℕ, ◌<◌, ◌≡◌, ◌⊎◌, inr, true, false, List, [], ◌∷◌, arith, refl}
use idem_ip.Config.{ok, busy, err}
use idem_ip.Timeouts.{Entry, Borrow, at, magic_mark, link, unlink, expire, find, before}
use idem_ip.Timeouts.{no_slot}
use idem_ip.Timeouts.Chain.{Chain, insert, remove}
use idem_ip.Timeouts.Insert.{link-insert}
use idem_ip.Timeouts.Remove.{unlink-remove}
use idem_ip.Timeouts.Entries.{Holds, expire_due, expire_early, find_lem}

abbrev slot : ℕ → ℕ → ℕ → Entry
slot deadline unit next = record {
  deadline_ms = deadline;
  unit = unit;
  arg = 0;
  flags = 1;
  next = next;
}

-- Slots 2, 0 and 1 in deadline order, and slot 3 off the list.
abbrev table : List Entry
table = slot 200 1 1 ∷ slot 300 2 255 ∷ slot 100 3 0 ∷ slot 250 4 0 ∷ []

abbrev full : Borrow
full = record {
  io = record { status = err; unit = 0; arg = 0; armed = 0; deadline_ms = 0; until_ms = 0 };
  ctx = record { magic = magic_mark; now_ms = 150; head = 2; armed = 3 };
  tab = table;
}

chained : Chain table 2 (2 ∷ 0 ∷ 1 ∷ [])
chained = ground arith

link-insert_example :
    let after = link (record { tab = table; head = 2 }) 3 in
    Chain after.tab after.head (insert table 250 3 (2 ∷ 0 ∷ 1 ∷ []))
link-insert_example =
    link-insert table 2 3 (2 ∷ 0 ∷ 1 ∷ []) (omega arith) (omega arith) chained (omega arith)
      (ground arith) (ground arith)

-- That is the list with slot 3 before slot 1.
in_order : insert table 250 3 (2 ∷ 0 ∷ 1 ∷ []) ≡ 2 ∷ 0 ∷ 3 ∷ 1 ∷ []
unfolding before
in_order = refl

unlink-remove_example :
    let after = unlink (record { tab = table; head = 2 }) 0 in
    Chain after.tab after.head (remove 0 (2 ∷ 0 ∷ 1 ∷ []))
unlink-remove_example =
    unlink-remove table 2 0 (2 ∷ 0 ∷ 1 ∷ []) (omega arith) chained (omega arith) (ground arith)
      (ground arith)

is_due : before 150 100 ≡ false
unfolding before
is_due = refl

expire_due_example :
    let after = expire full in
    (after.io.status ≡ ok)
    × (after.io.unit ≡ 3)
    × (after.io.arg ≡ 0)
    × (after.io.deadline_ms ≡ 100)
    × Chain after.tab after.ctx.head (0 ∷ 1 ∷ [])
expire_due_example = expire_due full 2 (0 ∷ 1 ∷ []) refl chained (ground arith) is_due

abbrev early : Borrow
early = record full { ctx = record (full.ctx) { now_ms = 50 } }

is_early : before 50 100 ≡ true
unfolding before
is_early = refl

too_early :
    let after = expire early in
    (after.io.status ≡ busy) × (after.ctx ≡ early.ctx) × (after.tab ≡ table)
too_early = expire_early early refl (inr is_early)

find_lem_run :
    let i = find table 3 0 in
    (i < 4) × Holds (at table i) 3 0 × ((j : ℕ) → j < i → ¬ Holds (at table j) 3 0)
    ⊎ (i ≡ no_slot) × ((j : ℕ) → j < 4 → ¬ Holds (at table j) 3 0)
find_lem_run = find_lem table 3 0 (omega arith)
