-- ===== src/Timeouts.antt =====
-- src/core/timeouts.c: the deadline list, a table of slots threaded in deadline order through their
-- `next` indices. The borrow is its results, its context and its table, whose length stands for
-- IDEMIP_TIMEOUTS, at most 255. A slot past the table reads as a zeroed one.
pub mod Chain
pub mod Insert
pub mod Remove
pub mod Entries
mod Tests
use idem_ip.Base.{ℕ, zero, suc, ◌+◌, ◌-◌, ◌%◌, ◌^◌, Bool, true, false, not, ◌&&◌, ◌||◌, List}
use idem_ip.Base.{bit_and, bit_or, ltb, leb, ◌==◌, if◌then◌else◌, u8, sub32, length, get_or, set}
use idem_ip.Base.{replicate}
use idem_ip.Config.{Status, ok, busy, err}

-- `TimeoutEntry`
pub record Entry : Type 0 where
  pub deadline_ms : ℕ
  pub unit : ℕ
  pub arg : ℕ
  pub flags : ℕ
  pub next : ℕ

abbrev pub zero_entry : Entry
zero_entry = record { deadline_ms = 0; unit = 0; arg = 0; flags = 0; next = 0 }

-- `TimeoutsCtx`
pub record Ctx : Type 0 where
  pub magic : ℕ
  pub now_ms : ℕ
  pub head : ℕ
  pub armed : ℕ

-- The results of `TimeoutsIo`.
pub record Io : Type 0 where
  pub status : Status
  pub unit : ℕ
  pub arg : ℕ
  pub armed : ℕ
  pub deadline_ms : ℕ
  pub until_ms : ℕ

pub record Borrow : Type 0 where
  pub io : Io
  pub ctx : Ctx
  pub tab : List Entry

abbrev pub magic_mark : ℕ
magic_mark = 0x5449_4d45

-- TIMEOUTS_NONE, the end of the armed list.
abbrev pub no_slot : ℕ
no_slot = 0xff

abbrev pub half_period_ms : ℕ
half_period_ms = 0x7fff_ffff

abbrev pub armed_flag : ℕ
armed_flag = 1

abbrev pub unit_none : ℕ
unit_none = 0

abbrev pub unit_count : ℕ
unit_count = 14

abbrev pub forever : ℕ
forever = 0xffff_ffff

abbrev pub at : List Entry → ℕ → Entry
at tab i = get_or tab i zero_entry

abbrev pub is_armed : Entry → Bool
is_armed e = not (bit_and e.flags armed_flag == 0)

pub before : ℕ → ℕ → Bool
before a b = ltb half_period_ms (sub32 a b)

-- The loops over the slots, with the slots that are left and the index.
abbrev pub find_from : List Entry → ℕ → ℕ → ℕ → ℕ → ℕ
find_from tab unit arg zero i = no_slot
find_from tab unit arg (suc n) i =
    let rest = find_from tab unit arg n (i + 1) in
    let e = at tab i in if is_armed e && e.unit == unit && e.arg == arg then i else rest

pub find : List Entry → ℕ → ℕ → ℕ
find tab unit arg = find_from tab unit arg (length tab) 0

abbrev pub free_from : List Entry → ℕ → ℕ → ℕ
free_from tab zero i = no_slot
free_from tab (suc n) i =
    let rest = free_from tab n (i + 1) in if is_armed (at tab i) then rest else i

pub free : List Entry → ℕ
free tab = free_from tab (length tab) 0

-- A table and the head of its list.
pub record Links : Type 0 where
  pub tab : List Entry
  pub head : ℕ

-- The walk of `timeouts_link` to the place of a deadline: `prev` and `cur` where it stops.
pub link_walk : ℕ → List Entry → ℕ → ℕ → ℕ → ℕ × ℕ
link_walk zero tab deadline prev cur = (prev, cur)
link_walk (suc n) tab deadline prev cur =
    let rest = link_walk n tab deadline cur (at tab cur).next in
    if not (cur == no_slot) && not (before deadline (at tab cur).deadline_ms)
    then rest
    else (prev, cur)

abbrev pub set_next : List Entry → ℕ → ℕ → List Entry
set_next tab i n = set tab i (record (at tab i) { next = n })

-- The walk visits a slot once at most, so the table's length and one more bounds it.
pub link : Links → ℕ → Links
link l i =
    let (prev, cur) =
      link_walk (suc (length l.tab)) l.tab (at l.tab i).deadline_ms no_slot l.head in
    let tab = set_next l.tab i cur in
    if prev == no_slot
    then record { tab = tab; head = i }
    else record { tab = set_next tab prev i; head = l.head }

-- The walk of `timeouts_unlink` to the slot before `i`.
pub unlink_walk : ℕ → List Entry → ℕ → ℕ → ℕ
unlink_walk zero tab i prev = prev
unlink_walk (suc n) tab i prev =
    let rest = unlink_walk n tab i (at tab prev).next in
    if not (prev == no_slot) && not ((at tab prev).next == i) then rest else prev

pub unlink : Links → ℕ → Links
unlink l i =
    if l.head == i
    then record l { head = (at l.tab i).next }
    else (let prev = unlink_walk (suc (length l.tab)) l.tab i l.head in
        if prev == no_slot then l else record l { tab = set_next l.tab prev (at l.tab i).next })

abbrev pub links : Borrow → Links
links w = record { tab = w.tab; head = w.ctx.head }

abbrev pub with_links : Borrow → Links → Borrow
with_links w l = record w { tab = l.tab; ctx = record (w.ctx) { head = l.head } }

pub drop_slot : Borrow → ℕ → Borrow
drop_slot w i =
    let l = unlink (links w) i in
    let u = with_links w l in
    record u {
      tab = set u.tab i zero_entry;
      ctx = record (u.ctx) { armed = u8 (u.ctx.armed + 2 ^ 8 - 1) };
    }

pub report : Borrow → Borrow
report w =
    let deadline = (at w.tab w.ctx.head).deadline_ms in
    let wait = if before w.ctx.now_ms deadline then sub32 deadline w.ctx.now_ms else 0 in
    record w {
      io = record (w.io) {
        armed = w.ctx.armed;
        until_ms = if w.ctx.head == no_slot then forever else wait;
      };
    }

abbrev pub status : Status → Borrow → Borrow
status s w = record w { io = record (w.io) { status = s } }

pub clear : Borrow → Borrow
clear w = status ok (
    report (record w {
      tab = replicate (length w.tab) zero_entry;
      ctx = record { magic = magic_mark; now_ms = 0; head = no_slot; armed = 0 };
    }))

-- The operands of `arm`.
pub record ArmArgs : Type 0 where
  pub deadline_ms : ℕ
  pub unit : ℕ
  pub arg : ℕ
  pub flags : ℕ

abbrev pub is_refused : Borrow → ℕ → Bool
is_refused w unit = not (w.ctx.magic == magic_mark) || unit == unit_none || leb unit_count unit

-- A slot is written and linked.
pub hold : Borrow → ArmArgs → ℕ → Borrow
hold w a i =
    let e = record (at w.tab i) {
      deadline_ms = a.deadline_ms;
      unit = a.unit;
      arg = a.arg;
      flags = u8 (bit_or a.flags armed_flag);
    } in
    status ok (report (with_links w (link (record { tab = set w.tab i e; head = w.ctx.head }) i)))

pub arm : Borrow → ArmArgs → Borrow
arm w a =
    let e = status err w in
    if is_refused e a.unit
    then e
    else (let i = find e.tab a.unit a.arg in
        let j = free e.tab in
        if not (i == no_slot)
        then hold (with_links e (unlink (links e) i)) a i
        else if j == no_slot
        then status busy (report e)
        else hold (record e { ctx = record (e.ctx) { armed = u8 (e.ctx.armed + 1) } }) a j)

pub cancel : Borrow → ℕ → ℕ → Borrow
cancel w unit arg =
    let e = status err w in
    if is_refused e unit
    then e
    else (let i = find e.tab unit arg in
        if i == no_slot then status busy (report e) else status ok (report (drop_slot e i)))

pub tick : Borrow → ℕ → Borrow
tick w now =
    let e = status err w in
    if not (e.ctx.magic == magic_mark)
    then e
    else status ok (report (record e { ctx = record (e.ctx) { now_ms = now } }))

pub expire : Borrow → Borrow
expire w =
    let e : Borrow = record w {
      io = record (w.io) { status = err; unit = unit_none; arg = 0; deadline_ms = 0 };
    } in
    if not (e.ctx.magic == magic_mark)
    then e
    else (let i = e.ctx.head in
        let slot = at e.tab i in
        if i == no_slot || before e.ctx.now_ms slot.deadline_ms
        then status busy (report e)
        else (let taken : Borrow = record e {
          io = record (e.io) { unit = slot.unit; arg = slot.arg; deadline_ms = slot.deadline_ms };
        } in
            status ok (report (drop_slot taken i))))
