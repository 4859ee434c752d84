-- ===== src/Ip4Route/Entries/Invariant.antt =====
-- What holds of the table between calls of the entries of src/ip/ip4_route.c.
use idem_ip.Base.{ℕ, ◌≤◌, ◌<◌, ◌^◌, true, false, bit_and}
use idem_ip.Base.{List, [], ◌∷◌, ◌≡◌, refl, inl, inr, ◌==◌}
use idem_ip.Base.{length, length-set, length-replicate, arith, Bool-cases, ==_iff}
use idem_ip.Ip4Route.{Entry, at, basic_match, mask_host, free_entry, index_none, tos_default, best}
use idem_ip.Ip4Route.Entries.{Borrow, AddArgs, clear, add, added_row, remove, remove_rows, lookup}
use idem_ip.Ip4Route.Entries.{derive_host, host_row, redirected, redirect, lowered, set_pmtu, tick}
use idem_ip.Ip4Route.Choice.{best_lem, Chosen, Outcome}
use idem_ip.Ip4Route.Passes.{basic_match-used}
use idem_ip.Ip4Route.Entries.{sweep, written, opened, add_slot}
use idem_ip.Ip4Route.Entries.Rows.{row_ok, is_valid, is_valid-at, is_valid-set, is_valid-replicate}
use idem_ip.Ip4Route.Entries.Rows.{is_valid-remove_rows, is_valid-sweep, added_row-row_ok}
use idem_ip.Ip4Route.Entries.Rows.{derive_host-row_ok, redirected-row_ok, lowered-row_ok}

-- One call of an entry, with its operands and the time it reads.
pub data Call : Type 0 where
  clear_call : Call
  add_call : AddArgs → Call
  remove_call : (dst mask : ℕ) → Call
  lookup_call : (dst tos : ℕ) → Call
  redirect_call : (dst gw : ℕ) → Call
  pmtu_call : (dst mtu now : ℕ) → Call
  tick_call : (now : ℕ) → Call

abbrev pub call : Call → Borrow → Borrow
call clear_call w = clear w
call (add_call a) w = add w a
call (remove_call dst mask) w = remove w dst mask
call (lookup_call dst tos) w = lookup w dst tos
call (redirect_call dst gw) w = redirect w dst gw
call (pmtu_call dst mtu now) w = set_pmtu w dst mtu now
call (tick_call now) w = tick w now

abbrev pub run : List Call → Borrow → Borrow
run [] w = w
run (c ∷ cs) w = run cs (call c w)

-- The operands are of their fields' widths.
abbrev pub Fits : Call → Type 0
Fits (add_call a) = a.flags < 2 ^ 8
Fits (redirect_call dst gw) = dst < 2 ^ 32
Fits (pmtu_call dst mtu now) = dst < 2 ^ 32
Fits c = Unit

abbrev pub AllFit : List Call → Type 0
AllFit [] = Unit
AllFit (c ∷ cs) = Fits c × AllFit cs

host_row-row_ok :
    (tab : List Entry) (cur dst : ℕ)
    → is_valid tab ≡ true
    → (at tab cur).used ≡ true
    → dst < 2 ^ 32
    → (row_ok (host_row tab cur dst).row ≡ true) × ((host_row tab cur dst).row.mask ≡ mask_host)
unfolding host_row
host_row-row_ok tab cur dst v u d =
    let r = is_valid-at tab cur v in
    let n = derive_host-row_ok (at tab cur) dst u r d in
    elim (Bool-cases ((at tab cur).mask == mask_host)) [
      | inl c ↦ rw (host_row, c) (r, (==_iff _ _).0 c)
      | inr c ↦ rw (host_row, c) (n, unfold derive_host in refl)
    ]

Chosen-basic_match :
    (tab : List Entry) (dst tos i : ℕ) → Chosen tab dst tos i → basic_match (at tab i) dst ≡ true
unfolding Chosen
Chosen-basic_match tab dst tos i h = h.1

best-used :
    (tab : List Entry) (dst tos : ℕ)
    → length tab ≤ index_none
    → (best tab dst tos).index == index_none ≡ false
    → (at tab (best tab dst tos).index).used ≡ true
best-used tab dst tos room h =
    unfold Outcome in
    elim (best_lem tab dst tos room) [
      | inr p ↦ absurd (ground (arith, p.0))
      | inl p ↦
          basic_match-used (at tab (best tab dst tos).index) dst
            (Chosen-basic_match tab dst tos _ p.1)
    ]

length-remove_rows :
    (tab : List Entry) (dst mask : ℕ) → length (remove_rows tab dst mask) ≡ length tab
unfolding remove_rows
length-remove_rows [] dst mask = refl
length-remove_rows (x ∷ xs) dst mask = omega (arith, length-remove_rows xs dst mask)

length-sweep : (tab : List Entry) (now : ℕ) → length (sweep tab now) ≡ length tab
unfolding sweep
length-sweep [] now = refl
length-sweep (x ∷ xs) now = omega (arith, length-sweep xs now)

-- The rows stay as many as they were.
length-call : (c : Call) (w : Borrow) → length (call c w).tab ≡ length w.tab
length-call clear_call w = unfold clear in length-replicate (length w.tab) free_entry
length-call (add_call a) w =
    unfold add opened written in ground (arith, length-set w.tab (add_slot w.tab a) (added_row a))
length-call (remove_call dst mask) w =
    unfold remove opened in ground (arith, length-remove_rows w.tab (bit_and dst mask) mask)
length-call (lookup_call dst tos) w = unfold lookup in ground arith
length-call (redirect_call dst gw) w =
    let h = host_row w.tab (best w.tab dst tos_default).index dst in
    unfold redirect opened written in ground (arith, length-set w.tab h.slot (redirected h.row gw))
length-call (pmtu_call dst mtu now) w =
    let h = host_row w.tab (best w.tab dst tos_default).index dst in
    unfold set_pmtu opened written in
    ground (arith, length-set w.tab h.slot (lowered h.row mtu now))
length-call (tick_call now) w = unfold tick opened in ground (arith, length-sweep w.tab now)

clear-is_valid : (w : Borrow) → is_valid (clear w).tab ≡ true
unfolding clear
clear-is_valid w = is_valid-replicate (length w.tab)

call-is_valid :
    (c : Call) (w : Borrow)
    → Fits c
    → length w.tab ≤ index_none
    → is_valid w.tab ≡ true
    → is_valid (call c w).tab ≡ true
call-is_valid clear_call w f l v = clear-is_valid w
call-is_valid (add_call a) w f l v =
    unfold add opened written in
    ground (arith, added_row-row_ok a, is_valid-set w.tab (add_slot w.tab a) (added_row a))
call-is_valid (remove_call dst mask) w f l v =
    unfold remove opened in ground (arith, is_valid-remove_rows w.tab (bit_and dst mask) mask)
call-is_valid (lookup_call dst tos) w f l v = unfold lookup in ground arith
call-is_valid (redirect_call dst gw) w f l v =
    let cur = (best w.tab dst tos_default).index in
    let h = host_row w.tab cur dst in
    unfold redirect opened written in
    ground (
      arith,
      best-used w.tab dst tos_default l,
      host_row-row_ok w.tab cur dst v,
      redirected-row_ok h.row gw,
      is_valid-set w.tab h.slot (redirected h.row gw) v,
    )
call-is_valid (pmtu_call dst mtu now) w f l v =
    let cur = (best w.tab dst tos_default).index in
    let h = host_row w.tab cur dst in
    unfold set_pmtu opened written in
    ground (
      arith,
      best-used w.tab dst tos_default l,
      host_row-row_ok w.tab cur dst v,
      lowered-row_ok h.row mtu now,
      is_valid-set w.tab h.slot (lowered h.row mtu now) v,
    )
call-is_valid (tick_call now) w f l v =
    unfold tick opened in ground (arith, is_valid-sweep w.tab now)

run-is_valid_from :
    (cs : List Call) (w : Borrow)
    → AllFit cs
    → length w.tab ≤ index_none
    → is_valid w.tab ≡ true
    → is_valid (run cs w).tab ≡ true
run-is_valid_from [] w f l v = v
run-is_valid_from (c ∷ cs) w f l v =
    run-is_valid_from cs (call c w) f.1 (omega (arith, length-call c w)) (call-is_valid c w f.0 l v)

-- Whatever the borrow of at most 255 rows held, and whatever calls with 8-bit flags and 32-bit
-- destinations follow the clear, every used row names a contiguous mask, its length and no bit
-- past it, names a gateway where it goes through one, is flagged for a host exactly where its mask
-- is full, and holds a path MTU only then, none below 68.
pub run-is_valid :
    (cs : List Call) (w : Borrow)
    → AllFit cs
    → length w.tab ≤ index_none
    → is_valid (run cs (clear w)).tab ≡ true
run-is_valid cs w f l =
    run-is_valid_from cs (clear w) f (omega (arith, length-call clear_call w)) (clear-is_valid w)
