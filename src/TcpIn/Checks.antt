-- ===== src/TcpIn/Checks.antt =====
-- src/tcp/tcp_in.c: the checks that RFC 9293 sec 3.10.7 makes of a segment, in its order, and the
-- entries that make them. A check that may stop the processing gives back whether it does.
use idem_ip.Base.{ℕ, ◌+◌, ◌-◌, Bool, true, false, not, ◌&&◌, ◌||◌}
use idem_ip.Base.{ltb, leb, ◌==◌, if◌then◌else◌, sub32, u16, u32}
use idem_ip.TcpIn.{State, closed_state, listen_state, syn_sent_state, syn_received, established}
use idem_ip.TcpIn.{fin_wait_1, fin_wait_2, close_wait, closing, last_ack, time_wait, Io, Borrow}
use idem_ip.TcpIn.{pcb_none, ts_recent_max_ms, ack_new, ack_within, ack_in_range}
use idem_ip.TcpIn.{ts_lt, rst_in_window, with_acts, put_ack, put_rst_at_ack}
use idem_ip.TcpIn.{put_challenge, put_2msl, take_window}

-- What a check leaves, and whether processing stops there.
pub record Checked : Type 0 where
  pub stops : Bool
  pub after : Io

pub record Challenged : Type 0 where
  pub stops : Bool
  pub after : Borrow

abbrev pub go_on : Io → Checked
go_on io = record { stops = false; after = io }

abbrev pub stop : Io → Checked
stop io = record { stops = true; after = io }

abbrev pub enter : State → Io → Io
enter s io = record io { state = s }

unfoldable pub is_fresh : Io → Bool
is_fresh io =
    not (ts_lt io.opts.tsval io.ctl.ts_recent)
    && ltb (sub32 io.ctl.last_ack_sent io.seg.seq) 0x8000_0000

abbrev pub save_ts : Io → Io
save_ts io = record io {
  ctl = record (io.ctl) { ts_recent = io.opts.tsval; ts_recent_ms = io.now_ms };
}

unfoldable pub paws : Io → Checked
paws io =
    if not io.ctl.ts_ok || not io.opts.has_ts
    then go_on io
    else if ts_lt io.opts.tsval io.ctl.ts_recent && not io.seg.flags.rst
    then if leb (sub32 io.now_ms io.ctl.ts_recent_ms) ts_recent_max_ms
      then stop io
      else go_on (save_ts io)
    else if is_fresh io
    then go_on (save_ts io)
    else go_on io

-- What a reset at RCV.NXT does in each state that the segment entry takes.
unfoldable pub reset_in : State → Io → Io
reset_in syn_received io =
    let flushed = with_acts (λ a. record a { act_flush = true }) io in
    if not (io.listener == pcb_none)
    then enter listen_state (with_acts (λ a. record a { act_listen = true }) flushed)
    else enter closed_state
        (with_acts (λ a. record a { act_refused = true; act_delete = true }) flushed)
reset_in established io =
    enter closed_state
      (with_acts (λ a. record a { act_reset = true; act_flush = true; act_delete = true }) io)
reset_in fin_wait_1 io =
    enter closed_state
      (with_acts (λ a. record a { act_reset = true; act_flush = true; act_delete = true }) io)
reset_in fin_wait_2 io =
    enter closed_state
      (with_acts (λ a. record a { act_reset = true; act_flush = true; act_delete = true }) io)
reset_in close_wait io =
    enter closed_state
      (with_acts (λ a. record a { act_reset = true; act_flush = true; act_delete = true }) io)
reset_in closing io =
    enter closed_state (with_acts (λ a. record a { act_flush = true; act_delete = true }) io)
reset_in last_ack io =
    enter closed_state (with_acts (λ a. record a { act_flush = true; act_delete = true }) io)
reset_in time_wait io =
    enter closed_state (with_acts (λ a. record a { act_flush = true; act_delete = true }) io)
reset_in closed_state io = io
reset_in listen_state io = io
reset_in syn_sent_state io = io

unfoldable pub check_rst : Borrow → Challenged
check_rst w =
    let io = w.io in
    if not io.seg.flags.rst
    then record { stops = false; after = w }
    else if not (io.seg.seq == io.vars.rcv_nxt)
        && not (rst_in_window io.seg.seq io.vars.rcv_nxt io.vars.rcv_wnd)
    then record { stops = true; after = w }
    else if not (io.seg.seq == io.vars.rcv_nxt)
    then record { stops = true; after = put_challenge w }
    else record { stops = true; after = record w { io = reset_in io.state io } }

abbrev pub is_syn_received : State → Bool
is_syn_received syn_received = true
is_syn_received closed_state = false
is_syn_received listen_state = false
is_syn_received syn_sent_state = false
is_syn_received established = false
is_syn_received fin_wait_1 = false
is_syn_received fin_wait_2 = false
is_syn_received close_wait = false
is_syn_received closing = false
is_syn_received last_ack = false
is_syn_received time_wait = false

unfoldable pub check_syn : Borrow → Challenged
check_syn w =
    let io = w.io in
    if not io.seg.flags.syn
    then record { stops = false; after = w }
    else if is_syn_received io.state && not (io.listener == pcb_none) && io.res.acceptable
    then record {
      stops = true;
      after = record w {
        io = enter listen_state (with_acts (λ a. record a { act_listen = true }) io);
      };
    }
    else record { stops = true; after = put_challenge w }

-- The parts of `tcp_in_check_ack`, in its order: a connection being received is established, SND.UNA
-- moves or the acknowledgment is a duplicate, the send window moves, and the state does.
unfoldable pub establish : Io → Io
establish io =
    if is_syn_received io.state
    then with_acts (λ a. record a { act_established = true; act_wnd = true })
        (enter established (take_window io))
    else io

unfoldable pub advance_una : Io → Io
advance_una io =
    if ack_new io.seg.ack io.vars.snd_una io.vars.snd_nxt
    then with_acts (λ a. record a { act_acked = true })
        (record io {
          res = record (io.res) { acked = sub32 io.seg.ack io.vars.snd_una };
          vars = record (io.vars) { snd_una = io.seg.ack };
        })
    else with_acts (λ a. record a { act_dupack = true }) io

unfoldable pub is_newer : Io → Bool
is_newer io =
    let at = sub32 io.seg.seq io.vars.snd_wl1 in
    let newer = not (at == 0) && ltb at 0x8000_0000 in
    let same =
      io.seg.seq == io.vars.snd_wl1 && ltb (sub32 io.seg.ack io.vars.snd_wl2) 0x8000_0000 in
    newer || same

unfoldable pub update_window : Io → Io
update_window io =
    if ack_within io.seg.ack io.vars.snd_una io.vars.snd_nxt && is_newer io
    then with_acts (λ a. record a { act_wnd = true }) (take_window io)
    else io

unfoldable pub close_on_ack : State → Bool → Io → Checked
close_on_ack fin_wait_1 fin_acked io = go_on (if fin_acked then enter fin_wait_2 io else io)
close_on_ack closing fin_acked io = stop (if fin_acked then put_2msl (enter time_wait io) else io)
close_on_ack last_ack fin_acked io = stop (
    if fin_acked
    then with_acts (λ a. record a { act_delete = true }) (enter closed_state io)
    else io)
close_on_ack time_wait fin_acked io = stop (put_2msl (put_ack io))
close_on_ack closed_state fin_acked io = go_on io
close_on_ack listen_state fin_acked io = go_on io
close_on_ack syn_sent_state fin_acked io = go_on io
close_on_ack syn_received fin_acked io = go_on io
close_on_ack established fin_acked io = go_on io
close_on_ack fin_wait_2 fin_acked io = go_on io
close_on_ack close_wait fin_acked io = go_on io

unfoldable pub acknowledge : Io → Checked
acknowledge io =
    let moved = update_window (advance_una io) in
    close_on_ack moved.state (moved.vars.snd_una == moved.vars.snd_nxt) moved

unfoldable pub check_ack : Io → Checked
check_ack io =
    if not io.seg.flags.ack
    then stop io
    else if not (ack_in_range io.seg.ack io.vars.snd_una io.vars.snd_nxt io.ctl.max_snd_wnd)
    then stop (put_ack io)
    else if is_syn_received io.state && not (ack_new io.seg.ack io.vars.snd_una io.vars.snd_nxt)
    then stop (put_rst_at_ack io)
    else acknowledge (establish io)

-- The states in which the other side may still send.
abbrev pub takes_text : State → Bool
takes_text established = true
takes_text fin_wait_1 = true
takes_text fin_wait_2 = true
takes_text closed_state = false
takes_text listen_state = false
takes_text syn_sent_state = false
takes_text syn_received = false
takes_text close_wait = false
takes_text closing = false
takes_text last_ack = false
takes_text time_wait = false

unfoldable pub check_urg : Io → Io
check_urg io =
    let up = u32 (io.seg.seq + io.seg.up) in
    let cur = sub32 io.vars.rcv_up io.vars.rcv_nxt in
    let at = sub32 up io.vars.rcv_nxt in
    if not io.seg.flags.urg || not (takes_text io.state)
    then io
    else if at == 0 || leb 0x8000_0000 at
    then io
    else if leb 0x8000_0000 cur || ltb cur at
    then with_acts (λ a. record a { act_urgent = true })
        (record io { vars = record (io.vars) { rcv_up = up } })
    else io

unfoldable pub text_seq : Io → ℕ
text_seq io = u32 (io.seg.seq + (if io.seg.flags.syn then 1 else 0))

-- A segment that does not begin at or before RCV.NXT, or ends before it.
unfoldable pub hold_text : Io → Io
hold_text io =
    let seq = text_seq io in
    let at = sub32 seq io.vars.rcv_nxt in
    put_ack (
      if not (at == 0) && ltb at io.vars.rcv_wnd
      then with_acts (λ a. record a { act_hold = true })
          (record io {
            res = record (io.res) { text_seq = seq; text_off = 0; text_len = io.seg.data_len };
          })
      else io)

-- The octets from offset `off` on, as many as the window takes.
unfoldable pub accept_text : Io → ℕ → Io
accept_text io off =
    let left = io.seg.data_len - off in
    let avail = if ltb io.vars.rcv_wnd left then io.vars.rcv_wnd else left in
    put_ack (
      with_acts (λ a. record a { act_text = true; act_push = a.act_push || io.seg.flags.psh })
        (record io {
          res = record (io.res) {
            text_seq = io.vars.rcv_nxt;
            text_off = u16 off;
            text_len = u16 avail;
          };
          vars = record (io.vars) {
            rcv_nxt = u32 (io.vars.rcv_nxt + avail);
            rcv_wnd = io.vars.rcv_wnd - avail;
          };
        }))

unfoldable pub check_text : Io → Io
check_text io =
    let off = sub32 io.vars.rcv_nxt (text_seq io) in
    if io.seg.data_len == 0 || not (takes_text io.state)
    then io
    else if leb io.seg.data_len off
    then hold_text io
    else accept_text io off

unfoldable pub close_on_fin : State → Io → Io
close_on_fin syn_received io = enter close_wait io
close_on_fin established io = enter close_wait io
close_on_fin fin_wait_1 io =
    if io.vars.snd_una == io.vars.snd_nxt then put_2msl (enter time_wait io) else enter closing io
close_on_fin fin_wait_2 io = put_2msl (enter time_wait io)
close_on_fin time_wait io = put_2msl io
close_on_fin closed_state io = io
close_on_fin listen_state io = io
close_on_fin syn_sent_state io = io
close_on_fin close_wait io = io
close_on_fin closing io = io
close_on_fin last_ack io = io

unfoldable pub check_fin : Io → Io
check_fin io =
    let over = record io { vars = record (io.vars) { rcv_nxt = u32 (io.vars.rcv_nxt + 1) } } in
    let told = put_ack (with_acts (λ a. record a { act_closing = true }) over) in
    if not io.seg.flags.fin || not (io.vars.rcv_nxt == u32 (text_seq io + io.seg.data_len))
    then io
    else close_on_fin io.state told

-- The sixth, seventh and eighth checks.
unfoldable pub check_rest : Io → Io
check_rest io = let t = check_text (check_urg io) in if t.res.act.act_hold then t else check_fin t
