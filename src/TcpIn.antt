-- ===== src/TcpIn.antt =====
-- src/tcp/tcp_in.c: the operand block that a segment is processed in, the tests on the sequence
-- space, and the replies. A word of bits is a record with a Boolean for each bit that is read or set,
-- and of `TcpPcbCtl` the members are those that this unit reads or writes.

pub mod Checks
pub mod Entries
pub mod Parse
pub mod Moves
pub mod Bounds
pub mod Blind
pub mod Handshake
mod Tests
pub mod Window
use idem_ip.Base.{ℕ, ◌+◌, ◌-◌, ◌*◌, ◌^◌, Bool, true, false, not, ◌&&◌, ◌||◌}
use idem_ip.Base.{ltb, leb, ◌==◌, if◌then◌else◌, sub32, u32}
use idem_ip.Config.{Status, ok, busy, err}

-- `IdemIpTcpState`
pub data State : Type 0 where
  closed_state listen_state syn_sent_state syn_received established fin_wait_1 fin_wait_2 close_wait
        closing last_ack time_wait :
      State

-- The control bits of a segment that are read.
pub record Bits : Type 0 where
  pub fin : Bool
  pub syn : Bool
  pub rst : Bool
  pub psh : Bool
  pub ack : Bool
  pub urg : Bool

-- `TcpInSegArgs`
pub record Seg : Type 0 where
  pub seq : ℕ
  pub ack : ℕ
  pub wnd : ℕ
  pub len : ℕ
  pub data_len : ℕ
  pub up : ℕ
  pub flags : Bits

-- `TcpInOpts`, with a Boolean for each bit of `present`.
pub record Opts : Type 0 where
  pub tsval : ℕ
  pub tsecr : ℕ
  pub mss : ℕ
  pub hdr_len : ℕ
  pub ws : ℕ
  pub has_mss : Bool
  pub has_ws : Bool
  pub has_ts : Bool
  pub has_sack_perm : Bool

-- `IdemIpTcpVars`
pub record Vars : Type 0 where
  pub snd_una : ℕ
  pub snd_nxt : ℕ
  pub snd_wnd : ℕ
  pub snd_up : ℕ
  pub snd_wl1 : ℕ
  pub snd_wl2 : ℕ
  pub iss : ℕ
  pub rcv_nxt : ℕ
  pub rcv_wnd : ℕ
  pub rcv_up : ℕ
  pub irs : ℕ

-- `TcpPcbCtl`
pub record Ctl : Type 0 where
  pub ts_ok : Bool
  pub ts_recent : ℕ
  pub ts_recent_ms : ℕ
  pub last_ack_sent : ℕ
  pub max_snd_wnd : ℕ
  pub time_wait_deadline : ℕ

-- `TcpInReply`
pub record Reply : Type 0 where
  pub seq : ℕ
  pub ack : ℕ
  pub flags : ℕ

-- The IDEMIP_TCP_IN_ACT_ bits.
pub record Acts : Type 0 where
  pub act_ack : Bool
  pub act_rst : Bool
  pub act_text : Bool
  pub act_push : Bool
  pub act_urgent : Bool
  pub act_established : Bool
  pub act_closing : Bool
  pub act_reset : Bool
  pub act_refused : Bool
  pub act_listen : Bool
  pub act_delete : Bool
  pub act_flush : Bool
  pub act_acked : Bool
  pub act_hold : Bool
  pub act_2msl : Bool
  pub act_dupack : Bool
  pub act_wnd : Bool
  pub act_challenge : Bool
  pub act_throttled : Bool
  pub act_paws : Bool

-- `TcpInResult`
pub record Result : Type 0 where
  pub act : Acts
  pub acked : ℕ
  pub text_seq : ℕ
  pub text_off : ℕ
  pub text_len : ℕ
  pub acceptable : Bool

-- `TcpInIo`
pub record Io : Type 0 where
  pub seg : Seg
  pub opts : Opts
  pub vars : Vars
  pub ctl : Ctl
  pub state : State
  pub listener : ℕ
  pub now_ms : ℕ
  pub status : Status
  pub reply : Reply
  pub res : Result

-- `TcpInCtx`, with its mark as whether `clear` has set it.
pub record Ctx : Type 0 where
  pub ready : Bool
  pub challenge_at : ℕ
  pub challenges : ℕ

pub record Borrow : Type 0 where
  pub io : Io
  pub ctx : Ctx

abbrev pub ctl_syn : ℕ
ctl_syn = 0x02

abbrev pub ctl_rst : ℕ
ctl_rst = 0x04

abbrev pub ctl_ack : ℕ
ctl_ack = 0x10

abbrev pub pcb_none : ℕ
pcb_none = 0xffff

abbrev pub msl_ms : ℕ
msl_ms = 120000

abbrev pub ts_recent_max_ms : ℕ
ts_recent_max_ms = 2073600000

abbrev pub challenge_acks : ℕ
challenge_acks = 10

abbrev pub challenge_window_ms : ℕ
challenge_window_ms = 5000

abbrev pub no_acts : Acts
no_acts = record {
  act_ack = false;
  act_rst = false;
  act_text = false;
  act_push = false;
  act_urgent = false;
  act_established = false;
  act_closing = false;
  act_reset = false;
  act_refused = false;
  act_listen = false;
  act_delete = false;
  act_flush = false;
  act_acked = false;
  act_hold = false;
  act_2msl = false;
  act_dupack = false;
  act_wnd = false;
  act_challenge = false;
  act_throttled = false;
  act_paws = false;
}

-- The sequence space. `tcp_in_from` is `sub32`.
pub ack_new : ℕ → ℕ → ℕ → Bool
ack_new ack una nxt = let at = sub32 ack una in not (at == 0) && leb at (sub32 nxt una)

pub ack_within : ℕ → ℕ → ℕ → Bool
ack_within ack una nxt = leb (sub32 ack una) (sub32 nxt una)

pub ack_in_range : ℕ → ℕ → ℕ → ℕ → Bool
ack_in_range ack una nxt max_snd_wnd =
    let left = sub32 una max_snd_wnd in leb (sub32 ack left) (sub32 nxt left)

pub seg_acceptable : ℕ → ℕ → ℕ → ℕ → Bool
seg_acceptable seq len rcv_nxt rcv_wnd =
    if len == 0
    then if rcv_wnd == 0 then seq == rcv_nxt else ltb (sub32 seq rcv_nxt) rcv_wnd
    else if rcv_wnd == 0
    then false
    else if ltb (sub32 seq rcv_nxt) rcv_wnd
    then true
    else ltb (sub32 (sub32 (u32 (seq + len)) 1) rcv_nxt) rcv_wnd

pub ts_lt : ℕ → ℕ → Bool
ts_lt s t = let d = sub32 t s in not (d == 0) && ltb d 0x8000_0000

pub rst_in_window : ℕ → ℕ → ℕ → Bool
rst_in_window seq rcv_nxt rcv_wnd = let at = sub32 seq rcv_nxt in not (at == 0) && ltb at rcv_wnd

-- The replies.
abbrev pub with_acts : (Acts → Acts) → Io → Io
with_acts f io = record io { res = record (io.res) { act = f (io.res.act) } }

pub put_ack : Io → Io
put_ack io =
    with_acts (λ a. record a { act_ack = true })
      (record io {
        reply = record { seq = io.vars.snd_nxt; ack = io.vars.rcv_nxt; flags = ctl_ack };
        ctl = record (io.ctl) { last_ack_sent = io.vars.rcv_nxt };
      })

-- A reset that takes its sequence number from the segment's acknowledgment.
pub put_rst_at_ack : Io → Io
put_rst_at_ack io =
    with_acts (λ a. record a { act_rst = true })
      (record io { reply = record { seq = io.seg.ack; ack = 0; flags = ctl_rst } })

pub put_rst : Io → Io
put_rst io =
    if io.seg.flags.ack
    then put_rst_at_ack io
    else with_acts (λ a. record a { act_rst = true })
        (record io {
          reply = record {
            seq = 0;
            ack = u32 (io.seg.seq + io.seg.len);
            flags = ctl_rst + ctl_ack;
          };
        })

-- The SYN,ACK of a connection that is being received.
pub put_syn_ack : Io → Io
put_syn_ack io =
    with_acts (λ a. record a { act_ack = true })
      (record io {
        reply = record { seq = io.vars.iss; ack = io.vars.rcv_nxt; flags = ctl_syn + ctl_ack };
        ctl = record (io.ctl) { last_ack_sent = io.vars.rcv_nxt };
      })

-- The window of the throttle, opened anew where the last has run out.
pub throttle_window : Ctx → ℕ → Ctx
throttle_window c now =
    if leb challenge_window_ms (sub32 now c.challenge_at)
    then record c { challenge_at = now; challenges = 0 }
    else c

pub put_challenge : Borrow → Borrow
put_challenge w =
    let io = with_acts (λ a. record a { act_challenge = true }) w.io in
    let c = throttle_window w.ctx io.now_ms in
    if leb challenge_acks c.challenges
    then record { io = with_acts (λ a. record a { act_throttled = true }) io; ctx = c }
    else record { io = put_ack io; ctx = record c { challenges = c.challenges + 1 } }

pub put_2msl : Io → Io
put_2msl io =
    with_acts (λ a. record a { act_2msl = true })
      (record io { ctl = record (io.ctl) { time_wait_deadline = u32 (io.now_ms + 2 * msl_ms) } })

pub result_clear : Io → Io
result_clear io = record io {
  reply = record { seq = 0; ack = 0; flags = 0 };
  res = record {
    act = no_acts;
    acked = 0;
    text_seq = 0;
    text_off = 0;
    text_len = 0;
    acceptable = false;
  };
}

-- The window that a segment carries, taken.
abbrev pub take_window : Io → Io
take_window io = record io {
  vars = record (io.vars) { snd_wnd = io.seg.wnd; snd_wl1 = io.seg.seq; snd_wl2 = io.seg.ack };
  ctl = record (io.ctl) {
    max_snd_wnd = if ltb io.ctl.max_snd_wnd io.seg.wnd then io.seg.wnd else io.ctl.max_snd_wnd;
  };
}
