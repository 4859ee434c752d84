-- ===== src/TcpIn/Tests.antt =====
-- A connection at small numbers.
use idem_ip.Base.{ℕ, ◌+◌, ◌≤◌, ◌<◌, ◌≡◌, ◌↔◌, inl, refl, [], ◌∷◌, true, false, arith, sub32, u32}
use idem_ip.Config.{busy}
use idem_ip.TcpIn.{established, syn_sent_state, listen_state, Bits, Seg, Vars, Io, Borrow}
use idem_ip.TcpIn.{no_acts, pcb_none, seg_acceptable}
use idem_ip.TcpIn.Window.{seg_acceptable_iff}
use idem_ip.TcpIn.Handshake.{Joined, handshake}
use idem_ip.TcpIn.Handshake.Opening.{answered, joined, accepted}
use idem_ip.TcpIn.Entries.{no_opts, segment, syn_sent}
use idem_ip.TcpIn.Moves.{segment-Moves, syn_sent-Moves}
use idem_ip.TcpIn.Moves.Checks.{Moves}
use idem_ip.TcpIn.Bounds.{Words, segment-Bounded}
use idem_ip.TcpIn.Bounds.Steps.{Bounded}
use idem_ip.TcpIn.Blind.{IsBlind, segment_blind, sent, sent_bound}
use idem_ip.Base.{some}
use idem_ip.Config.{ok}
use idem_ip.Endian.{Octets, rd32, wr16}
use idem_ip.Endian.RoundTrip.{IsBytes, are_bytes, are_bytes_sound}
use idem_ip.Host.{bits32, bits64}
use idem_ip.Checksum.{by_pairs, little_endian}
use idem_ip.Pseudo.{Versions}
use idem_ip.Tcp
use idem_ip.TcpIn.Parse.{ParseArgs, parse}
use idem_ip.Base.{drop, ◌-◌, inr, List}
use idem_ip.Tcp.Walk.{Item, IsList}
use idem_ip.TcpIn.Parse.Layout.{header_len, layout_seg}
use idem_ip.TcpIn.Parse.Options.{layout_opts}
use idem_ip.TcpIn.Parse.Sent.{parse-cksum_compute}

abbrev data_bits : Bits
data_bits = record { fin = false; syn = false; rst = false; psh = true; ack = true; urg = false }

abbrev rst_bits : Bits
rst_bits = record { fin = false; syn = false; rst = true; psh = false; ack = false; urg = false }

-- Twenty octets from RCV.NXT on, that acknowledge fifty of the hundred that were sent.
abbrev data_seg : Seg
data_seg = record {
  seq = 2000;
  ack = 1050;
  wnd = 500;
  len = 20;
  data_len = 20;
  up = 0;
  flags = data_bits;
}

-- A reset that is in the window and not at RCV.NXT.
abbrev rst_seg : Seg
rst_seg = record { seq = 2010; ack = 0; wnd = 0; len = 0; data_len = 0; up = 0; flags = rst_bits }

abbrev vars : Vars
vars = record {
  snd_una = 1000;
  snd_nxt = 1100;
  snd_wnd = 500;
  snd_up = 0;
  snd_wl1 = 1990;
  snd_wl2 = 1000;
  iss = 900;
  rcv_nxt = 2000;
  rcv_wnd = 400;
  rcv_up = 0;
  irs = 1900;
}

abbrev io : Io
io = record {
  seg = data_seg;
  opts = no_opts;
  vars = vars;
  ctl = record {
    ts_ok = false;
    ts_recent = 0;
    ts_recent_ms = 0;
    last_ack_sent = 2000;
    max_snd_wnd = 500;
    time_wait_deadline = 0;
  };
  state = established;
  listener = pcb_none;
  now_ms = 7000;
  status = busy;
  reply = record { seq = 0; ack = 0; flags = 0 };
  res = record {
    act = no_acts;
    acked = 0;
    text_seq = 0;
    text_off = 0;
    text_len = 0;
    acceptable = false;
  };
}

abbrev server : Borrow
server = record { io = io; ctx = record { ready = true; challenge_at = 6000; challenges = 9 } }

abbrev attacked : Borrow
attacked = record server { io = record io { seg = rst_seg } }

-- The SYN,ACK of a connection that was opened at 900.
abbrev client : Borrow
client = record server {
  io = record io {
    state = syn_sent_state;
    seg = record {
      seq = 5000;
      ack = 901;
      wnd = 500;
      len = 1;
      data_len = 0;
      up = 0;
      flags = record { fin = false; syn = true; rst = false; psh = false; ack = true; urg = false };
    };
    vars = record vars { snd_una = 900; snd_nxt = 901; rcv_nxt = 0 };
  };
}

segment-Moves_example : Moves established (segment server).io.state
segment-Moves_example = segment-Moves server

syn_sent-Moves_example : Moves syn_sent_state (syn_sent client).io.state
syn_sent-Moves_example = syn_sent-Moves client

io_Words : Words io
unfolding Words
io_Words = (omega arith, omega arith)

segment-Bounded_example : Bounded io (segment server).io
segment-Bounded_example = segment-Bounded server io_Words

rst_IsBlind : IsBlind attacked.io
unfolding IsBlind
rst_IsBlind = inl (refl, refl)

segment_blind_example :
    ((segment attacked).io.state ≡ established) × ((segment attacked).io.vars ≡ vars)
segment_blind_example = segment_blind attacked rst_IsBlind

sent_bound_example : sent (7000 ∷ 8000 ∷ 9000 ∷ []) server + 9 ≤ 10
sent_bound_example =
    sent_bound (7000 ∷ 8000 ∷ 9000 ∷ []) server (omega arith)
      (omega arith, (omega arith, (omega arith, tt)))

seg_acceptable_iff_example :
    (seg_acceptable 1990 20 2000 400 ≡ true)
    ↔ ((k : ℕ) × (k < 20) × (sub32 (u32 (1990 + k)) 2000 < 400))
seg_acceptable_iff_example =
    seg_acceptable_iff 1990 20 2000 400 (omega arith) (omega arith) (omega arith) (omega arith)
      (omega arith)

-- The two ends of a connection before its first segment: one listens, the other has sent its SYN.
abbrev passive : Borrow
passive = record server {
  io = record io { state = listen_state; vars = record vars { iss = 3000 } };
}

abbrev active : Borrow
active = record server {
  io = record io { state = syn_sent_state; vars = record vars { snd_una = 900; snd_nxt = 901 } };
}

handshake_example :
    let s1 = answered passive 900 500 in
    let c1 = joined active s1.io.reply 400 in
    let s2 = accepted s1 c1.io.reply 500 in
    (s1.io.res.act.act_ack ≡ true)
    × (c1.io.res.act.act_ack ≡ true)
    × Joined c1.io (u32 901) (u32 3001)
    × Joined s2.io (u32 3001) (u32 901)
handshake_example =
    handshake passive active 900 3000 400 500 (omega arith) (omega arith)
      (refl, refl, refl, refl, omega arith) (refl, refl, refl, refl, refl)

-- A SYN of six words, with a Maximum Segment Size of 1460.
abbrev opening : Octets
opening =
    0 ∷ 80 ∷ 4 ∷ 1 ∷ 0 ∷ 0 ∷ 0 ∷ 1 ∷ 0 ∷ 0 ∷ 0 ∷ 0 ∷ 96 ∷ 2 ∷ 16 ∷ 0 ∷ 0 ∷ 0 ∷ 0 ∷ 0 ∷ 2 ∷ 4 ∷ 5
    ∷ 180 ∷ []

abbrev host_a : Octets
host_a = 192 ∷ 168 ∷ 0 ∷ 1 ∷ []

abbrev host_b : Octets
host_b = 192 ∷ 168 ∷ 0 ∷ 2 ∷ []

all_IsBytes : IsBytes opening × IsBytes host_a × IsBytes host_b
unfolding are_bytes
all_IsBytes =
    (are_bytes_sound opening refl, are_bytes_sound host_a refl, are_bytes_sound host_b refl)

-- A Maximum Segment Size of 1460, and nothing after it.
abbrev opening_items : List Item
opening_items = record { kind = 2; at = 0; len = 4 } ∷ []

opening-IsList : IsList (drop 20 opening) (header_len opening - 20) 0 opening_items false
opening-IsList = (
  refl,
  refl,
  omega arith,
  omega arith,
  inr (inr (omega arith, omega arith, refl, inl (refl, refl))),
)

abbrev both : Versions
both = record { has_v4 = true; has_v6 = true }

parse-cksum_compute_example :
    let sum = Tcp.cksum_compute little_endian bits64 opening 24 (rd32 host_a 0) (rd32 host_b 0) in
    let a : ParseArgs = record {
      seg = some (wr16 opening 16 sum);
      local_ip = some host_b;
      remote_ip = some host_a;
      len = 24;
      ip_version = 4;
      snd_scale = 7;
    } in
    let io = (parse by_pairs bits32 both server a).io in
    (io.seg ≡ layout_seg opening 24 7)
    × (io.opts ≡ layout_opts opening opening_items)
    × (io.status ≡ ok)
parse-cksum_compute_example =
    parse-cksum_compute little_endian by_pairs bits64 bits32 both server opening host_a host_b 24 7
      opening_items false refl refl all_IsBytes (omega arith) (omega arith) (omega arith)
      (omega arith) refl opening-IsList
