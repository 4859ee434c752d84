-- ===== src/TcpIn/Parse/Options.antt =====
-- The options of a TCP segment by their kinds, RFC 9293 sec 3.2, RFC 7323 and RFC 2018, and that
-- `idemip_tcp_in_parse` of src/tcp/tcp_in.c reads them so.
use idem_ip.Base.{ℕ, zero, suc, ◌+◌, ◌<◌, Bool, true, ◌&&◌}
use idem_ip.Base.{List, [], ◌∷◌, ◌≡◌, refl, ap, ◌∙◌, arith, ◌==◌, if◌then◌else◌}
use idem_ip.Base.{u16, drop, Option, some, Bool-cases, inl, inr}
use idem_ip.Endian.{Octets, octet, rd16, rd32}
use idem_ip.Endian.RoundTrip.{IsBytes, rd16_sum, rd32_sum}
use idem_ip.Endian.Frame.{rd16-drop, rd32-drop, octet-drop}
use idem_ip.Tcp
use idem_ip.Tcp.Walk.{Item, OptWalk, opt_walk, opt_next, opt_next-at, collect}
use idem_ip.TcpIn.{Opts}
use idem_ip.TcpIn.Entries.{no_opts}
use idem_ip.TcpIn.Parse.{take_opt, take_here, take_opts, read_opts}
use idem_ip.TcpIn.Parse.Layout.{word16, word32, header_len, control, up_to_14, hdr_len_lem}

-- What the last item that passes a test gives, and `none_left` where none does.
abbrev pub last_or {ℓ} : {A : Type ℓ} → (Item → Bool) → (Item → A) → A → List Item → A
last_or is get none_left [] = none_left
last_or is get none_left (x ∷ items) = last_or is get (if is x then get x else none_left) items

abbrev pub option : ℕ → ℕ → Item → Bool
option kind len x = x.kind == kind && x.len == len

-- The options of the segment at `p`, whose list of options is `items`, on top of `o`. A Window Scale
-- option counts in a SYN alone.
abbrev pub filled : Octets → Bool → List Item → Opts → Opts
filled p syn items o = record {
  tsval = last_or (option 8 10) (λ x. word32 p (20 + (x.at + 2))) o.tsval items;
  tsecr = last_or (option 8 10) (λ x. word32 p (20 + (x.at + 6))) o.tsecr items;
  mss = last_or (option 2 4) (λ x. word16 p (20 + (x.at + 2))) o.mss items;
  hdr_len = o.hdr_len;
  ws = last_or (λ x. option 3 3 x && syn) (λ x. up_to_14 (octet p (20 + (x.at + 2)))) o.ws items;
  has_mss = last_or (option 2 4) (λ x. true) o.has_mss items;
  has_ws = last_or (λ x. option 3 3 x && syn) (λ x. true) o.has_ws items;
  has_ts = last_or (option 8 10) (λ x. true) o.has_ts items;
  has_sack_perm = last_or (option 4 2) (λ x. true) o.has_sack_perm items;
}

abbrev pub layout_opts : Octets → List Item → Opts
layout_opts p items = filled p (control 1 p) items (record no_opts { hdr_len = header_len p })

-- At most one of the four kinds is there.
take_one :
    (w : OptWalk) (o : Opts) (syn : Bool) (mss ws tsval tsecr : ℕ)
    → (if w.kind == 2 && w.len == 4
        then record o { mss = mss; has_mss = true }
        else if w.kind == 3 && w.len == 3 && syn
        then record o { ws = ws; has_ws = true }
        else if w.kind == 8 && w.len == 10
        then record o { tsval = tsval; tsecr = tsecr; has_ts = true }
        else if w.kind == 4 && w.len == 2
        then record o { has_sack_perm = true }
        else o)
      ≡ record {
        tsval = if w.kind == 8 && w.len == 10 then tsval else o.tsval;
        tsecr = if w.kind == 8 && w.len == 10 then tsecr else o.tsecr;
        mss = if w.kind == 2 && w.len == 4 then mss else o.mss;
        hdr_len = o.hdr_len;
        ws = if w.kind == 3 && w.len == 3 && syn then ws else o.ws;
        has_mss = if w.kind == 2 && w.len == 4 then true else o.has_mss;
        has_ws = if w.kind == 3 && w.len == 3 && syn then true else o.has_ws;
        has_ts = if w.kind == 8 && w.len == 10 then true else o.has_ts;
        has_sack_perm = if w.kind == 4 && w.len == 2 then true else o.has_sack_perm;
      }
take_one w o syn mss ws tsval tsecr = ground arith

take_opt_lem :
    (p : Octets) (syn : Bool) (w : OptWalk) (at : ℕ) (o : Opts)
    → IsBytes p
    → take_opt syn w (drop at (drop 20 p)) o
      ≡ filled p syn (record { kind = w.kind; at = at; len = w.len } ∷ []) o
unfolding take_opt Tcp.opt_mss Tcp.opt_ws Tcp.opt_tsval Tcp.opt_tsecr
take_opt_lem p syn w at o b =
    let q = drop at (drop 20 p) in
    let i = 20 + (at + 2) in
    let k = 20 + (at + 6) in
    let first : rd16 q 2 ≡ word16 p i =
      rd16-drop at (drop 20 p) 2 ∙ rd16-drop 20 p (at + 2) ∙ rd16_sum p i (b i) (b (i + 1)) in
    let long : rd32 q 2 ≡ word32 p i =
      rd32-drop at (drop 20 p) 2
      ∙ rd32-drop 20 p (at + 2)
      ∙ rd32_sum p i (b i) (b (i + 1)) (b (i + 2)) (b (i + 3)) in
    let longer : rd32 q 6 ≡ word32 p k =
      rd32-drop at (drop 20 p) 6
      ∙ rd32-drop 20 p (at + 6)
      ∙ rd32_sum p k (b k) (b (k + 1)) (b (k + 2)) (b (k + 3)) in
    let one : octet q 2 ≡ octet p i = octet-drop at (drop 20 p) 2 ∙ octet-drop 20 p (at + 2) in
    rw (first, long, longer, one) (take_one w o syn _ _ _ _)

-- What the loop over the options collects is what their list says.
take_opts-filled :
    (p : Octets) (syn : Bool) (n : ℕ) (w : OptWalk) (o : Opts)
    → IsBytes p
    → w.opts ≡ drop 20 p
    → (take_opts n syn w o).0 ≡ filled p syn (collect n w).0 o
unfolding take_opts collect take_here
take_opts-filled p syn zero w o b e = refl
take_opts-filled p syn (suc n) w o b e =
    let (next, found) = opt_next w in
    let at = opt_next-at w in
    elim (Bool-cases found) [
      | inr c ↦ rw (take_opts, collect, c) refl
      | inl c ↦
          let here : next.opt ≡ some (drop w.pos (drop 20 p)) = elim at.1 [
            | inl f ↦ absurd (ground arith)
            | inr q ↦ q ∙ ap (λ (r : Octets). some (drop w.pos r)) e
          ] in
          let x : Item = record { kind = next.kind; at = w.pos; len = next.len } in
          let one : take_here syn next next.opt o ≡ filled p syn (x ∷ []) o =
            ap (λ (q : Option Octets). take_here syn next q o) here
            ∙ take_opt_lem p syn next w.pos o b in
          let rest = take_opts-filled p syn n next (take_here syn next next.opt o) b (at.0 ∙ e) in
          rw (take_opts, collect, c) (rest ∙ ap (filled p syn (collect n next).0) one)
    ]

pub read_opts_lem :
    (p : Octets)
    → IsBytes p
    → header_len p < 65536
    → (read_opts p (control 1 p)).0 ≡ layout_opts p (collect (Tcp.opts_len p + 1) (opt_walk p)).0
unfolding read_opts opt_walk Tcp.opts
read_opts_lem p b l =
    let len : u16 (Tcp.hdr_len p) ≡ header_len p = omega (arith, hdr_len_lem p b) in
    rw (len) (take_opts-filled p (control 1 p) (Tcp.opts_len p + 1) (opt_walk p) _ b refl)
