-- ===== src/Tcp/Options.antt =====
-- What a walk and the option readers make of the options that were written.
use idem_ip.Base.{ℕ, ◌+◌, ◌^◌, ◌≤◌, ◌<◌, ◌≡◌, inl, ap, ap₂, ◌==◌, ◌∙◌, sym}
use idem_ip.Base.{true, some, arith, length, drop, set, length-set}
use idem_ip.Base.{ltb, if◌then◌else◌, get_or-set}
use idem_ip.Endian.{Octets, octet, wr16, wr32}
use idem_ip.Endian.RoundTrip.{rd16-wr16, rd32-wr32, length-wr32}
use idem_ip.Endian.Frame.{rd32_cong, set-SameOctets, wr16-SameOctets}
use idem_ip.Endian.Frame.{wr32-SameOctets, octet-drop, rd16-drop, rd32-drop}
use idem_ip.Tcp.{put_end, put_nop, put_mss, put_ws, put_ts, put_sack_perm, opt_mss, opt_ws}
use idem_ip.Tcp.{opt_tsval, opt_tsecr}
use idem_ip.Tcp.Walk.{OptWalk, opt_next, opt_next-lands}

-- The options that can be written, with their operands.
pub data Put : Type 0 where
  end nop sack_perm : Put
  mss ws : ℕ → Put
  ts : ℕ → ℕ → Put

abbrev pub put : Put → Octets → ℕ → Octets × ℕ
put end p k = put_end p k
put nop p k = put_nop p k
put sack_perm p k = put_sack_perm p k
put (mss m) p k = put_mss p k m
put (ws s) p k = put_ws p k s
put (ts a b) p k = put_ts p k a b

-- RFC's option-kind and the octets of each.
abbrev pub kind_of : Put → ℕ
kind_of end = 0
kind_of nop = 1
kind_of (mss m) = 2
kind_of (ws s) = 3
kind_of sack_perm = 4
kind_of (ts a b) = 8

abbrev pub len_of : Put → ℕ
len_of end = 1
len_of nop = 1
len_of (mss m) = 4
len_of (ws s) = 3
len_of sack_perm = 2
len_of (ts a b) = 10

-- The operands fit their fields.
abbrev pub Fits : Put → Type 0
Fits (mss m) = m < 2 ^ 16
Fits (ws s) = s < 2 ^ 8
Fits (ts a b) = (a < 2 ^ 32) × (b < 2 ^ 32)
Fits _ = Unit {0}

-- What the readers give for the octets of the option.
abbrev pub Carries : Put → Octets → Type 0
Carries (mss m) o = opt_mss o ≡ m
Carries (ws s) o = opt_ws o ≡ (if ltb 14 s then 14 else s)
Carries (ts a b) o = (opt_tsval o ≡ a) × (opt_tsecr o ≡ b)
Carries _ o = Unit {0}

two_octets :
    (p : Octets) (k x y : ℕ)
    → k + 2 ≤ length p
    → (octet (set (set p k x) (k + 1) y) k ≡ x) × (octet (set (set p k x) (k + 1) y) (k + 1) ≡ y)
two_octets p k x y l = (
  simp get_or-set (ground (arith, length-set p k x)),
  simp get_or-set (ground (arith, length-set p k x)),
)

module _ (p : Octets) (k : ℕ) where
  -- The kind and the length octet of what was written.
  head_octets :
      (o : Put)
      → k + len_of o ≤ length p
      → (octet (put o p k).0 k ≡ kind_of o)
        × ((1 < kind_of o) → octet (put o p k).0 (k + 1) ≡ len_of o)
  unfolding put_end put_nop put_mss put_ws put_ts put_sack_perm
  head_octets end l = (simp get_or-set (ground arith), λ h. absurd (omega arith))
  head_octets nop l = (simp get_or-set (ground arith), λ h. absurd (omega arith))
  head_octets sack_perm l = let two = two_octets p k 4 2 l in (two.0, λ h. two.1)
  head_octets (mss m) l =
      let two = two_octets p k 2 4 (omega arith) in
      let same =
        wr16-SameOctets (set (set p k 2) (k + 1) 4) (k + 2) m k (k + 2) (inl (omega arith)) in
      (
        same k (omega arith) (omega arith) ∙ two.0,
        λ h. same (k + 1) (omega arith) (omega arith) ∙ two.1,
      )
  head_octets (ws s) l =
      let two = two_octets p k 3 3 (omega arith) in
      let same =
        set-SameOctets (set (set p k 3) (k + 1) 3) (k + 2) (if ltb 14 s then 14 else s) k (k + 2)
          (inl (omega arith)) in
      (
        same k (omega arith) (omega arith) ∙ two.0,
        λ h. same (k + 1) (omega arith) (omega arith) ∙ two.1,
      )
  head_octets (ts a b) l =
      let two = two_octets p k 8 10 (omega arith) in
      let q = set (set p k 8) (k + 1) 10 in
      let same = wr32-SameOctets q (k + 2) a k (k + 2) (inl (omega arith)) in
      let again = wr32-SameOctets (wr32 q (k + 2) a) (k + 6) b k (k + 2) (inl (omega arith)) in
      (
        again k (omega arith) (omega arith) ∙ same k (omega arith) (omega arith) ∙ two.0,
        λ h.
            again (k + 1) (omega arith) (omega arith)
            ∙ same (k + 1) (omega arith) (omega arith)
            ∙ two.1,
      )

  put-Carries : (o : Put) → Fits o → k + len_of o ≤ length p → Carries o (drop k (put o p k).0)
  unfolding put_end put_nop put_mss put_ws put_ts put_sack_perm opt_mss opt_ws opt_tsval opt_tsecr
  put-Carries end f l = ground arith
  put-Carries nop f l = ground arith
  put-Carries sack_perm f l = ground arith
  put-Carries (mss m) f l =
      let q = set (set p k 2) (k + 1) 4 in
      let size : length q ≡ length p = length-set _ _ _ ∙ length-set _ _ _ in
      rd16-drop k (wr16 q (k + 2) m) 2 ∙ rd16-wr16 q (k + 2) m (omega arith) f
  put-Carries (ws s) f l =
      let q = set (set p k 3) (k + 1) 3 in
      let v = if ltb 14 s then 14 else s in
      let size : length q ≡ length p = length-set _ _ _ ∙ length-set _ _ _ in
      let there : octet (drop k (set q (k + 2) v)) 2 ≡ v =
        octet-drop k (set q (k + 2) v) 2 ∙ get_or-set q (k + 2) (k + 2) v 0 ∙ ground arith in
      let small : v ≤ 14 = ground arith in ground arith
  put-Carries (ts a b) f l =
      let q = set (set p k 8) (k + 1) 10 in
      let size : length q ≡ length p = length-set _ _ _ ∙ length-set _ _ _ in
      let r = wr32 q (k + 2) a in
      let whole : length r ≡ length p = length-wr32 q (k + 2) a ∙ size in
      (
        rd32-drop k (wr32 r (k + 6) b) 2
            ∙ rd32_cong (wr32 r (k + 6) b) r (k + 2)
                (wr32-SameOctets r (k + 6) b (k + 2) (k + 2 + 4) (inl (omega arith)))
            ∙ rd32-wr32 q (k + 2) a (omega arith) f.0,
        rd32-drop k (wr32 r (k + 6) b) 6 ∙ rd32-wr32 r (k + 6) b (omega arith) f.1,
      )

  lengths :
      (o : Put)
      → (1 ≤ len_of o)
        × (1 < kind_of o → 2 ≤ len_of o)
        × (kind_of o ≤ 1 → len_of o ≡ 1)
        × (len_of o < 256)
        × ((put o p k).1 ≡ len_of o)
  unfolding put_end put_nop put_mss put_ws put_ts put_sack_perm
  lengths end = ground arith
  lengths nop = ground arith
  lengths sack_perm = ground arith
  lengths (mss m) = ground arith
  lengths (ws s) = ground arith
  lengths (ts a b) = ground arith

-- A walk that stands at an option that was written with operands that fit their fields, with room
-- for it in the span and in the region, lands on it: it reports the option's kind and octets and
-- moves past it, or, for an End of Option List, to the region's end, and the readers give the
-- operands back, a window shift above fourteen as fourteen.
pub put-opt_next :
    (p : Octets) (k : ℕ) (o : Put) (w : OptWalk)
    → Fits o
    → k + len_of o ≤ length p
    → w.opts ≡ (put o p k).0
    → w.pos ≡ k
    → k + len_of o ≤ w.end
    → let (next, found) = opt_next w in
      (found ≡ true)
      × (next.kind ≡ kind_of o)
      × (next.len ≡ (put o p k).1)
      × (next.pos ≡ (if kind_of o == 0 then w.end else k + len_of o))
      × (next.opt ≡ some (drop k (put o p k).0))
      × Carries o (drop k (put o p k).0)
put-opt_next p k o w f l e at room =
    let head = head_octets p k o l in
    let kind : octet w.opts w.pos ≡ kind_of o = ap₂ octet e at ∙ head.0 in
    let second : w.pos + 1 ≡ k + 1 = omega arith in
    let len : 1 < kind_of o → octet w.opts (w.pos + 1) ≡ len_of o =
      λ h. ap₂ octet e second ∙ head.1 h in
    let size = lengths p k o in
    let lands =
      opt_next-lands w (kind_of o) (len_of o) kind (λ h. (len h, size.1 h)) size.2 size.3 size.0
        (omega arith) in
    (
      lands.0,
      lands.1,
      lands.2 ∙ sym size.4,
      lands.3 ∙ ap (λ (t : ℕ). if kind_of o == 0 then w.end else t + len_of o) at,
      lands.4 ∙ ap₂ (λ (n : ℕ) (t : Octets). some (drop n t)) at e,
      put-Carries p k o f l,
    )
