-- ===== src/Tcp/Walk.antt =====
-- src/tcp/tcp.c: the walk over the options of a header, and what it finds.
use idem_ip.Base.{ℕ, zero, suc, ◌+◌, ◌-◌, ◌≤◌, ◌<◌, ◌≡◌, ◌⊎◌, ap, ◌∙◌}
use idem_ip.Base.{Bool, true, false, ◌||◌, List, [], ◌∷◌, Option, none, some, refl, arith}
use idem_ip.Base.{ltb, leb, ◌==◌, if◌then◌else◌, u8, drop}
use idem_ip.Endian.{Octets, octet}
use idem_ip.Endian.RoundTrip.{IsBytes}
use idem_ip.Endian.Frame.{octet-drop}
use idem_ip.Tcp.{opts, opts_len}

-- `IdemIpTcpOptWalk`
pub record OptWalk : Type 0 where
  pub opts : Octets
  pub end : ℕ
  pub pos : ℕ
  pub opt : Option Octets
  pub kind : ℕ
  pub len : ℕ
  pub bad : Bool

unfoldable pub opt_walk : Octets → OptWalk
opt_walk h = record {
  opts = opts h;
  end = opts_len h;
  pos = 0;
  opt = none;
  kind = 0;
  len = 0;
  bad = false;
}

-- The option that the walk lands on.
abbrev pub land : OptWalk → ℕ → OptWalk
land w len =
    let kind = octet w.opts w.pos in
    record w {
      opt = some (drop w.pos w.opts);
      kind = kind;
      len = u8 len;
      pos = if kind == 0 then w.end else w.pos + len;
    }

-- The end of a walk on an illegal length.
abbrev pub refuse : OptWalk → OptWalk
refuse w = record w { bad = true; pos = w.end }

-- The walk after the step, and whether an option was there.
pub opt_next : OptWalk → OptWalk × Bool
opt_next walk =
    let w = record walk { opt = none; len = 0 } in
    if leb w.end w.pos
    then (w, false)
    else (let kind = octet w.opts w.pos in
        let left = w.end - w.pos in
        if kind == 0 || kind == 1
        then (land w 1, true)
        else if ltb left 2
        then (refuse w, false)
        else (let len = octet w.opts (w.pos + 1) in
            if ltb len 2 || ltb left len then (refuse w, false) else (land w len, true)))

-- An option that a walk landed on.
pub record Item : Type 0 where
  pub kind : ℕ
  pub at : ℕ
  pub len : ℕ

-- A caller's loop: the options until `opt_next` answers false, with at most `n` calls, and the walk
-- where it stopped.
unfoldable pub collect : ℕ → OptWalk → List Item × OptWalk
collect zero w = ([], w)
collect (suc n) w =
    let (next, found) = opt_next w in
    let (items, stop) = collect n next in
    if found
    then (record { kind = next.kind; at = w.pos; len = next.len } ∷ items, stop)
    else ([], next)

-- An option with a length octet, of which there is none, or which is below two or past the region.
abbrev pub IsIllegal : Octets → ℕ → ℕ → Type 0
IsIllegal o e pos =
    (pos < e)
    × (1 < octet o pos)
    × ((e < pos + 2) ⊎ (octet o (pos + 1) < 2) ⊎ (e < pos + octet o (pos + 1)))

-- RFC 9293's option list from `pos` on in a region of `e` octets: the options stand one after the
-- other, and they end at the region's end, with an End of Option List, or, `bad`, at an illegal
-- length.
abbrev pub IsList : Octets → ℕ → ℕ → List Item → Bool → Type 0
IsList o e pos [] bad = (pos ≡ e) × (bad ≡ false) ⊎ (bad ≡ true) × IsIllegal o e pos
IsList o e pos (x ∷ items) bad =
    (x.at ≡ pos)
    × (x.kind ≡ octet o pos)
    × (1 ≤ x.len)
    × (pos + x.len ≤ e)
    × ((x.kind ≡ 0) × (x.len ≡ 1) × (items ≡ []) × (bad ≡ false)
        ⊎ (x.kind ≡ 1) × (x.len ≡ 1) × IsList o e (pos + 1) items bad
        ⊎ (1 < x.kind)
          × (2 ≤ x.len)
          × (x.len ≡ octet o (pos + 1))
          × IsList o e (pos + x.len) items bad)

-- The step, in the terms of the region: the region is over, or the length is illegal, or an option
-- stands there.
abbrev pub Steps : OptWalk → OptWalk → Bool → Type 0
Steps w next found =
    (found ≡ false) × (w.pos ≡ w.end) × (next.bad ≡ w.bad)
    ⊎ (found ≡ false) × IsIllegal w.opts w.end w.pos × (next.bad ≡ true)
    ⊎ (found ≡ true)
      × (next.kind ≡ octet w.opts w.pos)
      × (next.bad ≡ w.bad)
      × (1 ≤ next.len)
      × (w.pos + next.len ≤ w.end)
      × ((next.kind ≡ 0) × (next.len ≡ 1) × (next.pos ≡ w.end)
          ⊎ (next.kind ≡ 1) × (next.len ≡ 1) × (next.pos ≡ w.pos + 1)
          ⊎ (1 < next.kind)
            × (2 ≤ next.len)
            × (next.len ≡ octet w.opts (w.pos + 1))
            × (next.pos ≡ w.pos + next.len))

-- A step of a walk inside its region stays inside it, and it moves on exactly when an option that
-- lies whole inside it was there.
pub opt_next-Steps :
    (w : OptWalk)
    → octet w.opts (w.pos + 1) < 256
    → w.pos ≤ w.end
    → Steps w (opt_next w).0 (opt_next w).1
      × ((opt_next w).0.opts ≡ w.opts)
      × ((opt_next w).0.end ≡ w.end)
      × ((opt_next w).0.pos ≤ w.end)
unfolding opt_next
opt_next-Steps w b h = ground arith

-- An option that a step lands on stands where the walk stood.
pub opt_next-at :
    (w : OptWalk)
    → ((opt_next w).0.opts ≡ w.opts)
      × (((opt_next w).1 ≡ false) ⊎ ((opt_next w).0.opt ≡ some (drop w.pos w.opts)))
unfolding opt_next
opt_next-at w = ground arith

-- A legal option that fits is landed on.
pub opt_next-lands :
    (w : OptWalk) (kind n : ℕ)
    → octet w.opts w.pos ≡ kind
    → (1 < kind → (octet w.opts (w.pos + 1) ≡ n) × (2 ≤ n))
    → (kind ≤ 1 → n ≡ 1)
    → n < 256
    → 1 ≤ n
    → w.pos + n ≤ w.end
    → let (next, found) = opt_next w in
      (found ≡ true)
      × (next.kind ≡ kind)
      × (next.len ≡ n)
      × (next.pos ≡ (if kind == 0 then w.end else w.pos + n))
      × (next.opt ≡ some (drop w.pos w.opts))
unfolding opt_next
opt_next-lands w kind n k l o s m room = ground arith

collect-stopped :
    (n : ℕ) (w : OptWalk) → w.pos ≡ w.end → ((collect n w).0 ≡ []) × ((collect n w).1.bad ≡ w.bad)
unfolding collect opt_next
collect-stopped zero w e = (refl, refl)
collect-stopped (suc n) w e = ground arith

-- What one round adds to what the rounds after it find.
collect-cons :
    (o : Octets) (e : ℕ) (w next stop : OptWalk) (found : Bool) (items : List Item)
    → w.opts ≡ o
    → w.end ≡ e
    → w.bad ≡ false
    → Steps w next found
    → (next.pos ≡ e → (items ≡ []) × (stop.bad ≡ next.bad))
    → (next.bad ≡ false → w.pos < next.pos → IsList o e next.pos items stop.bad)
    → let x : Item = record { kind = next.kind; at = w.pos; len = next.len } in
      let all : List Item × OptWalk = if found then (x ∷ items, stop) else ([], next) in
      IsList o e w.pos all.0 all.1.bad
collect-cons o e w next stop true items p q g s over rest = ground arith
collect-cons o e w next stop false items p q g s over rest = ground arith

collect-IsList :
    (o : Octets) (e n : ℕ) (w : OptWalk)
    → IsBytes o
    → w.opts ≡ o
    → w.end ≡ e
    → w.pos ≤ e
    → e < w.pos + n
    → w.bad ≡ false
    → IsList o e w.pos (collect n w).0 (collect n w).1.bad
unfolding collect
collect-IsList o e zero w b p q h f g = absurd (omega arith)
collect-IsList o e (suc n) w b p q h f g =
    let next = (opt_next w).0 in
    let small : octet w.opts (w.pos + 1) < 256 =
      omega (arith, ap (λ (t : Octets). octet t (w.pos + 1)) p, b (w.pos + 1)) in
    let step = opt_next-Steps w small (omega arith) in
    collect-cons o e w next (collect n next).1 (opt_next w).1 (collect n next).0 p q g step.0
      (λ d. collect-stopped n next (omega (arith, step.2)))
      (λ d l.
        collect-IsList o e n next b (step.1 ∙ p) (step.2 ∙ q) (omega (arith, step.3)) (omega arith)
          d)

-- Over a header of octets, calls of opt_next from opt_walk on until it answers false end within
-- one call more than the region has octets, and the options that they land on are RFC 9293's
-- option list of the region, each whole inside it, with bad set exactly when that list ends at an
-- illegal length.
pub collect-opt_walk :
    (h : Octets)
    → IsBytes h
    → let all = collect (opts_len h + 1) (opt_walk h) in
      IsList (opts h) (opts_len h) 0 all.0 all.1.bad
unfolding opt_walk opts
collect-opt_walk h b =
    collect-IsList (drop 20 h) (opts_len h) (opts_len h + 1) (opt_walk h)
      (λ j. omega (arith, octet-drop 20 h j, b (20 + j))) refl refl (omega arith) (omega arith) refl

-- One region has one option list.
IsList-unique :
    (o : Octets) (e pos : ℕ) (items others : List Item) (bad worse : Bool)
    → IsList o e pos items bad
    → IsList o e pos others worse
    → (items ≡ others) × (bad ≡ worse)
IsList-unique o e pos [] [] bad worse l m = ground arith
IsList-unique o e pos [] (y ∷ others) bad worse l m = absurd (ground arith)
IsList-unique o e pos (x ∷ items) [] bad worse l m = absurd (ground arith)
IsList-unique o e pos (x ∷ items) (y ∷ others) bad worse l m =
    let one = IsList-unique o e (pos + 1) items others bad worse in
    let more = IsList-unique o e (pos + x.len) items others bad worse in ground arith

-- Over a header of octets, no other list of options, and no other end, is RFC 9293's option list
-- of the region than what the calls of opt_next give.
pub IsList-collect :
    (h : Octets) (items : List Item) (bad : Bool)
    → IsBytes h
    → IsList (opts h) (opts_len h) 0 items bad
    → let all = collect (opts_len h + 1) (opt_walk h) in (all.0 ≡ items) × (all.1.bad ≡ bad)
IsList-collect h items bad b l =
    IsList-unique (opts h) (opts_len h) 0 _ items _ bad (collect-opt_walk h b) l
