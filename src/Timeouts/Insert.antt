-- ===== src/Timeouts/Insert.antt =====
-- `timeouts_link` puts a slot in its place in the deadline order.
use idem_ip.Base.{ℕ, zero, suc, ◌≤◌, ◌<◌, ◌≡◌, ◌≢◌, List, [], ◌∷◌, length, set, arith, refl}
use idem_ip.Base.{sym, ap, ◌∙◌, length-set, true, false}
use idem_ip.Base.{Bool-cases, ◌⊎◌, inl, inr}
use idem_ip.Timeouts.{Entry, at, no_slot, set_next, before, link_walk, link}
use idem_ip.Timeouts.Chain.{Chain, NotIn, Distinct, at-set_ne, at-set_self, Chain-set, insert}

-- The two writes that follow the walk.
abbrev thread : List Entry → ℕ → ℕ × ℕ → List Entry
thread tab i place = set_next (set_next tab i place.1) place.0 i

-- What the walk from a slot `q` on the list and the writes leave.
record Threads (tab : List Entry) (i q : ℕ) (is all : List ℕ) (place : ℕ × ℕ) : Type 0 where
  pub chain : Chain (thread tab i place) (at (thread tab i place) q).next all
  pub kept : (k : ℕ) → i ≢ k → q ≢ k → NotIn k is → at (thread tab i place) k ≡ at tab k
  pub apart : (k : ℕ) → q ≢ k → NotIn k is → place.0 ≢ k
  pub valid : place.0 < length tab

module _ (tab : List Entry) (d i : ℕ) (ok : i < length tab) (low : i < no_slot) where
  length-thread : (place : ℕ × ℕ) → length (thread tab i place) ≡ length tab
  length-thread place = length-set _ _ _ ∙ length-set _ _ _

  -- The place right behind `q`.
  placed :
      (q cur : ℕ) (is : List ℕ)
      → Chain tab cur is
      → q < length tab
      → q ≢ i
      → NotIn q is
      → NotIn i is
      → Threads tab i q is (i ∷ is) (q, cur)
  placed q cur is c r u a b =
      let e : Entry = record (at tab i) { next = cur } in
      let one = set tab i e in
      let f : Entry = record (at one q) { next = i } in
      let two = set one q f in
      let size : length one ≡ length tab = length-set tab i e in
      let last : at two q ≡ f = at-set_self one q f (omega arith) in
      let new : at two i ≡ e = at-set_ne one q i f u ∙ at-set_self tab i e ok in
      record {
        chain = (
          ap (λ (x : Entry). x.next) last,
          omega (arith, length-set one q f, size),
          low,
          rw new (Chain-set one q cur f is a (Chain-set tab i cur e is b c)),
        );
        kept = λ k n m o. at-set_ne one q k f m ∙ at-set_ne tab i k e n;
        apart = λ k m o. m;
        valid = r;
      }

  -- The place further on.
  passed :
      (q j : ℕ) (js all : List ℕ) (place : ℕ × ℕ)
      → (at tab q).next ≡ j
      → j < length tab
      → j < no_slot
      → q ≢ i
      → NotIn q (j ∷ js)
      → Threads tab i j js all place
      → Threads tab i q (j ∷ js) (j ∷ all) place
  passed q j js all place e r s u a t =
      let same : at (thread tab i place) q ≡ at tab q =
        t.kept q (λ f. u (sym f)) (λ f. a.0 (sym f)) a.1 in
      record {
        chain =
            (ap (λ (x : Entry). x.next) same ∙ e, omega (arith, length-thread place), s, t.chain);
        kept = λ k n m o. t.kept k n (λ f. o.0 (sym f)) o.1;
        apart = λ k m o. t.apart k (λ f. o.0 (sym f)) o.1;
        valid = t.valid;
      }

  walk_stops :
      (n q cur : ℕ)
      → (cur ≡ no_slot) ⊎ (before d (at tab cur).deadline_ms ≡ true)
      → link_walk (suc n) tab d q cur ≡ (q, cur)
  unfolding link_walk
  walk_stops n q cur h = ground arith

  walk_goes :
      (n q cur : ℕ)
      → cur < no_slot
      → before d (at tab cur).deadline_ms ≡ false
      → link_walk (suc n) tab d q cur ≡ link_walk n tab d cur (at tab cur).next
  unfolding link_walk
  walk_goes n q cur l h = ground arith

  threads :
      (n q cur : ℕ) (is : List ℕ)
      → (at tab q).next ≡ cur
      → Chain tab cur is
      → length is < n
      → q < length tab
      → q ≢ i
      → NotIn q is
      → NotIn i is
      → Distinct is
      → Threads tab i q is (insert tab d i is) (link_walk n tab d q cur)
  threads zero q cur is e c l r u a b dis = absurd (omega arith)
  threads (suc n) q cur [] e c l r u a b dis =
      rw (walk_stops n q cur (inl c)) (placed q cur [] c r u a b)
  threads (suc n) q cur (j ∷ js) e c l r u a b dis =
      let entry : at tab cur ≡ at tab j = ap (at tab) c.0 in
      elim (Bool-cases (before d (at tab j).deadline_ms)) [
        | inl here ↦
            rw (walk_stops n q cur (inr (rw entry here)), here) (placed q cur (j ∷ js) c r u a b)
        | inr later ↦
            rw (walk_goes n q cur (omega (arith, c.0, c.2)) (rw entry later), later, c.0)
              (passed q j js (insert tab d i js) (link_walk n tab d j (at tab j).next) (e ∙ c.0) c.1
                c.2 u a
                (threads n j (at tab j).next js refl c.3 (omega arith) c.1 (λ f. b.0 (sym f)) dis.0
                  b.1 dis.1))
      ]

-- `link` by the place that its walk finds.
link_first :
    (tab : List Entry) (head cur i : ℕ)
    → link_walk (suc (length tab)) tab (at tab i).deadline_ms no_slot head ≡ (no_slot, cur)
    → link (record { tab = tab; head = head }) i ≡ record { tab = set_next tab i cur; head = i }
unfolding link
link_first tab head cur i e = rw e refl

link_later :
    (tab : List Entry) (head i : ℕ) (place : ℕ × ℕ)
    → link_walk (suc (length tab)) tab (at tab i).deadline_ms no_slot head ≡ place
    → place.0 < no_slot
    → link (record { tab = tab; head = head }) i ≡ record { tab = thread tab i place; head = head }
unfolding link
link_later tab head i place e l = rw e (ground arith)

-- In a table of at most 255 slots, which threads a list of distinct slots, linking a slot that is
-- off the list puts it ahead of the first slot whose deadline it precedes, or last, and leaves the
-- order of the others: the list that the table then threads is that one.
pub link-insert :
    (tab : List Entry) (head i : ℕ) (is : List ℕ)
    → length tab ≤ no_slot
    → i < length tab
    → Chain tab head is
    → length is ≤ length tab
    → NotIn i is
    → Distinct is
    → let after = link (record { tab = tab; head = head }) i in
      Chain after.tab after.head (insert tab (at tab i).deadline_ms i is)
link-insert tab head i [] fits ok c l b dis =
    let d = (at tab i).deadline_ms in
    let e : Entry = record (at tab i) { next = head } in
    let size : length (set tab i e) ≡ length tab = length-set tab i e in
    rw
      (link_first tab head head i
        (walk_stops tab d i ok (omega arith) (length tab) no_slot head (inl c)))
      (refl, omega arith, omega arith, ap (λ (x : Entry). x.next) (at-set_self tab i e ok) ∙ c)
link-insert tab head i (j ∷ js) fits ok c l b dis =
    let d = (at tab i).deadline_ms in
    let low : i < no_slot = omega arith in
    let entry : at tab head ≡ at tab j = ap (at tab) c.0 in
    let n = length tab in
    elim (Bool-cases (before d (at tab j).deadline_ms)) [
      | inl here ↦
          let e : Entry = record (at tab i) { next = head } in
          let size : length (set tab i e) ≡ length tab = length-set tab i e in
          rw
            (
              link_first tab head head i
                  (walk_stops tab d i ok low n no_slot head (inr (rw entry here))),
              here,
            )
            (
              refl,
              omega arith,
              low,
              (
                ap (λ (x : Entry). x.next) (at-set_self tab i e ok) ∙ c.0,
                omega (arith, c.1),
                c.2,
                rw (at-set_ne tab i j e b.0) (Chain-set tab i _ e js b.1 c.3),
              ),
            )
      | inr later ↦
          let place = link_walk n tab d j (at tab j).next in
          let t =
            threads tab d i ok low n j (at tab j).next js refl c.3 (omega arith) c.1
              (λ f. b.0 (sym f)) dis.0 b.1 dis.1 in
          let go =
            walk_goes tab d i ok low n no_slot head (omega (arith, c.0, c.2)) (rw entry later) in
          let goes : link_walk (suc n) tab d no_slot head ≡ place =
            go ∙ ap (λ (k : ℕ). link_walk n tab d k (at tab k).next) c.0 in
          rw (link_later tab head i place goes (omega (arith, t.valid)), later)
            (c.0, omega (arith, length-thread tab d i ok low place, c.1), c.2, t.chain)
    ]
