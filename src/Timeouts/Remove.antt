-- ===== src/Timeouts/Remove.antt =====
-- `timeouts_unlink` takes a slot out of the list and leaves the order of the others.
use idem_ip.Base.{ℕ, zero, suc, ◌≤◌, ◌<◌, ◌≡◌, ◌≢◌, List, [], ◌∷◌, length, set, arith}
use idem_ip.Base.{sym, ap, ◌∙◌, length-set}
use idem_ip.Base.{◌⊎◌}
use native.Mathlib.Decide.{ℕ_discrete}
use idem_ip.Timeouts.{Entry, at, no_slot, set_next, unlink_walk, unlink}
use idem_ip.Timeouts.Chain.{Chain, NotIn, Distinct, at-set_ne, at-set_self, Chain-set, remove}

-- The slot is on the list.
abbrev pub IsIn : ℕ → List ℕ → Type 0
IsIn i [] = ⊥
IsIn i (j ∷ js) = (i ≡ j) ⊎ IsIn i js

remove_ne : (i j : ℕ) (js : List ℕ) → i ≢ j → remove i (j ∷ js) ≡ j ∷ remove i js
remove_ne i j js n = ground arith

remove_self : (i j : ℕ) (js : List ℕ) → i ≡ j → remove i (j ∷ js) ≡ js
remove_self i j js e = ground arith

-- The list from `q` on, with a later slot taken out: `p` is where the walk stops.
record Leaves (tab : List Entry) (i q : ℕ) (is : List ℕ) (p : ℕ) : Type 0 where
  pub chain :
      Chain
        (set_next tab p (at tab i).next)
        (at (set_next tab p (at tab i).next) q).next
        (remove i is)
  pub kept : (k : ℕ) → q ≢ k → NotIn k is → at (set_next tab p (at tab i).next) k ≡ at tab k
  pub valid : p < length tab

module _ (tab : List Entry) (i : ℕ) where
  -- The slot right behind `q`.
  taken :
      (q j : ℕ) (js : List ℕ)
      → i ≡ j
      → Chain tab (at tab j).next js
      → q < length tab
      → NotIn q (j ∷ js)
      → Leaves tab i q (j ∷ js) q
  taken q j js m c r a =
      let e : Entry = record (at tab q) { next = (at tab i).next } in
      let last : at (set tab q e) q ≡ e = at-set_self tab q e r in
      record {
        chain = rw (remove_self i j js m, last) (Chain-set tab q _ e js a.1 (rw m c));
        kept = λ k m o. at-set_ne tab q k e m;
        valid = r;
      }

  skipped :
      (q j : ℕ) (js : List ℕ) (p : ℕ)
      → (at tab q).next ≡ j
      → j < length tab
      → j < no_slot
      → i ≢ j
      → NotIn q (j ∷ js)
      → Leaves tab i j js p
      → Leaves tab i q (j ∷ js) p
  skipped q j js p e r s n a t =
      let new = set_next tab p (at tab i).next in
      let same : at new q ≡ at tab q = t.kept q (λ f. a.0 (sym f)) a.1 in
      record {
        chain = rw (remove_ne i j js n) (
          ap (λ (x : Entry). x.next) same ∙ e,
          omega (arith, length-set tab p (record (at tab p) { next = (at tab i).next })),
          s,
          t.chain,
        );
        kept = λ k m o. t.kept k (λ f. o.0 (sym f)) o.1;
        valid = t.valid;
      }

  walk_stops : (n q : ℕ) → (at tab q).next ≡ i → unlink_walk (suc n) tab i q ≡ q
  unfolding unlink_walk
  walk_stops n q h = ground arith

  walk_goes :
      (n q : ℕ)
      → q < no_slot
      → (at tab q).next ≢ i
      → unlink_walk (suc n) tab i q ≡ unlink_walk n tab i (at tab q).next
  unfolding unlink_walk
  walk_goes n q l h = ground arith

  leaves :
      (n q : ℕ) (is : List ℕ)
      → Chain tab (at tab q).next is
      → length is < n
      → q < length tab
      → q < no_slot
      → NotIn q is
      → Distinct is
      → IsIn i is
      → Leaves tab i q is (unlink_walk n tab i q)
  leaves zero q is c l r s a dis m = absurd (omega arith)
  leaves (suc n) q [] c l r s a dis m = elim m [ ]
  leaves (suc n) q (j ∷ js) c l r s a dis m = elim (ℕ_discrete i j) [
    | yes e ↦ rw (walk_stops n q (c.0 ∙ sym e)) (taken q j js e c.3 r a)
    | no ne ↦
        let there : IsIn i js = ground arith in
        let next : (at tab (at tab q).next).next ≡ (at tab j).next =
          ap (λ (k : ℕ). (at tab k).next) c.0 in
        rw (walk_goes n q s (λ f. ne (sym f ∙ c.0)), c.0)
          (skipped q j js (unlink_walk n tab i j) c.0 c.1 c.2 ne a
            (leaves n j js c.3 (omega arith) c.1 c.2 dis.0 dis.1 there))
  ]

-- `unlink` by where its walk stops.
pub unlink_first :
    (tab : List Entry) (head i : ℕ)
    → head ≡ i
    → unlink (record { tab = tab; head = head }) i ≡ record { tab = tab; head = (at tab i).next }
unfolding unlink
unlink_first tab head i e = ground arith

unlink_later :
    (tab : List Entry) (head i p : ℕ)
    → head ≢ i
    → unlink_walk (suc (length tab)) tab i head ≡ p
    → p < no_slot
    → unlink (record { tab = tab; head = head }) i
      ≡ record { tab = set_next tab p (at tab i).next; head = head }
unfolding unlink
unlink_later tab head i p n e l = rw e (ground arith)

-- In a table of at most 255 slots, which threads a list of distinct slots, unlinking a slot that
-- is on the list leaves the list without it, in the order it had.
pub unlink-remove :
    (tab : List Entry) (head i : ℕ) (is : List ℕ)
    → length tab ≤ no_slot
    → Chain tab head is
    → length is ≤ length tab
    → Distinct is
    → IsIn i is
    → let after = unlink (record { tab = tab; head = head }) i in
      Chain after.tab after.head (remove i is)
unlink-remove tab head i [] fits c l dis m = elim m [ ]
unlink-remove tab head i (j ∷ js) fits c l dis m = elim (ℕ_discrete i j) [
  | yes e ↦ rw (unlink_first tab head i (c.0 ∙ sym e), remove_self i j js e, e) c.3
  | no ne ↦
      let p = unlink_walk (suc (length tab)) tab i j in
      let there : IsIn i js = ground arith in
      let t = leaves tab i (suc (length tab)) j js c.3 (omega arith) c.1 c.2 dis.0 dis.1 there in
      let walk : unlink_walk (suc (length tab)) tab i head ≡ p =
        ap (unlink_walk (suc (length tab)) tab i) c.0 in
      rw
        (
          unlink_later tab head i p (λ f. ne (sym f ∙ c.0)) walk (omega (arith, t.valid)),
          remove_ne i j js ne,
        )
        (
          c.0,
          omega (arith, length-set tab p (record (at tab p) { next = (at tab i).next }), c.1),
          c.2,
          t.chain,
        )
]
