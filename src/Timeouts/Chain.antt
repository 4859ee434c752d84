-- ===== src/Timeouts/Chain.antt =====
-- The list that a table's `next` indices thread, as the indices in their order.
use idem_ip.Base.{ℕ, ◌<◌, ◌≡◌, ◌≢◌, List, [], ◌∷◌, length, set, arith}
use idem_ip.Base.{if◌then◌else◌, ◌==◌, get_or-set_ne, get_or-set_self, length-set}
use idem_ip.Timeouts.{Entry, zero_entry, at, no_slot, before}

-- From `cur` on, the slots are these, and then the list ends.
abbrev pub Chain : List Entry → ℕ → List ℕ → Type 0
Chain tab cur [] = cur ≡ no_slot
Chain tab cur (i ∷ is) = (cur ≡ i) × (i < length tab) × (i < no_slot) × Chain tab (at tab i).next is

abbrev pub NotIn : ℕ → List ℕ → Type 0
NotIn i [] = Unit {0}
NotIn i (j ∷ js) = (i ≢ j) × NotIn i js

abbrev pub Distinct : List ℕ → Type 0
Distinct [] = Unit {0}
Distinct (i ∷ is) = NotIn i is × Distinct is

pub at-set_ne : (tab : List Entry) (q i : ℕ) (e : Entry) → q ≢ i → at (set tab q e) i ≡ at tab i
at-set_ne tab q i e n = get_or-set_ne tab q i e zero_entry n

pub at-set_self : (tab : List Entry) (q : ℕ) (e : Entry) → q < length tab → at (set tab q e) q ≡ e
at-set_self tab q e l = get_or-set_self tab q e zero_entry l

-- A write to a slot that is not on the list leaves the list.
pub Chain-set :
    (tab : List Entry) (q cur : ℕ) (e : Entry) (is : List ℕ)
    → NotIn q is
    → Chain tab cur is
    → Chain (set tab q e) cur is
Chain-set tab q cur e [] n c = c
Chain-set tab q cur e (i ∷ is) n c = (
  c.0,
  omega (arith, c.1, length-set tab q e),
  c.2,
  Chain-set tab q _ e is n.1 (rw (at-set_ne tab q i e n.0) c.3),
)

-- Insertion ahead of the first slot whose deadline the new one precedes.
abbrev pub insert : List Entry → ℕ → ℕ → List ℕ → List ℕ
insert tab deadline i [] = i ∷ []
insert tab deadline i (j ∷ js) =
    let rest = insert tab deadline i js in
    if before deadline (at tab j).deadline_ms then i ∷ j ∷ js else j ∷ rest

abbrev pub remove : ℕ → List ℕ → List ℕ
remove i [] = []
remove i (j ∷ js) = let rest = remove i js in if i == j then js else j ∷ rest
