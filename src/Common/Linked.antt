-- ===== src/Common/Linked.antt =====
-- `std::list` with stable iterators: a node is an address with its element, and an iterator is an
-- address. `fresh` is an address that no node has had. `none` is the use of a dangling iterator.
pub mod Laws
pub mod Shape
use Prim.Native.Nat.{ℕ, ◌+◌}
use mathlib.Core.Path.{◌≡◌}
use mathlib.Core.Logic.{ite}
use mathlib.Core.Option
use mathlib.Core.Option.{Option, none, some}
use mathlib.Core.List.{List, [], ◌∷◌, map}
use native.Mathlib.Decide.{ℕ_discrete}

abbrev pub Nodes {ℓ} : Type ℓ → Type ℓ
Nodes A = List (ℕ × A)

pub record Linked {ℓ} (A : Type ℓ) : Type ℓ where
  pub nodes : Nodes A
  pub fresh : ℕ

abbrev pub no_nodes {ℓ} : {A : Type ℓ} → Linked A
no_nodes = record { nodes = []; fresh = 0 }

module _ {ℓ} {A : Type ℓ} where
  -- `*it`
  unfoldable pub at? : ℕ → Nodes A → Option A
  at? it [] = none
  at? it ((i, a) ∷ ns) = ite (ℕ_discrete i it) (some a) (at? it ns)

  -- `l.erase(it)`
  unfoldable pub remove_at : ℕ → Nodes A → Nodes A
  remove_at it [] = []
  remove_at it ((i, a) ∷ ns) = ite (ℕ_discrete i it) ns ((i, a) ∷ remove_at it ns)

  -- `*it = a`
  unfoldable pub write_at : ℕ → A → Nodes A → Nodes A
  write_at it b [] = []
  write_at it b ((i, a) ∷ ns) = ite (ℕ_discrete i it) ((i, b) ∷ ns) ((i, a) ∷ write_at it b ns)

  -- `l.push_front(a)`; the new node's address is the old `fresh`.
  abbrev pub push_front : A → Linked A → Linked A
  push_front a l = record { nodes = (l.fresh, a) ∷ l.nodes; fresh = l.fresh + 1 }

  -- `l.splice(l.begin(), l, it)`: the node moves to the front and keeps its address.
  unfoldable pub splice_front : ℕ → Linked A → Option (Linked A)
  unfolding at? remove_at
  splice_front it l =
      Option.map (λ a. record l { nodes = (it, a) ∷ remove_at it l.nodes }) (at? it l.nodes)

  abbrev pub values : Nodes A → List A
  values = map (λ n. n.1)

  abbrev pub addresses : Nodes A → List ℕ
  addresses = map (λ n. n.0)
