-- ===== src/ReCore/Linked.antt =====
-- Libraries/RECore/REList.h: a linked list over nodes on the heap. `fault` is a read through a null
-- pointer or of a node that was deleted.
pub mod Dangling
pub mod Chain
pub mod Owned
pub mod Kept
pub mod Removed
pub mod Iterators
use universal_symbols.Prelude.{
  ℕ, zero, suc, ◌+◌, Bool, true, false, not, Option, none, some, ◌==◌, if◌then◌else◌, length,
}
use universal_symbols.Prelude.Map.{Map, find, put, erase_if}

pub record Node (T : Type 0) : Type 0 where
  pub value : T
  pub next : Option ℕ

-- `fresh` is the address of the next node.
pub record Linked (T : Type 0) : Type 0 where
  pub head : Option ℕ
  pub nodes : Map (Node T)
  pub fresh : ℕ

-- How an operation ends. The loops take at most one step for each node where the list ends.
pub data Walk (A : Type 0) : Type 0 where
  arrived : A → Walk A
  fault : Walk A
  out_of_fuel : Walk A

infixl 5 ◌and_then◌
abbrev pub ◌and_then◌ : {A B : Type 0} → Walk A → (A → Walk B) → Walk B
Walk.arrived a and_then f = f a
Walk.fault and_then f = Walk.fault
Walk.out_of_fuel and_then f = Walk.out_of_fuel

module _ {T : Type 0} where
  unfoldable pub load : Option ℕ → Linked T → Walk (Node T)
  load none l = Walk.fault
  load (some at) l = elim (find at l.nodes) [ none ↦ Walk.fault | some n ↦ Walk.arrived n ]

  abbrev pub steps : Linked T → ℕ
  steps l = suc (length l.nodes)

  -- The address of the last node.
  unfoldable pub last_node : ℕ → ℕ → Linked T → Walk ℕ
  unfolding load
  last_node zero at l = Walk.out_of_fuel
  last_node (suc fuel) at l = load (some at) l and_then λ n. elim n.next [
    | none ↦ Walk.arrived at
    | some next ↦ last_node fuel next l
  ]

  unfoldable pub get_last : Linked T → Walk T
  unfolding load last_node
  get_last l = elim l.head [
    | none ↦ Walk.fault
    | some at ↦ last_node (steps l) at l and_then λ last.
        load (some last) l and_then λ n. Walk.arrived n.value
  ]

  -- `new Node(aValue)`
  unfoldable pub allocate : T → Linked T → Linked T
  allocate v l = record l {
    nodes = put l.fresh (record { value = v; next = none }) l.nodes;
    fresh = l.fresh + 1;
  }

  unfoldable pub insert : T → Linked T → Walk (Linked T)
  unfolding load last_node allocate
  insert v l = elim l.head [
    | none ↦ Walk.arrived (record (allocate v l) { head = some l.fresh })
    | some at ↦ last_node (steps l) at l and_then λ last. load (some last) l and_then λ n.
        let grown = allocate v l in
        Walk.arrived
          (record grown { nodes = put last (record n { next = some l.fresh }) grown.nodes })
  ]

  -- The node of the value and the one before it. `equal` is the equality of the elements.
  unfoldable pub seek_value :
      (T → T → Bool) → ℕ → T → Option ℕ → Option ℕ → Linked T → Walk (Option ℕ × Option ℕ)
  unfolding load
  seek_value equal zero v previous current l = Walk.out_of_fuel
  seek_value equal (suc fuel) v previous current l = load current l and_then λ n.
      elim (equal n.value v) [
        | true ↦ Walk.arrived (previous, current)
        | false ↦ seek_value equal fuel v current n.next l
      ]

  unfoldable pub delete : Option ℕ → Linked T → Linked T
  delete none l = l
  delete (some at) l = record l { nodes = erase_if (λ k n. k == at) l.nodes }

  -- The node before it is linked to the node behind it; the head stays as it is.
  unfoldable pub link : Option ℕ → Option ℕ → Linked T → Walk (Linked T)
  unfolding load
  link none next l = Walk.arrived l
  link (some at) next l = load (some at) l and_then λ n.
      Walk.arrived (record l { nodes = put at (record n { next = next }) l.nodes })

  unfoldable pub remove : (T → T → Bool) → T → Linked T → Walk (Linked T)
  unfolding seek_value link delete load
  remove equal v l = elim l.head [
    | none ↦ Walk.arrived l
    | some at ↦ seek_value equal (steps l) v none (some at) l and_then λ found.
        load found.1 l and_then λ n.
        link found.0 n.next l and_then λ l1. Walk.arrived (delete found.1 l1)
  ]

  unfoldable pub clear_from : ℕ → Option ℕ → Linked T → Walk (Linked T)
  unfolding load delete
  clear_from fuel none l = Walk.arrived l
  clear_from zero (some at) l = Walk.out_of_fuel
  clear_from (suc fuel) (some at) l =
      load (some at) l and_then λ n. clear_from fuel n.next (delete (some at) l)

  unfoldable pub clear : Linked T → Walk (Linked T)
  unfolding clear_from
  clear l = clear_from (steps l) l.head l and_then λ l1. Walk.arrived (record l1 { head = none })

  unfoldable pub is_empty : Linked T → Bool
  is_empty l = elim l.head [ none ↦ true | some at ↦ false ]

  unfoldable pub size_from : ℕ → Option ℕ → Linked T → Walk ℕ
  unfolding load
  size_from fuel none l = Walk.arrived 0
  size_from zero (some at) l = Walk.out_of_fuel
  size_from (suc fuel) (some at) l = load (some at) l and_then λ n.
      size_from fuel n.next l and_then λ size. Walk.arrived (size + 1)

  unfoldable pub get_size : Linked T → Walk ℕ
  unfolding size_from
  get_size l = size_from (steps l) l.head l
