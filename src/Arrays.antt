-- ===== src/Arrays.antt =====
-- The linked list of kernel/kernel/array.c and kernel/include/kernel/array.h. A node stands at an
-- address, 0 for NULL; the code does not test for it where it follows a link, and address 0 is
-- memory like any other. `freed` has what `kfree` was called with, the latest first.
pub mod Insert
pub mod Links
pub mod Delete
pub mod Refine
pub mod Grow
pub mod Clear
pub mod Tree
mod Tests
use comet_os.Base.{
  ℕ, zero, suc, ◌+◌, ◌-◌, ◌%◌, ◌^◌, List, [], ◌∷◌, Option, none, some, Bool, true, false, ◌==◌,
  ◌!=◌, ◌&&◌, ltb, u32, sub32, if◌then◌else◌,
}

pub record Node : Type 0 where
  pub next : ℕ
  pub prev : ℕ
  pub value : ℕ

pub record Array : Type 0 where
  pub nodes : ℕ → Node
  pub start : ℕ
  pub end : ℕ
  pub size : ℕ
  pub freed : List ℕ

-- What `array_create` sets; the nodes are the memory as it is.
pub create : (ℕ → Node) → Array
create nodes = record { nodes = nodes; start = 0; end = 0; size = 0; freed = [] }

pub set_next : ℕ → ℕ → (ℕ → Node) → ℕ → Node
set_next at next nodes a = if a == at then record (nodes a) { next = next } else nodes a

pub set_prev : ℕ → ℕ → (ℕ → Node) → ℕ → Node
set_prev at prev nodes a = if a == at then record (nodes a) { prev = prev } else nodes a

pub node_insert : ℕ → Array → Array
unfolding set_next set_prev
node_insert node a =
    let linked =
      if a.end == 0
      then record a { start = node }
      else record a { nodes = set_prev node a.end (set_next a.end node a.nodes) } in
    record linked { end = node; size = u32 (a.size + 1) }

-- The loop of `array_node_find`: `i` goes from 0 to `size`, so that there are `size + 1` rounds.
find_from : ℕ → ℕ → ℕ → Array → ℕ
find_from zero value node a = 0
find_from (suc n) value node a =
    if (a.nodes node).value == value then node else find_from n value (a.nodes node).next a

pub node_find : ℕ → Array → ℕ
unfolding find_from
node_find value a = if a.start == 0 then 0 else find_from (a.size + 1) value a.start a

-- The three tests of `array_node_delete` in turn.
unlink_end : ℕ → Array → Array
unfolding set_next
unlink_end node a =
    if node == a.end
    then (if a.start == node
        then record a { end = 0 }
        else record a { nodes = set_next (a.nodes node).prev 0 a.nodes; end = (a.nodes node).prev })
    else a

unlink_start : ℕ → Array → Array
unlink_start node a = if node == a.start then record a { start = (a.nodes node).next } else a

unlink_middle : ℕ → Array → Array
unfolding set_next set_prev
unlink_middle node a =
    if (node != a.end) && (node != a.start)
    then (let nodes1 = set_next (a.nodes node).prev (a.nodes node).next a.nodes in
        record a { nodes = set_prev (nodes1 node).next (nodes1 node).prev nodes1 })
    else a

pub node_delete : ℕ → Array → Array
unfolding unlink_end unlink_start unlink_middle
node_delete node a =
    let b = unlink_middle node (unlink_start node (unlink_end node a)) in
    record b { freed = node ∷ b.freed; size = sub32 b.size 1 }

-- The loop of `array_clear`; `none` is the want of fuel.
clear_from : ℕ → ℕ → Array → Option Array
unfolding node_delete
clear_from zero node a = none
clear_from (suc f) node a =
    let rest = clear_from f (a.nodes node).next (node_delete node a) in
    if node == 0 then some a else rest

pub clear : ℕ → Array → Option Array
unfolding clear_from
clear fuel a = clear_from fuel a.start a

pub pop : Array → ℕ × Array
unfolding node_delete
pop a = if a.end == 0 then (0, a) else (a.end, node_delete a.end a)

-- `array_delete` of the list whose struct stands at `at`; the struct is freed last.
pub delete : ℕ → ℕ → Array → Option Array
unfolding clear
delete fuel at a = elim (clear fuel a) [
  | none ↦ none
  | some b ↦ some (record b { freed = at ∷ b.freed })
]
