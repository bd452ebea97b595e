-- ===== src/Arrays/Tree.antt =====
-- The tree of kernel/kernel/array.c. A node's children are a list of Arrays, whose nodes have the
-- children as values; all of them share one memory, and `freed` has what `kfree` was called with, the
-- latest first. The addresses that `kmalloc` returns are arguments.
pub mod Children
pub mod Remove
mod Tests
use comet_os.Base.{
  ℕ, zero, suc, ◌+◌, ◌-◌, ◌^◌, List, [], ◌∷◌, Option, none, some, Bool, true, false, ◌==◌, ◌!=◌,
  ◌&&◌, ◌||◌, u32, sub32, if◌then◌else◌,
}
use comet_os.Arrays.{Node, Array, node_insert, delete}

pub record TreeNode : Type 0 where
  pub value : ℕ
  pub children : ℕ
  pub parent : ℕ

pub record Header : Type 0 where
  pub start : ℕ
  pub end : ℕ
  pub size : ℕ

-- The memory with the tree: its nodes, the nodes of the lists and their structs, and the struct of
-- the tree itself.
pub record Tree : Type 0 where
  pub tree_nodes : ℕ → TreeNode
  pub nodes : ℕ → Node
  pub headers : ℕ → Header
  pub root : ℕ
  pub size : ℕ
  pub freed : List ℕ

unfoldable pub create : Tree → Tree
create t = record t { root = 0; size = 0 }

-- The list whose struct stands at `at`, and the memory with a new state of it.
abbrev pub array_at : ℕ → Tree → Array
array_at at t = record {
  nodes = t.nodes;
  start = (t.headers at).start;
  end = (t.headers at).end;
  size = (t.headers at).size;
  freed = t.freed;
}

abbrev pub put_array : ℕ → Array → Tree → Tree
put_array at a t = record t {
  nodes = a.nodes;
  headers =
      λ j. if j == at then record { start = a.start; end = a.end; size = a.size } else t.headers j;
  freed = a.freed;
}

abbrev pub set_parent : ℕ → ℕ → Tree → Tree
set_parent node parent t = record t {
  tree_nodes =
      λ j. if j == node then record (t.tree_nodes j) { parent = parent } else t.tree_nodes j;
}

-- `if(!parent->children) parent->children = array_create();`
unfoldable pub with_children : ℕ → ℕ → Tree → Tree
with_children made_array parent t =
    if (t.tree_nodes parent).children == 0
    then record t {
      tree_nodes = λ j.
          if j == parent then record (t.tree_nodes j) { children = made_array } else t.tree_nodes j;
      headers =
          λ j. if j == made_array then record { start = 0; end = 0; size = 0 } else t.headers j;
    }
    else t

-- The new node of the list gets its value only.
abbrev pub set_value : ℕ → ℕ → Tree → Tree
set_value item value t = record t {
  nodes = λ j. if j == item then record (t.nodes j) { value = value } else t.nodes j;
}

unfoldable pub append_child : ℕ → ℕ → ℕ → Tree → Tree
append_child item node parent t =
    let t1 = set_parent node parent (set_value item node t) in
    let at = (t1.tree_nodes parent).children in
    let t2 = put_array at (node_insert item (array_at at t1)) t1 in
    record t2 { size = u32 (t2.size + 1) }

unfoldable pub tree_node_insert : ℕ → ℕ → ℕ → ℕ → Tree → Tree
unfolding with_children append_child
tree_node_insert made_array item node parent t =
    if node == 0
    then t
    else if parent == 0
    then record t { root = node }
    else append_child item node parent (with_children made_array parent t)

-- `array_foreach` over the children, which get another parent; `none` is the want of fuel.
unfoldable pub move_children : ℕ → ℕ → ℕ → Tree → Option Tree
move_children zero child parent t = none
move_children (suc f) child parent t =
    let rest =
      move_children f (t.nodes child).next parent (set_parent (t.nodes child).value parent t) in
    if child == 0 then some t else rest

abbrev pub freeing : ℕ → Tree → Tree
freeing address t = record t { freed = address ∷ t.freed }

-- The list of the children is deleted.
unfoldable pub delete_list : ℕ → ℕ → Tree → Option Tree
delete_list fuel at t = elim (delete fuel at (array_at at t)) [
  | none ↦ none
  | some a ↦ some (put_array at a t)
]

-- The block behind the test of the children.
unfoldable pub drop_children : ℕ → ℕ → Tree → Option Tree
unfolding move_children delete_list
drop_children fuel node t =
    let at = (t.tree_nodes node).children in
    elim (move_children fuel (t.headers at).start (t.tree_nodes node).parent t) [
      | none ↦ none
      | some moved ↦ delete_list fuel at (
          if (moved.tree_nodes node).value != 0
          then freeing (moved.tree_nodes node).value moved
          else moved)
    ]

unfoldable pub tree_node_delete : ℕ → ℕ → Tree → Option Tree
unfolding drop_children
tree_node_delete fuel node t =
    let at = (t.tree_nodes node).children in
    let empty = (at != 0) && ((t.headers at).size == 0) in
    if (node == 0) || (t.root == 0)
    then some t
    else elim (if empty then drop_children fuel node t else some t) [
      | none ↦ none
      | some rest ↦ some (record (freeing node rest) { size = sub32 rest.size 1 })
    ]

unfoldable pub tree_clear : ℕ → Tree → Option Tree
unfolding tree_node_delete
tree_clear fuel t = tree_node_delete fuel t.root t

-- `tree_delete` of the tree whose struct stands at `at`.
unfoldable pub tree_delete : ℕ → ℕ → Tree → Option Tree
unfolding tree_clear
tree_delete fuel at t = elim (tree_clear fuel t) [
  | none ↦ none
  | some rest ↦ some (freeing at rest)
]
