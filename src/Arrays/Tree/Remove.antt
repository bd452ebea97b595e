-- ===== src/Arrays/Tree/Remove.antt =====
-- What `tree_node_delete` of kernel/kernel/array.c frees, and what it leaves.
use comet_os.Base.{
  Bool-cases, ℕ, suc, ◌≡◌, ◌≢◌, inl, inr, refl, ap, arith, List, [], ◌∷◌, ◌==◌, ◌!=◌, ◌||◌, true,
  false, some, if◌then◌else◌, sub32,
}
use comet_os.Arrays.Links.{Linked}
use comet_os.Arrays.Refine.{IsArray}
use comet_os.Arrays.Clear.{freed_after, delete-IsArray}
use comet_os.Arrays.Tree.{
  Tree, array_at, put_array, freeing, move_children, delete_list, drop_children, tree_node_delete,
}
use comet_os.Arrays.Tree.Children.{HasChildren}

-- What is freed of a node with the list nodes `xs` as children, before the node itself.
abbrev pub parts_freed : ℕ → Tree → List ℕ → List ℕ
parts_freed node t (x ∷ xs) = t.freed
parts_freed node t [] =
    if (t.tree_nodes node).children == 0
    then t.freed
    else (t.tree_nodes node).children
      ∷ (if (t.tree_nodes node).value == 0 then t.freed else (t.tree_nodes node).value ∷ t.freed)

-- `t` and `r` agree in all but the lists and what is freed, and this is `freed` of `r`.
abbrev Freed : Tree → Tree → List ℕ → Type 0
Freed t r freed =
    (r.tree_nodes ≡ t.tree_nodes) × (r.size ≡ t.size) × (r.root ≡ t.root) × (r.freed ≡ freed)

delete_list-empty :
    (f at : ℕ) (t : Tree)
    → IsArray [] (array_at at t)
    → (r : Tree) × (delete_list (suc f) at t ≡ some r) × Freed t r (at ∷ t.freed)
unfolding delete_list freed_after
delete_list-empty f at t is =
    let (a, made, empty, freed) = delete-IsArray [] (suc f) at (array_at at t) is (omega arith) in
    (put_array at a t, rw (delete_list, made) refl, (refl, refl, refl, freed))

freeing-IsArray :
    (value at : ℕ) (t : Tree)
    → IsArray [] (array_at at t)
    → IsArray [] (array_at at (freeing value t))
freeing-IsArray value at t is = record {
  linked = is.linked;
  distinct = is.distinct;
  end = is.end;
  size = is.size;
  bounded = is.bounded;
}

move_children-none :
    (f child parent : ℕ) (t : Tree) → child ≡ 0 → move_children (suc f) child parent t ≡ some t
unfolding move_children
move_children-none f child parent t e = ground arith

-- An empty list of children, with the value of the node.
drop_children-empty :
    (f node : ℕ) (t : Tree)
    → (t.tree_nodes node).children ≢ 0
    → IsArray [] (array_at (t.tree_nodes node).children t)
    → (r : Tree) × (drop_children (suc f) node t ≡ some r) × Freed t r (parts_freed node t [])
unfolding drop_children
drop_children-empty f node t some_list is =
    let at = (t.tree_nodes node).children in
    let value = (t.tree_nodes node).value in
    let none_left =
      move_children-none f (t.headers at).start (t.tree_nodes node).parent t
        (unfold Linked in is.linked) in
    let list : (at == 0) ≡ false = ground arith in
    elim (Bool-cases (value == 0)) [
      | inl nothing ↦
          let kept : (value != 0) ≡ false = ground arith in
          let (r, made, rest) = delete_list-empty f at t is in
          (r, rw (drop_children, none_left, kept) made, rw (list, nothing) rest)
      | inr something ↦
          let gone : (value != 0) ≡ true = ground arith in
          let (r, made, rest) =
            delete_list-empty f at (freeing value t) (freeing-IsArray value at t is) in
          (r, rw (drop_children, none_left, gone) made, rw (list, something) rest)
    ]

-- The end of `tree_node_delete`, and the test at its start.
abbrev removed : ℕ → Tree → Tree
removed node t = record (freeing node t) { size = sub32 t.size 1 }

alive : (node : ℕ) (t : Tree) → node ≢ 0 → t.root ≢ 0 → ((node == 0) || (t.root == 0)) ≡ false
alive node t nz rooted = ground arith

-- `tree_node_delete` ends for a node of a tree that is not empty, with any fuel. It changes no tree
-- node, so that the children keep the deleted node as their parent; it frees the node, and before it
-- the value and the list of the children only where this list is there and empty; it does not touch
-- the root, and takes one off the size.
pub tree_node_delete-HasChildren :
    (f node : ℕ) (t : Tree) (xs : List ℕ)
    → node ≢ 0
    → t.root ≢ 0
    → HasChildren t node xs
    → (r : Tree) × (tree_node_delete (suc f) node t ≡ some r)
      × (r.tree_nodes ≡ t.tree_nodes)
      × (r.size ≡ sub32 t.size 1)
      × (r.root ≡ t.root)
      × (r.freed ≡ node ∷ parts_freed node t xs)
unfolding tree_node_delete
tree_node_delete-HasChildren f node t xs nz rooted (inl (none_yet, empty)) =
    let no_list : ((t.tree_nodes node).children != 0) ≡ false = ground arith in
    let no_test : ((t.tree_nodes node).children == 0) ≡ true = ground arith in
    (
      removed node t,
      rw (tree_node_delete, alive node t nz rooted, no_list) refl,
      refl,
      refl,
      refl,
      rw (empty, no_test) refl,
    )
tree_node_delete-HasChildren f node t [] nz rooted (inr (some_list, is)) =
    let list : ((t.tree_nodes node).children != 0) ≡ true = ground arith in
    let none_in : ((t.headers (t.tree_nodes node).children).size == 0) ≡ true =
      let e = is.size in ground arith in
    let (r, made, (nodes, size, root, freed)) = drop_children-empty f node t some_list is in
    (
      removed node r,
      rw (tree_node_delete, alive node t nz rooted, list, none_in, made) refl,
      nodes,
      ap (λ s. sub32 s 1) size,
      root,
      ap (λ l. node ∷ l) freed,
    )
tree_node_delete-HasChildren f node t (x ∷ xs) nz rooted (inr (some_list, is)) =
    let list : ((t.tree_nodes node).children != 0) ≡ true = ground arith in
    let some_in : ((t.headers (t.tree_nodes node).children).size == 0) ≡ false =
      let e = is.size in ground arith in
    (
      removed node t,
      rw (tree_node_delete, alive node t nz rooted, list, some_in) refl,
      refl,
      refl,
      refl,
      refl,
    )
