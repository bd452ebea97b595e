-- ===== src/Arrays/Tree/Children.antt =====
-- The children of a tree node of kernel/kernel/array.c, as `tree_node_insert` leaves them.
use mathlib.Core.Path.{subst}
use comet_os.Base.{
  ℕ, ◌+◌, ◌<◌, ◌^◌, ◌≡◌, ◌≢◌, ◌⊎◌, inl, inr, refl, sym, ap, ◌∙◌, arith, List, [], ◌∷◌, ◌++◌, ◌==◌,
  false, if◌then◌else◌, u32, ==_refl,
}
use comet_os.Arrays.{Array, node_insert, set_next, set_prev}
use comet_os.Arrays.Insert.{Fresh, count, last_of}
use comet_os.Arrays.Links.{Linked, Distinct, Linked-frame}
use comet_os.Arrays.Refine.{IsArray}
use comet_os.Arrays.Grow.{node_insert-IsArray}
use comet_os.Arrays.Tree.{
  Tree, array_at, put_array, set_parent, set_value, with_children, append_child, tree_node_insert,
}

-- The list of the children has the nodes `xs`; a node without a list has none.
abbrev pub HasChildren : Tree → ℕ → List ℕ → Type 0
HasChildren t parent xs =
    (((t.tree_nodes parent).children ≡ 0) × (xs ≡ []))
    ⊎ (((t.tree_nodes parent).children ≢ 0)
        × IsArray xs (array_at (t.tree_nodes parent).children t))

array_at-put_array : (at : ℕ) (a : Array) (t : Tree) → array_at at (put_array at a t) ≡ a
array_at-put_array at a t = rw (==_refl at) refl

node_insert-value :
    (node : ℕ) (a : Array) (j : ℕ) → ((node_insert node a).nodes j).value ≡ (a.nodes j).value
unfolding node_insert set_next set_prev
node_insert-value node a j = ground arith

set_value-IsArray :
    (item value at : ℕ) (t : Tree) (xs : List ℕ)
    → Fresh item xs
    → IsArray xs (array_at at t)
    → IsArray xs (array_at at (set_value item value t))
set_value-IsArray item value at t xs f is = record {
  linked =
      Linked-frame xs t.nodes (set_value item value t).nodes 0 (t.headers at).start item item
        (λ j ne. ground arith) (λ j ne. ground arith) f f is.linked;
  distinct = is.distinct;
  end = is.end;
  size = is.size;
  bounded = is.bounded;
}

-- Appending to the list that is there.
append_child-IsArray :
    (item node parent : ℕ) (t : Tree) (xs : List ℕ)
    → IsArray xs (array_at (t.tree_nodes parent).children t)
    → Fresh item xs
    → item ≢ 0
    → (t.nodes item).next ≡ 0
    → (t.nodes item).prev ≡ 0
    → count xs + 1 < 2 ^ 32
    → IsArray
        (xs ++ item ∷ [])
        (array_at (t.tree_nodes parent).children (append_child item node parent t))
      × (((append_child item node parent t).tree_nodes parent).children
          ≡ (t.tree_nodes parent).children)
unfolding append_child
append_child-IsArray item node parent t xs is f nz next prev room =
    let t1 = set_parent node parent (set_value item node t) in
    let at = (t1.tree_nodes parent).children in
    let same : at ≡ (t.tree_nodes parent).children = ground arith in
    let before : IsArray xs (array_at at t1) =
      subst (λ s. IsArray xs (array_at s t1)) (sym same)
        (set_value-IsArray item node (t.tree_nodes parent).children t xs f is) in
    let after =
      node_insert-IsArray xs item (array_at at t1) before f nz (ground arith) (ground arith) room in
    let whole : IsArray (xs ++ item ∷ []) (array_at at (append_child item node parent t)) =
      subst (IsArray (xs ++ item ∷ []))
        (sym (array_at-put_array at (node_insert item (array_at at t1)) t1)) after in
    (
      subst (λ s. IsArray (xs ++ item ∷ []) (array_at s (append_child item node parent t))) same
          whole,
      same,
    )

append_child-values :
    (item node parent : ℕ) (t : Tree)
    → ((j : ℕ)
        → ((append_child item node parent t).nodes j).value
          ≡ (if j == item then node else (t.nodes j).value))
      × (((append_child item node parent t).tree_nodes node).parent ≡ parent)
      × ((append_child item node parent t).size ≡ u32 (t.size + 1))
unfolding append_child
append_child-values item node parent t =
    let t1 = set_parent node parent (set_value item node t) in
    let at = (t1.tree_nodes parent).children in
    (λ j. node_insert-value item (array_at at t1) j ∙ ground arith, ground arith, refl)

empty-IsArray : (a : Array) → a.start ≡ 0 → a.end ≡ 0 → a.size ≡ 0 → IsArray [] a
unfolding Linked Distinct last_of
empty-IsArray a start end size = record {
  linked = start;
  distinct = tt;
  end = end;
  size = size;
  bounded = omega arith;
}

-- The list is there, and has the nodes it had.
with_children-IsArray :
    (made_array parent : ℕ) (t : Tree) (xs : List ℕ)
    → made_array ≢ 0
    → HasChildren t parent xs
    → (((with_children made_array parent t).tree_nodes parent).children ≢ 0)
      × IsArray xs (
          array_at
            ((with_children made_array parent t).tree_nodes parent).children
            (with_children made_array parent t))
unfolding with_children
with_children-IsArray made_array parent t xs nz (inl (none_yet, empty)) =
    let made : ((with_children made_array parent t).tree_nodes parent).children ≡ made_array =
      ground arith in
    let t1 = with_children made_array parent t in
    (
      λ e. nz (sym made ∙ e),
      subst (λ l. IsArray l (array_at (t1.tree_nodes parent).children t1)) (sym empty)
          (empty-IsArray (array_at (t1.tree_nodes parent).children t1) (ground arith) (ground arith)
            (ground arith)),
    )
with_children-IsArray made_array parent t xs nz (inr (some_yet, is)) =
    let test : ((t.tree_nodes parent).children == 0) ≡ false = ground arith in
    let same : with_children made_array parent t ≡ t = rw (with_children, test) refl in
    subst
      (λ s.
        ((s.tree_nodes parent).children ≢ 0)
        × IsArray xs (array_at (s.tree_nodes parent).children s))
      (sym same) (some_yet, is)

-- `tree_node_insert` of a node under a parent makes it the last child of that, with the list of the
-- children made if there was none: the list's new node has the tree node as its value, the values of
-- the others stay, the tree node leads to its parent, and the tree counts one more. The new node of
-- the list must come from `kmalloc` with both links NULL.
pub tree_node_insert-HasChildren :
    (made_array item node parent : ℕ) (t : Tree) (xs : List ℕ)
    → HasChildren t parent xs
    → Fresh item xs
    → count xs + 1 < 2 ^ 32
    → made_array ≢ 0
    → item ≢ 0
    → node ≢ 0
    → parent ≢ 0
    → (t.nodes item).next ≡ 0
    → (t.nodes item).prev ≡ 0
    → HasChildren (tree_node_insert made_array item node parent t) parent (xs ++ item ∷ [])
      × ((j : ℕ)
          → ((tree_node_insert made_array item node parent t).nodes j).value
            ≡ (if j == item then node else (t.nodes j).value))
      × (((tree_node_insert made_array item node parent t).tree_nodes node).parent ≡ parent)
      × ((tree_node_insert made_array item node parent t).size ≡ u32 (t.size + 1))
unfolding tree_node_insert
tree_node_insert-HasChildren made_array item node parent t xs has f room nz_array nz_item nz
      nz_parent next prev =
    let t1 = with_children made_array parent t in
    let not_null : (node == 0) ≡ false = ground arith in
    let below : (parent == 0) ≡ false = ground arith in
    let made : tree_node_insert made_array item node parent t ≡ append_child item node parent t1 =
      rw (tree_node_insert, not_null, below) refl in
    let kept : (t1.nodes ≡ t.nodes) × (t1.size ≡ t.size) =
      unfold with_children in (ground arith, ground arith) in
    let (there, is) = with_children-IsArray made_array parent t xs nz_array has in
    let (chain, same) =
      append_child-IsArray item node parent t1 xs is f nz_item
        (ap (λ m. (m item).next) kept.0 ∙ next) (ap (λ m. (m item).prev) kept.0 ∙ prev) room in
    let (values, back, size) = append_child-values item node parent t1 in
    subst
      (λ s.
        HasChildren s parent (xs ++ item ∷ [])
        × ((j : ℕ) → (s.nodes j).value ≡ (if j == item then node else (t.nodes j).value))
        × ((s.tree_nodes node).parent ≡ parent)
        × (s.size ≡ u32 (t.size + 1)))
      (sym made)
      (
        inr (
          λ e. there (sym same ∙ e),
          subst (λ s. IsArray (xs ++ item ∷ []) (array_at s (append_child item node parent t1)))
              (sym same) chain,
        ),
        λ j. values j ∙ ap (λ m. if j == item then node else (m j).value) kept.0,
        back,
        size ∙ ap (λ n. u32 (n + 1)) kept.1,
      )
