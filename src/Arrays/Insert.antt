-- ===== src/Arrays/Insert.antt =====
-- Inserting into and searching the list of kernel/kernel/array.c, against the list of its nodes.
use comet_os.Base.{
  ℕ, zero, suc, ◌+◌, ◌≤◌, ◌<◌, ◌≡◌, ◌≢◌, refl, sym, ap, ◌∙◌, arith, List, [], ◌∷◌, ◌++◌, true,
  false, ◌==◌, u32,
}
use mathlib.Core.Path.{subst}
use comet_os.Arrays.{Node, Array, set_next, set_prev, node_insert, find_from, node_find}

-- The nodes are met in this order from `at` on, and then NULL.
unfoldable pub Chain : (ℕ → Node) → ℕ → List ℕ → Type 0
Chain nodes at [] = at ≡ 0
Chain nodes at (x ∷ xs) = (at ≡ x) × (x ≢ 0) × Chain nodes (nodes x).next xs

unfoldable pub Fresh : ℕ → List ℕ → Type 0
Fresh node [] = Unit {0}
Fresh node (x ∷ xs) = (x ≢ node) × Fresh node xs

unfoldable pub last_of : ℕ → List ℕ → ℕ
last_of x [] = x
last_of x (y ∷ ys) = last_of y ys

-- No node has the value.
unfoldable pub Lacks : (ℕ → Node) → ℕ → List ℕ → Type 0
Lacks nodes value [] = Unit {0}
Lacks nodes value (x ∷ xs) = ((nodes x).value ≢ value) × Lacks nodes value xs

abbrev pub count : List ℕ → ℕ
count [] = 0
count (x ∷ xs) = count xs + 1

find_from_first :
    (before : List ℕ) (n value at y : ℕ) (after : List ℕ) (a : Array)
    → count before < n
    → Chain a.nodes at (before ++ y ∷ after)
    → Lacks a.nodes value before
    → (a.nodes y).value ≡ value
    → find_from n value at a ≡ y
unfolding find_from Chain Lacks
find_from_first [] zero value at y after a h c l e = ground arith
find_from_first [] (suc n) value at y after a h (here, some_node, c) l e =
    let hit : ((a.nodes y).value == value) ≡ true = ground arith in
    subst (λ x. find_from (suc n) value x a ≡ y) (sym here) (rw (find_from, hit) refl)
find_from_first (x ∷ before) zero value at y after a h c l e = ground arith
find_from_first (x ∷ before) (suc n) value at y after a h (here, some_node, c) (other, l) e =
    let miss : ((a.nodes x).value == value) ≡ false = ground arith in
    subst (λ z. find_from (suc n) value z a ≡ y) (sym here)
      (rw (find_from, miss)
        (find_from_first before n value (a.nodes x).next y after a (omega arith) c l e))

-- `array_node_find` returns the first node of the list that has the value, where at most `size`
-- nodes stand before it.
node_find_first :
    (value y : ℕ) (before after : List ℕ) (a : Array)
    → count before ≤ a.size
    → Chain a.nodes a.start (before ++ y ∷ after)
    → Lacks a.nodes value before
    → (a.nodes y).value ≡ value
    → node_find value a ≡ y
unfolding node_find Chain
node_find_first value y before after a h c l e =
    let begun : (a.start == 0) ≡ false = start_used before a.start c in
    let enough : a.size + 1 ≡ suc a.size = omega arith in
    rw (node_find, begun, enough)
      (find_from_first before (suc a.size) value a.start y after a (omega arith) c l e)
  where
    start_used : (xs : List ℕ) (s : ℕ) → Chain a.nodes s (xs ++ y ∷ after) → (s == 0) ≡ false
    start_used [] s (here, used, c) = ground arith
    start_used (x ∷ xs) s (here, used, c) = ground arith

last_next :
    (xs : List ℕ) (x at : ℕ) (nodes : ℕ → Node)
    → Chain nodes at (x ∷ xs)
    → (nodes (last_of x xs)).next ≡ 0
unfolding Chain last_of
last_next [] x at nodes (here, used, c) = c
last_next (y ∷ xs) x at nodes (here, used, c) = last_next xs y (nodes x).next nodes c

last_used : (xs : List ℕ) (x at : ℕ) (nodes : ℕ → Node) → Chain nodes at (x ∷ xs) → last_of x xs ≢ 0
unfolding Chain last_of
last_used [] x at nodes (here, used, c) = used
last_used (y ∷ xs) x at nodes (here, used, c) = last_used xs y (nodes x).next nodes c

-- The chain after both links of the new node are set.
append-Chain :
    (xs : List ℕ) (x at node : ℕ) (nodes : ℕ → Node)
    → Chain nodes at (x ∷ xs)
    → Fresh node (x ∷ xs)
    → node ≢ 0
    → (nodes node).next ≡ 0
    → Chain
        (set_prev node (last_of x xs) (set_next (last_of x xs) node nodes))
        at
        ((x ∷ xs) ++ node ∷ [])
unfolding Chain Fresh last_of set_prev set_next
append-Chain [] x at node nodes (here, used, c) (new, f) nz z =
    (here, used, (ground arith, nz, ground arith))
append-Chain (y ∷ xs) x at node nodes (here, used, c) (new, f) nz z =
    let l = last_of y xs in
    let ended = last_next xs y (nodes x).next nodes c in
    let apart : x ≢ l = λ e. c.1 (sym c.0 ∙ ap (λ w. (nodes w).next) e ∙ ended) in
    let same : (set_prev node l (set_next l node nodes) x).next ≡ (nodes x).next = ground arith in
    (
      here,
      used,
      subst (λ s. Chain (set_prev node l (set_next l node nodes)) s ((y ∷ xs) ++ node ∷ []))
          (sym same) (append-Chain xs y (nodes x).next node nodes c f nz z),
    )

-- For a list whose nodes from `start` on are `xs` and whose `end` is the last of them (NULL for
-- none), and a node that is not in it and has no next node, `array_node_insert` makes the list
-- `xs` with the node behind it, the node its end, linked back to the old end, and the size one more.
node_insert-Chain :
    (xs : List ℕ) (node : ℕ) (a : Array)
    → Chain a.nodes a.start xs
    → a.end ≡ last_of 0 xs
    → Fresh node xs
    → node ≢ 0
    → (a.nodes node).next ≡ 0
    → (a.nodes node).prev ≡ 0
    → Chain (node_insert node a).nodes (node_insert node a).start (xs ++ node ∷ [])
      × ((node_insert node a).end ≡ node)
      × (((node_insert node a).nodes node).prev ≡ a.end)
      × ((node_insert node a).size ≡ u32 (a.size + 1))
unfolding node_insert Chain last_of set_prev set_next
node_insert-Chain [] node a c ends f nz z p =
    let none_yet : (a.end == 0) ≡ true = ground arith in
    rw (node_insert, none_yet) ((refl, nz, z), refl, p ∙ sym ends, refl)
node_insert-Chain (x ∷ xs) node a c ends f nz z p =
    let some_yet : (a.end == 0) ≡ false =
      let last = last_used xs x a.start a.nodes c in ground arith in
    let linked = record a {
      nodes = set_prev node a.end (set_next a.end node a.nodes);
      end = node;
      size = u32 (a.size + 1);
    } in
    let made : node_insert node a ≡ linked = rw (node_insert, some_yet) refl in
    subst
      (λ b.
        Chain b.nodes b.start ((x ∷ xs) ++ node ∷ [])
        × (b.end ≡ node)
        × ((b.nodes node).prev ≡ a.end)
        × (b.size ≡ u32 (a.size + 1)))
      (sym made)
      (
        subst
            (λ l. Chain (set_prev node l (set_next l node a.nodes)) a.start ((x ∷ xs) ++ node ∷ []))
            (sym ends) (append-Chain xs x a.start node a.nodes c f nz z),
        refl,
        ground arith,
        refl,
      )
