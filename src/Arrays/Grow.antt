-- ===== src/Arrays/Grow.antt =====
-- `array_create`, `array_node_insert` and `array_pop` of kernel/kernel/array.c on well-formed lists.
use mathlib.Core.Path.{subst}
use comet_os.Base.{
  ℕ, ◌+◌, ◌<◌, ◌^◌, ◌≡◌, ◌≢◌, refl, sym, ◌∙◌, arith, List, [], ◌∷◌, ◌++◌, ◌==◌, true, false, u32,
  append-nil,
}
use comet_os.Arrays.{Node, Array, create, set_next, set_prev, node_insert, node_delete, pop}
use comet_os.Arrays.Insert.{Fresh, last_of, count}
use comet_os.Arrays.Links.{Linked, Distinct, Fresh-join, last_of_apart, last_of-append}
use comet_os.Arrays.Refine.{IsArray, Linked-Fresh, count-append, node_used, node_delete-IsArray}

pub create-IsArray : (nodes : ℕ → Node) → IsArray [] (create nodes)
unfolding create Linked Distinct last_of
create-IsArray nodes = record {
  linked = refl;
  distinct = tt;
  end = refl;
  size = refl;
  bounded = omega arith;
}

module _ (m : ℕ → Node) (node : ℕ) where
  -- The memory once the node stands behind `last`.
  abbrev behind : ℕ → ℕ → Node
  behind last = set_prev node last (set_next last node m)

  snoc-Linked :
      (xs : List ℕ) (x before at : ℕ)
      → Linked m before at (x ∷ xs)
      → Distinct (x ∷ xs)
      → Fresh node (x ∷ xs)
      → node ≢ 0
      → (m node).next ≡ 0
      → Linked (behind (last_of x xs)) before at ((x ∷ xs) ++ node ∷ [])
  unfolding Linked Distinct Fresh last_of set_prev set_next
  snoc-Linked [] x before at (here, used, back, l) d (ne, f) nz z =
      (here, used, ground arith, (ground arith, nz, ground arith, ground arith))
  snoc-Linked (y ∷ xs) x before at (here, used, back, l) ((other, fx), d) (ne, f) nz z =
      let apart = last_of_apart xs y x other fx in
      let same : (behind (last_of y xs) x).next ≡ (m x).next = ground arith in
      (
        here,
        used,
        ground arith,
        subst (λ s. Linked (behind (last_of y xs)) x s ((y ∷ xs) ++ node ∷ [])) (sym same)
            (snoc-Linked xs y x (m x).next l d f nz z),
      )

Distinct-snoc : (xs : List ℕ) (node : ℕ) → Distinct xs → Fresh node xs → Distinct (xs ++ node ∷ [])
unfolding Distinct Fresh
Distinct-snoc [] node d f = (tt, tt)
Distinct-snoc (x ∷ xs) node (fx, d) (ne, f) =
    (Fresh-join x xs (node ∷ []) fx ((λ e. ne (sym e)), tt), Distinct-snoc xs node d f)

Linked-Fresh-head : (x : ℕ) (xs : List ℕ) (m : ℕ → Node) (at : ℕ) → Linked m 0 at (x ∷ xs) → x ≢ 0
unfolding Linked
Linked-Fresh-head x xs m at l = l.1

Fresh-tail : (x : ℕ) (xs : List ℕ) → Fresh 0 (x ∷ xs) → Fresh 0 xs
unfolding Fresh
Fresh-tail x xs f = f.1

-- `array_node_insert` of a node that is not in the list and leads nowhere puts it behind the others,
-- where the number of nodes stays below 2 ^ 32.
pub node_insert-IsArray :
    (xs : List ℕ) (node : ℕ) (a : Array)
    → IsArray xs a
    → Fresh node xs
    → node ≢ 0
    → (a.nodes node).next ≡ 0
    → (a.nodes node).prev ≡ 0
    → count xs + 1 < 2 ^ 32
    → IsArray (xs ++ node ∷ []) (node_insert node a)
unfolding node_insert
node_insert-IsArray [] node a is f nz next prev room =
    let ended : a.end ≡ 0 = unfold last_of in is.end in
    let none_yet : (a.end == 0) ≡ true = ground arith in
    let made : node_insert node a ≡ record a { start = node; end = node; size = u32 (a.size + 1) } =
      rw (node_insert, none_yet) refl in
    subst (IsArray (node ∷ [])) (sym made) (record {
      linked = unfold Linked in (refl, nz, prev, next);
      distinct = unfold Distinct Fresh in (tt, tt);
      end = unfold last_of in refl;
      size = omega (arith, is.size);
      bounded = omega arith;
    })
node_insert-IsArray (x ∷ xs) node a is f nz next prev room =
    let number = count-append xs (node ∷ []) in
    let ended : a.end ≡ last_of x xs = unfold last_of in is.end in
    let used : a.end ≢ 0 = λ e.
      last_of_apart xs x 0 (λ z. Linked-Fresh-head x xs a.nodes a.start is.linked z)
        (Fresh-tail x xs (Linked-Fresh (x ∷ xs) a.nodes 0 a.start is.linked)) (sym ended ∙ e) in
    let some_yet : (a.end == 0) ≡ false = ground arith in
    let linked = record a {
      nodes = behind a.nodes node a.end;
      end = node;
      size = u32 (a.size + 1);
    } in
    let made : node_insert node a ≡ linked = rw (node_insert, some_yet) refl in
    subst (IsArray ((x ∷ xs) ++ node ∷ [])) (sym made) (record {
      linked =
          subst (λ e. Linked (behind a.nodes node e) 0 a.start ((x ∷ xs) ++ node ∷ [])) (sym ended)
            (snoc-Linked a.nodes node xs x 0 a.start is.linked is.distinct f nz next);
      distinct = Distinct-snoc (x ∷ xs) node is.distinct f;
      end = sym (last_of-append (x ∷ xs) [] 0 node ∙ unfold last_of in refl);
      size = omega (arith, is.size, number);
      bounded = omega (arith, number);
    })

-- `array_pop` takes the last node off the list, and frees it.
pub pop-IsArray :
    (xs : List ℕ) (node : ℕ) (a : Array)
    → IsArray (xs ++ node ∷ []) a
    → ((pop a).0 ≡ node) × IsArray xs (pop a).1 × ((pop a).1.freed ≡ node ∷ a.freed)
unfolding pop
pop-IsArray xs node a is =
    let ended : a.end ≡ node = is.end ∙ last_of-append xs [] 0 node ∙ unfold last_of in refl in
    let used = node_used xs [] a.nodes 0 a.start node is.linked in
    let some_yet : (a.end == 0) ≡ false = ground arith in
    let (rest, freed, values) = node_delete-IsArray xs node [] a is in
    let made : pop a ≡ (node, node_delete node a) = rw (pop, some_yet, ended) refl in
    subst (λ r. (r.0 ≡ node) × IsArray xs r.1 × (r.1.freed ≡ node ∷ a.freed)) (sym made)
      (refl, subst (λ l. IsArray l (node_delete node a)) (append-nil xs) rest, freed)
