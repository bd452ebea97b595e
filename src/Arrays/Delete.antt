-- ===== src/Arrays/Delete.antt =====
-- `array_node_delete` of kernel/kernel/array.c on doubly linked chains.
use comet_os.Base.{ℕ, ◌≡◌, ◌≢◌, refl, sym, ap, ◌∙◌, arith, ◌∷◌, ◌==◌, if◌then◌else◌, sub32}
use comet_os.Arrays.{
  Array, set_next, set_prev, unlink_end, unlink_start, unlink_middle, node_delete,
}

-- What a deletion makes of the fields, where the node is not its own neighbour: its neighbours are
-- linked, also where one of them is NULL.
pub record Unlinked (node : ℕ) (a b : Array) : Type 0 where
  pub nexts :
      (j : ℕ)
      → (b.nodes j).next
        ≡ (if j == (a.nodes node).prev then (a.nodes node).next else (a.nodes j).next)
  pub prevs :
      (j : ℕ)
      → (b.nodes j).prev
        ≡ (if j == (a.nodes node).next then (a.nodes node).prev else (a.nodes j).prev)
  pub values : (j : ℕ) → (b.nodes j).value ≡ (a.nodes j).value
  pub start : b.start ≡ (if node == a.start then (a.nodes node).next else a.start)
  pub end : b.end ≡ (if node == a.end then (a.nodes node).prev else a.end)
  pub size : b.size ≡ sub32 a.size 1
  pub freed : b.freed ≡ node ∷ a.freed

-- The same before the size and the freed node, for each of the three tests.
module _ (node : ℕ) (a : Array) where
  abbrev pub p : ℕ
  p = (a.nodes node).prev

  unlink_end-fields :
      (j : ℕ)
      → (a.start ≡ node → p ≡ 0)
      → (j ≢ p → ((unlink_end node a).nodes j).next ≡ (a.nodes j).next)
        × (((unlink_end node a).nodes j).prev ≡ (a.nodes j).prev)
        × (((unlink_end node a).nodes j).value ≡ (a.nodes j).value)
        × ((unlink_end node a).start ≡ a.start)
        × ((unlink_end node a).end ≡ (if node == a.end then p else a.end))
        × ((unlink_end node a).size ≡ a.size)
        × ((unlink_end node a).freed ≡ a.freed)
  unfolding unlink_end set_next
  unlink_end-fields j first = (
    λ other. ground arith,
    ground arith,
    ground arith,
    ground arith,
    ground arith,
    ground arith,
    ground arith,
  )

  unlink_start-fields :
      ((unlink_start node a).nodes ≡ a.nodes)
      × ((unlink_start node a).start ≡ (if node == a.start then (a.nodes node).next else a.start))
      × ((unlink_start node a).end ≡ a.end)
      × ((unlink_start node a).size ≡ a.size)
      × ((unlink_start node a).freed ≡ a.freed)
  unfolding unlink_start
  unlink_start-fields = (ground arith, ground arith, ground arith, ground arith, ground arith)

  unlink_middle-fields :
      (j : ℕ)
      → node ≢ a.end
      → node ≢ a.start
      → p ≢ node
      → (((unlink_middle node a).nodes j).next
          ≡ (if j == p then (a.nodes node).next else (a.nodes j).next))
        × (((unlink_middle node a).nodes j).prev
            ≡ (if j == (a.nodes node).next then p else (a.nodes j).prev))
        × (((unlink_middle node a).nodes j).value ≡ (a.nodes j).value)
        × ((unlink_middle node a).start ≡ a.start)
        × ((unlink_middle node a).end ≡ a.end)
        × ((unlink_middle node a).size ≡ a.size)
        × ((unlink_middle node a).freed ≡ a.freed)
  unfolding unlink_middle set_next set_prev
  unlink_middle-fields j not_end not_start np = (
    ground arith,
    ground arith,
    ground arith,
    ground arith,
    ground arith,
    ground arith,
    ground arith,
  )

-- The first two tests together.
module _ (node : ℕ) (a : Array) (np : p node a ≢ node) (first : a.start ≡ node → p node a ≡ 0) where
  abbrev ends : Array
  ends = unlink_start node (unlink_end node a)

  ends-fields :
      (j : ℕ)
      → (j ≢ p node a → (ends.nodes j).next ≡ (a.nodes j).next)
        × ((ends.nodes j).prev ≡ (a.nodes j).prev)
        × ((ends.nodes j).value ≡ (a.nodes j).value)
        × (ends.start ≡ (if node == a.start then (a.nodes node).next else a.start))
        × (ends.end ≡ (if node == a.end then p node a else a.end))
        × (ends.size ≡ a.size)
        × (ends.freed ≡ a.freed)
  ends-fields j =
      let (nexts, prevs, values, start, end, size, freed) = unlink_end-fields node a j first in
      let (nodes, start1, end1, size1, freed1) = unlink_start-fields node (unlink_end node a) in
      let own = (unlink_end-fields node a node first).0 (λ e. np (sym e)) in
      (
        λ other. ap (λ f. (f j).next) nodes ∙ nexts other,
        ap (λ f. (f j).prev) nodes ∙ prevs,
        ap (λ f. (f j).value) nodes ∙ values,
        start1 ∙ rw (start, own) refl,
        end1 ∙ end,
        size1 ∙ size,
        freed1 ∙ freed,
      )

  pub node_delete-Unlinked : (a.nodes node).next ≢ node → Unlinked node a (node_delete node a)
  unfolding node_delete
  node_delete-Unlinked nn =
      let own = ends-fields node in
      let p_same : (ends.nodes node).prev ≡ p node a = own.1 in
      let q_same : (ends.nodes node).next ≡ (a.nodes node).next = own.0 (λ e. np (sym e)) in
      let not_end : node ≢ ends.end = let e = own.4 in ground arith in
      let not_start : node ≢ ends.start = let e = own.3 in ground arith in
      let middle = λ (j : ℕ). unlink_middle-fields node ends j not_end not_start (ground arith) in
      record {
        nexts = λ j. ground (arith, middle j, (ends-fields j).0);
        prevs = λ j. ground (arith, middle j, (ends-fields j).1);
        values = λ j. (middle j).2 ∙ (ends-fields j).2;
        start = (middle node).3 ∙ own.3;
        end = (middle node).4 ∙ own.4;
        size = ap (λ s. sub32 s 1) ((middle node).5 ∙ own.5);
        freed = ap (λ s. node ∷ s) ((middle node).6 ∙ own.6);
      }
