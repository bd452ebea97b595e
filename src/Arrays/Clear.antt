-- ===== src/Arrays/Clear.antt =====
-- `array_clear` and `array_delete` of kernel/kernel/array.c on well-formed lists.
use comet_os.Base.{ℕ, zero, suc, ◌<◌, ◌≡◌, refl, ap, ◌∙◌, arith, List, [], ◌∷◌, ◌==◌, false, some}
use comet_os.Arrays.{Node, Array, node_delete, clear_from, clear, delete}
use comet_os.Arrays.Insert.{count}
use comet_os.Arrays.Links.{Linked}
use comet_os.Arrays.Refine.{IsArray, node_used, node_delete-IsArray}

-- The first node, or NULL.
head_of : List ℕ → ℕ
head_of [] = 0
head_of (x ∷ xs) = x

Linked-head_of :
    (xs : List ℕ) (nodes : ℕ → Node) (before at : ℕ) → Linked nodes before at xs → at ≡ head_of xs
unfolding Linked head_of
Linked-head_of [] nodes before at l = l
Linked-head_of (x ∷ xs) nodes before at l = l.0

-- The nodes in the order of their deletion, the latest first.
unfoldable pub freed_after : List ℕ → List ℕ → List ℕ
freed_after [] freed = freed
freed_after (x ∷ xs) freed = freed_after xs (x ∷ freed)

clear_from-IsArray :
    (xs : List ℕ) (f : ℕ) (a : Array)
    → IsArray xs a
    → count xs < f
    → (b : Array) × (clear_from f (head_of xs) a ≡ some b)
      × IsArray [] b
      × (b.freed ≡ freed_after xs a.freed)
      × ((j : ℕ) → (b.nodes j).value ≡ (a.nodes j).value)
unfolding clear_from head_of freed_after
clear_from-IsArray xs zero a is h = absurd (omega arith)
clear_from-IsArray [] (suc f) a is h = (a, refl, is, refl, λ j. refl)
clear_from-IsArray (x ∷ xs) (suc f) a is h =
    let (less, freed, values) = node_delete-IsArray [] x xs a is in
    let (b, made, empty, all, kept) =
      clear_from-IsArray xs f (node_delete x a) less (omega arith) in
    let used : (x == 0) ≡ false =
      let nz = node_used [] xs a.nodes 0 a.start x is.linked in ground arith in
    let next : (a.nodes x).next ≡ head_of xs =
      Linked-head_of xs a.nodes x (a.nodes x).next (unfold Linked in is.linked.3) in
    (
      b,
      rw (clear_from, used, next) made,
      empty,
      all ∙ ap (freed_after xs) freed,
      λ j. kept j ∙ values j,
    )

-- `array_delete` of a well-formed list, with more fuel than it has nodes, ends, leaves an empty list,
-- and has freed each node once, from the first to the last, and then the list.
pub delete-IsArray :
    (xs : List ℕ) (fuel at : ℕ) (a : Array)
    → IsArray xs a
    → count xs < fuel
    → (b : Array) × (delete fuel at a ≡ some b)
      × IsArray [] b
      × (b.freed ≡ at ∷ freed_after xs a.freed)
unfolding delete
delete-IsArray xs fuel at a is h =
    let (b, made, empty, all, kept) = clear_from-IsArray xs fuel a is h in
    let begins = Linked-head_of xs a.nodes 0 a.start is.linked in
    let cleared : clear fuel a ≡ some b =
      (unfold clear in ap (λ s. clear_from fuel s a) begins) ∙ made in
    (
      record b { freed = at ∷ b.freed },
      rw (delete, cleared) refl,
      record {
        linked = empty.linked;
        distinct = empty.distinct;
        end = empty.end;
        size = empty.size;
        bounded = empty.bounded;
      },
      ap (λ l. at ∷ l) all,
    )
