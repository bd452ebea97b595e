-- ===== src/Arrays/Tests.antt =====
-- The list theorems at a list of two nodes.
use comet_os.Base.{ℕ, ◌≡◌, refl, arith, [], ◌∷◌, ◌==◌, if◌then◌else◌}
use comet_os.Arrays.{some, delete, node_delete, Node, Array, node_insert}
use comet_os.Arrays.Insert.{Fresh, last_of}
use comet_os.Arrays.Links.{Linked, Distinct}
use comet_os.Arrays.Refine.{IsArray, node_delete-IsArray}
use comet_os.Arrays.Grow.{node_insert-IsArray}
use comet_os.Arrays.Clear.{freed_after, delete-IsArray}

abbrev memory : ℕ → Node
memory a =
    if a == 16
    then record { next = 32; prev = 0; value = 5 }
    else if a == 32
    then record { next = 0; prev = 16; value = 7 }
    else record { next = 0; prev = 0; value = 9 }

abbrev two : Array
two = record { nodes = memory; start = 16; end = 32; size = 2; freed = [] }

two-IsArray : IsArray (16 ∷ 32 ∷ []) two
unfolding Linked Distinct Fresh last_of
two-IsArray = record {
  linked = (refl, omega arith, refl, (refl, omega arith, refl, refl));
  distinct = ((omega arith, tt), (tt, tt));
  end = refl;
  size = refl;
  bounded = omega arith;
}

new-Fresh : Fresh 48 (16 ∷ 32 ∷ [])
unfolding Fresh
new-Fresh = (omega arith, (omega arith, tt))

node_insert-IsArray_example : IsArray (16 ∷ 32 ∷ 48 ∷ []) (node_insert 48 two)
node_insert-IsArray_example =
    node_insert-IsArray (16 ∷ 32 ∷ []) 48 two two-IsArray new-Fresh (omega arith) refl refl
      (omega arith)

node_delete-IsArray_example :
    IsArray (32 ∷ []) (node_delete 16 two)
    × ((node_delete 16 two).freed ≡ 16 ∷ [])
    × ((j : ℕ) → ((node_delete 16 two).nodes j).value ≡ (memory j).value)
node_delete-IsArray_example = node_delete-IsArray [] 16 (32 ∷ []) two two-IsArray

delete-IsArray_example :
    (b : Array) × (delete 3 8 two ≡ some b)
    × IsArray [] b
    × (b.freed ≡ 8 ∷ freed_after (16 ∷ 32 ∷ []) [])
delete-IsArray_example = delete-IsArray (16 ∷ 32 ∷ []) 3 8 two two-IsArray (omega arith)
