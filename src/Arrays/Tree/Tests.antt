-- ===== src/Arrays/Tree/Tests.antt =====
-- The tree's theorems at a root with one child.
use comet_os.Base.{ℕ, ◌+◌, ◌≡◌, refl, arith, [], ◌∷◌, some, ◌==◌, inr, if◌then◌else◌, u32, sub32}
use comet_os.Arrays.Insert.{Fresh, last_of}
use comet_os.Arrays.Links.{Linked, Distinct}
use comet_os.Arrays.Tree.{Tree, tree_node_insert, tree_node_delete}
use comet_os.Arrays.Tree.Children.{HasChildren, tree_node_insert-HasChildren}
use comet_os.Arrays.Tree.Remove.{tree_node_delete-HasChildren}

-- The root stands at 16 and its list at 32, whose node at 48 has the child at 64.
abbrev tree : Tree
tree = record {
  tree_nodes = λ j.
      if j == 16
      then record { value = 5; children = 32; parent = 0 }
      else record { value = 6; children = 0; parent = 16 };
  nodes = λ j. record { next = 0; prev = 0; value = if j == 48 then 64 else 0 };
  headers = λ j.
      if j == 32
      then record { start = 48; end = 48; size = 1 }
      else record { start = 0; end = 0; size = 0 };
  root = 16;
  size = 1;
  freed = [];
}

root-HasChildren : HasChildren tree 16 (48 ∷ [])
unfolding Linked Distinct Fresh last_of
root-HasChildren = inr (
  omega arith,
  record {
    linked = (refl, omega arith, refl, refl);
    distinct = (tt, tt);
    end = refl;
    size = refl;
    bounded = omega arith;
  },
)

new-Fresh : Fresh 80 (48 ∷ [])
unfolding Fresh
new-Fresh = (omega arith, tt)

-- A second child at 96.
tree_node_insert-HasChildren_example :
    HasChildren (tree_node_insert 112 80 96 16 tree) 16 (48 ∷ 80 ∷ [])
    × ((j : ℕ)
        → ((tree_node_insert 112 80 96 16 tree).nodes j).value
          ≡ (if j == 80 then 96 else (tree.nodes j).value))
    × (((tree_node_insert 112 80 96 16 tree).tree_nodes 96).parent ≡ 16)
    × ((tree_node_insert 112 80 96 16 tree).size ≡ u32 (1 + 1))
tree_node_insert-HasChildren_example =
    tree_node_insert-HasChildren 112 80 96 16 tree (48 ∷ []) root-HasChildren new-Fresh
      (omega arith) (omega arith) (omega arith) (omega arith) (omega arith) refl refl

-- The root goes, with nothing of its child.
tree_node_delete-HasChildren_example :
    (r : Tree) × (tree_node_delete 1 16 tree ≡ some r)
    × (r.tree_nodes ≡ tree.tree_nodes)
    × (r.size ≡ sub32 1 1)
    × (r.root ≡ 16)
    × (r.freed ≡ 16 ∷ [])
tree_node_delete-HasChildren_example =
    tree_node_delete-HasChildren 0 16 tree (48 ∷ []) (omega arith) (omega arith) root-HasChildren
