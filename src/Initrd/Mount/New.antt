-- ===== src/Initrd/Mount/New.antt =====
-- The node that `initrd_finddir` of kernel/kernel/fs/initrd.c makes for `vfs_finddir`.
use mathlib.Core.Path.{subst}
use comet_os.Base.{
  ap, if◌then◌else◌, sym, ℕ, ◌+◌, ◌≡◌, ◌≢◌, refl, ◌∙◌, arith, Option, some, none, ◌==◌,
  Option-cases, inl, inr,
}
use comet_os.Kmalloc.{Liballoc, kmalloc}
use comet_os.Libc.Mem.{Bytes}
use comet_os.Ext2.{inode_get, inodeblock_get}
use comet_os.Initrd.{
  fill_node, search_dir, make_node, Operations, Node, initrd_finddir, search_dir, search_index,
  made_or_null, make_node, fill_node,
}
use comet_os.Initrd.Mount.{there, node_made, Mounted, call_finddir}

abbrev Same : Option (Option (Node × Bytes)) → Option (Option (Node × Bytes)) → Type 0
Same x y = x ≡ y

-- What `initrd_finddir` returns as a new node.
unfoldable pub IsNew : Operations → ℕ → Node → Type 0
IsNew o made n = (n.file.address ≡ made) × (n.file.read ≡ o.read_at) × (n.file.write ≡ 0)

-- A node has been added at an address that is not NULL.
unfoldable pub Added : {L : Type 0} → Operations → ℕ → Mounted L → Mounted L → Type 0
unfolding IsNew
Added ops made s t =
    IsNew ops made (t.nodes made)
    × (t.superblock ≡ s.superblock)
    × ((a : ℕ) → a ≢ made → t.nodes a ≡ s.nodes a)

abbrev pub Result : Type 0 → Type 0
Result L = Option (ℕ × Mounted L)

abbrev pub or_else : {L : Type 0} → Result L → ℕ × Mounted L → ℕ × Mounted L
or_else none d = d
or_else (some x) d = x

abbrev pub SameResult : {L : Type 0} → Result L → Result L → Type 0
SameResult x y = x ≡ y

module _ {L : Type 0} (lib : Liballoc L) (ops : Operations) where
  make_node-IsNew :
      (fuel ent made sb : ℕ) (m m' : Bytes) (n : Node)
      → make_node fuel ops ent made sb m ≡ some (some (n, m'))
      → IsNew ops made n
  unfolding make_node fill_node IsNew
  make_node-IsNew fuel ent made sb m m' n e = (ground arith, ground arith, ground arith)

  made_or_null-IsNew :
      (fuel block made sb : ℕ) (found : Option ℕ) (m m' : Bytes) (n : Node)
      → made_or_null fuel ops block made sb m found ≡ some (some (n, m'))
      → IsNew ops made n
  unfolding made_or_null
  made_or_null-IsNew fuel block made sb none m m' n e =
      absurd (let null : Same (some none) (some (some (n, m'))) = e in cc)
  made_or_null-IsNew fuel block made sb (some index) m m' n e =
      make_node-IsNew fuel (block + index) made sb m m' n e

  initrd_finddir-IsNew :
      (fuel name made sb : ℕ) (dir n : Node) (m m' : Bytes)
      → initrd_finddir fuel ops dir name made sb m ≡ some (some (n, m'))
      → IsNew ops made n
  unfolding initrd_finddir search_dir
  initrd_finddir-IsNew fuel name made sb dir n m m' e =
      elim (Option-cases (inode_get dir.inode sb m)) [
        | inl zero_groups ↦ absurd (
            let stops : Same none (some (some (n, m'))) = rw (initrd_finddir, zero_groups) at e in
            cc)
        | inr (inode, got) ↦ elim (Option-cases (search_index fuel inode name sb m)) [
          | inl out ↦ absurd (
              let stops : Same none (some (some (n, m'))) =
                rw (initrd_finddir, got, search_dir, out) at e in
              cc)
          | inr (found, searched) ↦
              made_or_null-IsNew fuel (inodeblock_get 0 inode sb m) made sb found m m' n
                (rw (initrd_finddir, got, search_dir, searched) at e)
        ]
      ]

  node_made-Added :
      (at made : ℕ) (r : Option (Node × Bytes)) (s t : Mounted L)
      → ((n : Node) (m : Bytes) → r ≡ some (n, m) → IsNew ops at n)
      → SameResult (some (node_made at r s)) (some (made, t))
      → made ≢ 0
      → Added ops made s t
  unfolding node_made Added
  node_made-Added at made none s t new e used =
      absurd (used (sym (ap (λ o. (or_else o (made, t)).0) e)))
  node_made-Added at made (some (n, m)) s t new e used =
      let (address, its_read, its_write) = new n m refl in
      let u : Mounted L = record s { nodes = λ a. if a == at then n else s.nodes a; memory = m } in
      let here : u.nodes at ≡ n = ground arith in
      let added : Added ops at s u =
        (rw (here) (address, its_read, its_write), refl, λ a other. ground arith) in
      subst (λ (x : ℕ × Mounted L). Added ops x.0 s x.1) (ap (λ o. or_else o (made, t)) e) added

  pub call_finddir-Added :
      (fuel dir name made : ℕ) (s t : Mounted L)
      → SameResult (call_finddir lib fuel ops dir name s) (some (made, t))
      → made ≢ 0
      → Added ops made s t
  unfolding call_finddir Added
  call_finddir-Added fuel dir name made s t e used =
      let k = (kmalloc lib 184 s.kernel).1 in
      elim (Option-cases (inode_get (s.nodes dir).inode s.superblock s.memory)) [
        | inl out ↦
            absurd
              (let stops : SameResult none (some (made, t)) = rw (call_finddir, out) at e in cc)
        | inr (inode, got) ↦
            elim (Option-cases (search_index fuel inode name s.superblock s.memory)) [
              | inl out ↦ absurd (
                  let stops : SameResult none (some (made, t)) = rw (call_finddir, got, out) at e in
                  cc)
              | inr (found, searched) ↦
                  let at = (kmalloc lib 184 s.kernel).0 in
                  elim (Option-cases
                    (initrd_finddir fuel ops (s.nodes dir) name at s.superblock s.memory)) [
                      | inl out ↦ absurd (
                          let stops : SameResult none (some (made, t)) =
                            rw (call_finddir, got, searched, out) at e in
                          cc)
                      | inr (r, done) ↦
                          node_made-Added at made r
                            (record s { kernel = if there found then k else s.kernel }) t
                            (λ n m same.
                              initrd_finddir-IsNew fuel name at s.superblock (s.nodes dir) n
                                s.memory m (done ∙ ap some same))
                            (rw (call_finddir, got, searched, done) at e) used
                    ]
            ]
      ]
