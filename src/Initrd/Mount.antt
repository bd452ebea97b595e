-- ===== src/Initrd/Mount.antt =====
-- The operations of kernel/kernel/fs/initrd.c as what kernel/kernel/fs/vfs.c calls behind the pointers
-- of a node, with the trial read that `initrd_initialize` makes with DEBUG. The fields of a `file_t` but
-- its name are in `nodes`, apart from the bytes of the memory.
pub mod New
pub mod Find
mod Tests
use comet_os.Base.{
  ◌++◌, ℕ, ◌+◌, Bool, true, false, List, [], ◌∷◌, Option, none, some, ◌==◌, ◌!=◌, ◌||◌,
  if◌then◌else◌,
}
use comet_os.Console.{codes, Shown, text}
use comet_os.Ext2.{inode_get, direntry_get, superblock_validate}
use comet_os.Kmalloc.{Liballoc, Kernel, kmalloc, kfree}
use comet_os.Libc.Mem.{Bytes}
use comet_os.Libc.Stdio.{word, string}
use comet_os.Libc.Text.{◌>>=◌}
use comet_os.Vfs.{File, vfs_read, vfs_finddir}
use comet_os.Initrd.{Operations, Node, initrd_read, initrd_readdir, initrd_finddir, search_index}

-- The nodes by their addresses, the memory with the disk, its superblock, and the allocator.
pub record Mounted (L : Type 0) : Type 0 where
  pub nodes : ℕ → Node
  pub memory : Bytes
  pub superblock : ℕ
  pub kernel : Kernel L

-- A node that was made, or NULL.
unfoldable pub node_made : {L : Type 0} → ℕ → Option (Node × Bytes) → Mounted L → ℕ × Mounted L
node_made made none s = (0, s)
node_made made (some (node, m)) s =
    (made, record s { nodes = λ a. if a == made then node else s.nodes a; memory = m })

abbrev pub there : Option ℕ → Bool
there none = false
there (some index) = true

module _ {L : Type 0} (lib : Liballoc L) (fuel : ℕ) (ops : Operations) where
  unfoldable pub call_read : ℕ → ℕ → ℕ → ℕ → Mounted L → Option (ℕ × Mounted L)
  call_read node offset size buffer s = do
    r ← initrd_read fuel (s.nodes node) offset size buffer s.superblock s.memory
    some (r.0, record s { memory = r.1 })

  -- A `struct dir_entry` has 132 bytes, and a `file_t` 184; both are allocated behind the search.
  unfoldable pub call_readdir : ℕ → ℕ → Mounted L → Option (ℕ × Mounted L)
  unfolding kmalloc
  call_readdir node index s =
      let (made, k) = kmalloc lib 132 s.kernel in
      do
        inode ← inode_get (s.nodes node).inode s.superblock s.memory
        ent ← direntry_get fuel index inode s.superblock s.memory
        r ← initrd_readdir fuel (s.nodes node) index made s.superblock s.memory
        some (r.0, if (inode == 0) || (ent == 0) then s else record s { memory = r.1; kernel = k })

  unfoldable pub call_finddir : ℕ → ℕ → Mounted L → Option (ℕ × Mounted L)
  unfolding kmalloc node_made
  call_finddir node name s =
      let (made, k) = kmalloc lib 184 s.kernel in
      do
        inode ← inode_get (s.nodes node).inode s.superblock s.memory
        found ← search_index fuel inode name s.superblock s.memory
        r ← initrd_finddir fuel ops (s.nodes node) name made s.superblock s.memory
        some (node_made made r (record s { kernel = if there found then k else s.kernel }))

  called : ℕ → List ℕ → Mounted L → Option (ℕ × Mounted L)
  unfolding call_read call_readdir call_finddir
  called operation (node ∷ offset ∷ size ∷ buffer ∷ []) s =
      if operation == ops.read_at then call_read node offset size buffer s else none
  called operation (node ∷ second ∷ []) s =
      if operation == ops.readdir_at
      then call_readdir node second s
      else if operation == ops.finddir_at
      then call_finddir node second s
      else none
  called operation _ s = none

  -- `none` is a division by 0, the want of fuel, or the call of another address.
  unfoldable pub call : ℕ → List ℕ → Option (Mounted L) → ℕ × Option (Mounted L)
  unfolding called
  call operation arguments none = (0, none)
  call operation arguments (some s) = elim (called operation arguments s) [
    | none ↦ (0, none)
    | some (result, t) ↦ (result, some t)
  ]

-- `text_at` says which string stands at an address of a memory.
module _ {L : Type 0} (lib : Liballoc L) (fuel : ℕ) (ops : Operations)
    (text_at : Bytes → ℕ → List ℕ) where
  unfoldable pub file_shown : ℕ → ℕ → Mounted L → List Shown
  file_shown file buffer s =
      let node = s.nodes file in
      text "-- Finding test file - test.txt --\n" []
      ∷ text "file name: %s\n" (string (text_at s.memory file) ∷ [])
      ∷ text "file uid: %i\n" (word node.uid ∷ [])
      ∷ text "file gid: %i\n" (word node.gid ∷ [])
      ∷ text "file flag: %i\n" (word node.file.flag ∷ [])
      ∷ text "file inode: %i\n" (word node.inode ∷ [])
      ∷ text "file size(bytes): %i\n" (word node.size ∷ [])
      ∷ text "file impl: %i\n" (word 0 ∷ [])
      ∷ text "===== Contents =====\n" []
      ∷ text "%s\n" (string (text_at s.memory buffer) ∷ [])
      ∷ text "====================\n" []
      ∷ []

  read_file : ℕ → Mounted L → Option (Mounted L × List Shown)
  unfolding kmalloc kfree call file_shown
  read_file file s =
      let node = s.nodes file in
      let (buffer, k) = kmalloc lib node.size s.kernel in
      let (read, after) =
        vfs_read (call lib fuel ops) node.file 0 node.size buffer
          (some (record s { kernel = k })) in
      elim after [
        | none ↦ none
        | some t ↦
            if read != 0
            then some (record t { kernel = kfree lib buffer t.kernel }, file_shown file buffer t)
            else some (t, text "Test file read failed testing\n" [] ∷ [])
      ]

  -- The lines under DEBUG of `initrd_initialize`: `root` is the address of the root node, and
  -- `name` that of "test.txt".
  unfoldable pub trial : ℕ → ℕ → Mounted L → Option (Mounted L × List Shown)
  unfolding call read_file superblock_validate
  trial root name s =
      let (file, found) = vfs_finddir (call lib fuel ops) (s.nodes root).file name (some s) in
      let valid =
        if superblock_validate s.superblock s.memory != 0 then codes "Yes" else codes "No" in
      let before : List Shown =
        text "####################| EXT2 Debug | ####################\n" []
        ∷ text "SuperBlock: 0x%x\n" (word s.superblock ∷ [])
        ∷ text "superblock Validate: %s\n" (string valid ∷ [])
        ∷ [] in
      let behind : List Shown =
        text "#######################################################\n" [] ∷ [] in
      elim found [
        | none ↦ none
        | some t ↦
            if file != 0
            then elim (read_file file t) [
              | none ↦ none
              | some (u, shown) ↦ some (u, before ++ shown ++ behind)
            ]
            else some (t, before ++ (text "Could not find test file\n" [] ∷ []) ++ behind)
      ]
