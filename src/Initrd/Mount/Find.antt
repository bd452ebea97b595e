-- ===== src/Initrd/Mount/Find.antt =====
-- What `vfs_read` gives of a file that `vfs_finddir` has found on the RAM disk.
use comet_os.Base.{
  ◌^◌, ap, sym, ℕ, suc, ◌+◌, ◌/◌, ◌%◌, ◌≤◌, ◌<◌, ◌≡◌, ◌≢◌, ◌⊎◌, refl, ◌∙◌, arith, [], ◌∷◌, Option,
  some, none, true, false, ◌==◌, ◌!=◌, Option-cases, Bool-cases, inl, inr,
}
use comet_os.Kmalloc.{Liballoc}
use comet_os.Libc.Mem.{Bytes}
use comet_os.Ext2.{block_size, inode_get, read}
use comet_os.Ext2.Content.{file_byte, file_place, HasBlock, read-file_byte}
use comet_os.Vfs.{vfs_read, vfs_finddir, call_or_zero}
use comet_os.Initrd.{Operations, initrd_read}
use comet_os.Initrd.Mount.{Mounted, call_read, call_finddir, called, call}
use comet_os.Initrd.Mount.New.{Added, call_finddir-Added}

abbrev Pair : {L : Type 0} → ℕ × Option (Mounted L) → ℕ × Option (Mounted L) → Type 0
Pair x y = x ≡ y

or_state : {L : Type 0} → Option (Mounted L) → Mounted L → Mounted L
or_state none d = d
or_state (some t) d = t

-- The addresses of the operations are those of three functions.
unfoldable pub Apart : Operations → Type 0
Apart ops = (ops.read_at ≢ 0) × (ops.finddir_at ≢ 0) × (ops.readdir_at ≢ ops.finddir_at)

module _ {L : Type 0} (lib : Liballoc L) (ops : Operations) where
  call-read :
      (fuel node offset size buffer count : ℕ) (s : Mounted L) (after : Bytes)
      → initrd_read fuel (s.nodes node) offset size buffer s.superblock s.memory
        ≡ some (count, after)
      → call lib fuel ops ops.read_at (node ∷ offset ∷ size ∷ buffer ∷ []) (some s)
        ≡ (count, some (record s { memory = after }))
  unfolding call called call_read
  call-read fuel node offset size buffer count s after e =
      let this : (ops.read_at == ops.read_at) ≡ true = ground arith in
      rw (call, called, this, call_read, e) refl

  -- `vfs_read` of a node of the RAM disk, whose inode is there, is `ext2_read` of that inode.
  vfs_read-read :
      (fuel offset size buffer inode count : ℕ) (node : ℕ) (s : Mounted L) (after : Bytes)
      → ops.read_at ≢ 0
      → (s.nodes node).file.read ≡ ops.read_at
      → (s.nodes node).file.address ≡ node
      → inode_get (s.nodes node).inode s.superblock s.memory ≡ some inode
      → read fuel offset buffer size inode s.superblock s.memory ≡ some (count, after)
      → vfs_read (call lib fuel ops) (s.nodes node).file offset size buffer (some s)
        ≡ (count, some (record s { memory = after }))
  unfolding vfs_read call_or_zero initrd_read
  vfs_read-read fuel offset size buffer inode count node s after installed its_read its_address
        found e =
      let given : (ops.read_at != 0) ≡ true = ground arith in
      let whole : initrd_read fuel (s.nodes node) offset size buffer s.superblock s.memory
          ≡ some (count, after) =
        rw (initrd_read, found, e) refl in
      rw (its_read, its_address, given) (call-read fuel node offset size buffer count s after whole)

  call-Added :
      (fuel dir name made : ℕ) (s t : Mounted L)
      → ops.readdir_at ≢ ops.finddir_at
      → call lib fuel ops ops.finddir_at (dir ∷ name ∷ []) (some s) ≡ (made, some t)
      → made ≢ 0
      → Added ops made s t
  unfolding call called or_state
  call-Added fuel dir name made s t apart e used =
      let other : (ops.finddir_at == ops.readdir_at) ≡ false = ground arith in
      let this : (ops.finddir_at == ops.finddir_at) ≡ true = ground arith in
      elim (Option-cases (call_finddir lib fuel ops dir name s)) [
        | inl out ↦ absurd (
            used (
              sym (
                ap (λ r. r.0)
                  (let stops : Pair (0, none) (made, some t) =
                      rw (call, called, other, this, out) at e in
                    stops))))
        | inr (r, done) ↦
            let same : Pair (r.0, some r.1) (made, some t) =
              rw (call, called, other, this, done) at e in
            call_finddir-Added lib ops fuel dir name made s t
              (done ∙ ap (λ (x : ℕ × Option (Mounted L)). some (x.0, or_state x.1 t)) same) used
      ]

  vfs_finddir-Added :
      (fuel dir name made : ℕ) (s t : Mounted L)
      → Apart ops
      → (s.nodes dir).file.finddir ≡ ops.finddir_at
      → (s.nodes dir).file.address ≡ dir
      → vfs_finddir (call lib fuel ops) (s.nodes dir).file name (some s) ≡ (made, some t)
      → made ≢ 0
      → Added ops made s t
  unfolding vfs_finddir Apart
  vfs_finddir-Added fuel dir name made s t (installed, finds, apart) its_finddir its_address e
        used =
      let node = (s.nodes dir).file in
      elim (Bool-cases (node.flag % 8 == 2)) [
        | inl directory ↦
            let given : (ops.finddir_at != 0) ≡ true = ground arith in
            call-Added fuel dir name made s t apart
              (rw (vfs_finddir, directory, its_finddir, its_address, given) at e) used
        | inr other ↦ absurd (
            used (
              sym (
                ap (λ r. r.0)
                  (let null : Pair (0, some s) (made, some t) = rw (vfs_finddir, other) at e in
                    null))))
      ]

  -- Take a node that `vfs_finddir` has returned for a directory of the RAM disk, its inode, a
  -- superblock at 1024 or behind it, a positive block size, and bytes of the file that lie in one
  -- block, which is one of the first twelve or one of the indirect block, and is no hole, and whose
  -- copying into the buffer does not overwrite them. Then `vfs_read` of the node returns the number of
  -- bytes asked for, and puts the bytes of the file into the buffer; no other byte of the memory, in
  -- which the disk stands and the nodes do not, and not the allocator changes.
  pub vfs_finddir-vfs_read :
      (f dir name made offset size buffer inode : ℕ) (s t : Mounted L)
      → Apart ops
      → (s.nodes dir).file.finddir ≡ ops.finddir_at
      → (s.nodes dir).file.address ≡ dir
      → vfs_finddir (call lib (suc f) ops) (s.nodes dir).file name (some s) ≡ (made, some t)
      → made ≢ 0
      → inode_get (t.nodes made).inode t.superblock t.memory ≡ some inode
      → 0 < buffer
      → 0 < inode
      → 1024 ≤ t.superblock
      → t.superblock < 2 ^ 32
      → 0 < block_size t.superblock t.memory
      → offset % block_size t.superblock t.memory + size ≤ block_size t.superblock t.memory
      → HasBlock (offset / block_size t.superblock t.memory) inode t.superblock t.memory
      → (buffer ≤ file_place offset inode t.superblock t.memory)
        ⊎ (file_place offset inode t.superblock t.memory + size ≤ buffer)
      → (after : Bytes) × (vfs_read
            (call lib (suc f) ops)
            (t.nodes made).file
            offset
            size
            buffer
            (some t)
          ≡ (size, some (record t { memory = after })))
        × ((i : ℕ)
            → i < size
            → after (buffer + i) ≡ file_byte inode t.superblock t.memory (offset + i))
        × ((a : ℕ) → (a < buffer) ⊎ (buffer + size ≤ a) → after a ≡ t.memory a)
  unfolding Apart Added
  vfs_finddir-vfs_read f dir name made offset size buffer inode s t apart its_finddir its_address e
        used found hb hi lo hs pos fits has aside =
      let ((address, its_read, its_write), superblock, nodes) =
        vfs_finddir-Added (suc f) dir name made s t apart its_finddir its_address e used in
      let (after, done, bytes, others) =
        read-file_byte f offset buffer size inode t.superblock t.memory hb hi lo hs pos fits has
          aside in
      (
        after,
        vfs_read-read (suc f) offset size buffer inode size made t after apart.0 its_read address
            found done,
        bytes,
        others,
      )
