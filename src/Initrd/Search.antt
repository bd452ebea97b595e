-- ===== src/Initrd/Search.antt =====
-- What `initrd_finddir` of kernel/kernel/fs/initrd.c finds in a directory.
use mathlib.Core.Path.{ap₂}
use comet_os.Base.{
  ◌-◌, Bool-cases, sym, ℕ, zero, suc, ◌+◌, ◌≤◌, ◌<◌, ◌≡◌, ◌≢◌, ◌⊎◌, inl, inr, refl, ap, ◌∙◌, arith,
  none, some, true, false, ltb, ◌==◌, bit, if◌then◌else◌, ==_of_ne,
}
use comet_os.Libc.Mem.{Bytes, memcpy}
use comet_os.Libc.Text.{strcpy}
use comet_os.Libc.Text.Spec.{IsString}
use comet_os.Libc.Text.Scan.{strlen-IsString, strcmp_second}
use comet_os.Ext2.{field16, field32, inode_get, inodeblock_get}
use comet_os.Ext2.Directory.{entry_offset, entry_offset_next}
use comet_os.Initrd.{
  Operations, Node, matches, find_entry, made_or_null, make_node, fill_node, search_index,
  search_dir, initrd_finddir,
}

-- The length of the name of an entry.
abbrev pub name_length : ℕ → Bytes → ℕ → ℕ
name_length block m k = field16 (block + entry_offset block m k + 6) m

module _ {m : Bytes} {name n : ℕ} (string : IsString m name n) (fuel : ℕ) (enough : n < fuel) where
  -- An entry is taken by the length of its name alone.
  matches-IsString : (ent : ℕ) → matches fuel name ent m ≡ some (n == field16 (ent + 6) m)
  unfolding matches
  matches-IsString ent = elim (Bool-cases (n == field16 (ent + 6) m)) [
    | inl same ↦
        rw
          (
            matches,
            strlen-IsString string fuel enough,
            same,
            strcmp_second string (ent + 8) fuel enough,
          )
          refl
    | inr other ↦ rw (matches, strlen-IsString string fuel enough, other) refl
  ]

  module _ (block size : ℕ) where
    -- A round over an entry of another length.
    pass :
        (f k : ℕ)
        → entry_offset block m k < size
        → name_length block m k ≢ n
        → find_entry fuel (suc f) block size name (entry_offset block m k) m
          ≡ find_entry fuel f block size name (entry_offset block m (k + 1)) m
    unfolding find_entry
    pass f k start other =
        let inside : ltb (entry_offset block m k) size ≡ true = ground arith in
        let differs : (n == name_length block m k) ≡ false = ground arith in
        rw (find_entry, inside, matches-IsString (block + entry_offset block m k), differs)
          (ap (λ x. find_entry fuel f block size name x m) (sym (entry_offset_next block m k)))

    pass_all :
        (d f k : ℕ)
        → ((j : ℕ) → j < k + d → (entry_offset block m j < size) × (name_length block m j ≢ n))
        → find_entry fuel (d + f) block size name (entry_offset block m k) m
          ≡ find_entry fuel f block size name (entry_offset block m (k + d)) m
    pass_all zero f k before =
        let here : k ≡ k + 0 = omega arith in
        let rounds : 0 + f ≡ f = omega arith in
        ap₂ (λ x y. find_entry fuel x block size name (entry_offset block m y) m) rounds here
    pass_all (suc d) f k before =
        let rounds : suc d + f ≡ suc (d + f) = omega arith in
        let next : k + 1 + d ≡ k + suc d = omega arith in
        let (start, other) = before k (omega arith) in
        ap (λ x. find_entry fuel x block size name (entry_offset block m k) m) rounds
        ∙ pass (d + f) k start other
        ∙ pass_all d f (k + 1) (λ j l. before j (omega arith))
        ∙ ap (λ x. find_entry fuel f block size name (entry_offset block m x) m) next

    pass_first :
        (k f : ℕ)
        → ((j : ℕ) → j < k → (entry_offset block m j < size) × (name_length block m j ≢ n))
        → find_entry fuel (k + f) block size name 0 m
          ≡ find_entry fuel f block size name (entry_offset block m k) m
    unfolding entry_offset
    pass_first k f before =
        let from_zero : 0 + k ≡ k = omega arith in
        pass_all k f 0 (λ j l. before j (omega arith))
        ∙ ap (λ x. find_entry fuel f block size name (entry_offset block m x) m) from_zero

    -- At the end of the directory, or at an entry of the same length.
    stop :
        (f k : ℕ)
        → (size ≤ entry_offset block m k) ⊎ (name_length block m k ≡ n)
        → find_entry fuel (suc f) block size name (entry_offset block m k) m
          ≡ some (if ltb (entry_offset block m k) size then some (entry_offset block m k) else none)
    unfolding find_entry
    stop f k end = elim (Bool-cases (ltb (entry_offset block m k) size)) [
      | inl inside ↦
          let same : (n == name_length block m k) ≡ true = ground arith in
          rw (find_entry, inside, matches-IsString (block + entry_offset block m k), same) refl
      | inr outside ↦ rw (find_entry, outside) refl
    ]

  -- The end of the search for the next entry.
  initrd_finddir-length :
      (ops : Operations) (node : Node) (inode made sb k : ℕ)
      → k < fuel
      → inode_get node.inode sb m ≡ some inode
      → bit (field16 inode m) 14 ≡ true
      → inodeblock_get 0 inode sb m ≢ 0
      → ((j : ℕ)
          → j < k
          → (entry_offset (inodeblock_get 0 inode sb m) m j < field32 (inode + 4) m)
            × (name_length (inodeblock_get 0 inode sb m) m j ≢ n))
      → (field32 (inode + 4) m ≤ entry_offset (inodeblock_get 0 inode sb m) m k)
        ⊎ (name_length (inodeblock_get 0 inode sb m) m k ≡ n)
      → initrd_finddir fuel ops node name made sb m
        ≡ made_or_null fuel ops (inodeblock_get 0 inode sb m) made sb m (
            if ltb (entry_offset (inodeblock_get 0 inode sb m) m k) (field32 (inode + 4) m)
            then some (entry_offset (inodeblock_get 0 inode sb m) m k)
            else none)
  unfolding initrd_finddir search_dir search_index
  initrd_finddir-length ops node inode made sb k rounds found type first before end =
      let block = inodeblock_get 0 inode sb m in
      let size = field32 (inode + 4) m in
      let there : (block == 0) ≡ false = ==_of_ne block 0 first in
      let left : ℕ = fuel - suc k in
      let whole : fuel ≡ k + suc left = omega arith in
      let walk : find_entry fuel fuel block size name 0 m
          ≡ some
              (if ltb (entry_offset block m k) size then some (entry_offset block m k) else none) =
        ap (λ x. find_entry fuel x block size name 0 m) whole
        ∙ pass_first block size k (suc left) before
        ∙ stop block size left k end in
      rw (found, search_dir, search_index, type, there, walk) refl

  -- The node of an entry with a name of `l` bytes.
  make_node-length :
      (ops : Operations) (ent made sb l inode : ℕ)
      → IsString m (ent + 8) l
      → l < fuel
      → inode_get (field32 ent m) sb m ≡ some inode
      → make_node fuel ops ent made sb m
        ≡ some (
            if ltb 128 l
            then none
            else (let copied = (memcpy made (ent + 8) l m).1 in
                some (fill_node ops ops.read_at made (field32 ent copied) inode copied, copied)))
  unfolding make_node strcpy
  make_node-length ops ent made sb l inode its_name short there =
      let scanned = strlen-IsString its_name fuel short in
      elim (Bool-cases (ltb 128 l)) [
        | inl long ↦ rw (make_node, there, scanned, strcpy, long) refl
        | inr fits ↦ rw (make_node, there, scanned, strcpy, fits) refl
      ]

  -- Take a directory with a first block, a name that is a string of `n` bytes, and entries of this
  -- block of which the first `k` start inside the directory's size and have names of other lengths,
  -- while the next one starts inside, has `n` as the length of its name, an inode that is there and,
  -- where its name starts, a string of `l` bytes. Then `initrd_finddir`, with more fuel than `k`, `n`
  -- and `l`, whatever the bytes of that name are, returns NULL if `l` is above 128, and otherwise a node
  -- at the address given, with that name copied there, the size of that inode, and `initrd_read` as its
  -- `read`.
  pub initrd_finddir-made :
      (ops : Operations) (node : Node) (inode made sb k l its_inode : ℕ)
      → k < fuel
      → inode_get node.inode sb m ≡ some inode
      → bit (field16 inode m) 14 ≡ true
      → inodeblock_get 0 inode sb m ≢ 0
      → ((j : ℕ)
          → j < k
          → (entry_offset (inodeblock_get 0 inode sb m) m j < field32 (inode + 4) m)
            × (name_length (inodeblock_get 0 inode sb m) m j ≢ n))
      → entry_offset (inodeblock_get 0 inode sb m) m k < field32 (inode + 4) m
      → name_length (inodeblock_get 0 inode sb m) m k ≡ n
      → let ent = inodeblock_get 0 inode sb m + entry_offset (inodeblock_get 0 inode sb m) m k in
        IsString m (ent + 8) l
        → l < fuel
        → inode_get (field32 ent m) sb m ≡ some its_inode
        → (128 < l → initrd_finddir fuel ops node name made sb m ≡ some none)
          × (l ≤ 128
              → (found : Node) × (after : Bytes) × (initrd_finddir fuel ops node name made sb m
                  ≡ some (some (found, after)))
                × (found.file.address ≡ made)
                × (found.file.read ≡ ops.read_at)
                × (found.size ≡ field32 (its_inode + 4) after)
                × (after ≡ (memcpy made (ent + 8) l m).1))
  unfolding made_or_null fill_node
  initrd_finddir-made ops node inode made sb k l its_inode rounds here type first before inside same
        its_name short there =
      let block = inodeblock_get 0 inode sb m in
      let ent = block + entry_offset block m k in
      let test : ltb (entry_offset block m k) (field32 (inode + 4) m) ≡ true = ground arith in
      let searched : initrd_finddir fuel ops node name made sb m
          ≡ make_node fuel ops ent made sb m =
        initrd_finddir-length ops node inode made sb k rounds here type first before (inr same)
        ∙ rw (test) refl in
      let result = searched ∙ make_node-length ops ent made sb l its_inode its_name short there in
      (
        λ long. let above : ltb 128 l ≡ true = ground arith in result ∙ rw (above) refl,
        λ fits.
            let below : ltb 128 l ≡ false = ground arith in
            let copied = (memcpy made (ent + 8) l m).1 in
            (
              fill_node ops ops.read_at made (field32 ent copied) its_inode copied,
              copied,
              result ∙ rw (below) refl,
              refl,
              refl,
              refl,
              refl,
            ),
      )
