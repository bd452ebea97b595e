-- ===== src/Vfs.antt =====
-- The virtual file system, kernel/kernel/fs/vfs.c and kernel/include/kernel/fs/vfs.h. A node's
-- operations are function pointers, 0 for none; what a file system does behind them is the
-- parameter `call`, which takes the pointer, the arguments and the state.
use comet_os.Base.{ℕ, ◌%◌, List, [], ◌∷◌, ◌==◌, ◌!=◌, ◌&&◌, if◌then◌else◌}

-- The fields of `file_t` that the dispatch reads (`file_open` is `open`), and the node's own address.
pub record File : Type 0 where
  pub address : ℕ
  pub flag : ℕ
  pub read : ℕ
  pub write : ℕ
  pub file_open : ℕ
  pub close : ℕ
  pub readdir : ℕ
  pub finddir : ℕ

-- FS_DIRECTORY.
abbrev pub fs_directory : ℕ
fs_directory = 0x02

module _ {ℓ} {State : Type ℓ} (call : ℕ → List ℕ → State → ℕ × State) where
  -- A call of the operation, or 0 where there is none.
  unfoldable pub call_or_zero : ℕ → List ℕ → State → ℕ × State
  call_or_zero operation arguments s = if operation != 0 then call operation arguments s else (0, s)

  unfoldable pub vfs_read : File → ℕ → ℕ → ℕ → State → ℕ × State
  vfs_read node offset size buffer s =
      call_or_zero node.read (node.address ∷ offset ∷ size ∷ buffer ∷ []) s

  unfoldable pub vfs_write : File → ℕ → ℕ → ℕ → State → ℕ × State
  vfs_write node offset size buffer s =
      call_or_zero node.write (node.address ∷ offset ∷ size ∷ buffer ∷ []) s

  -- The parameters `read` and `write` are not passed on.
  unfoldable pub vfs_open : File → ℕ → ℕ → State → State
  vfs_open node read write s = (call_or_zero node.file_open (node.address ∷ []) s).1

  unfoldable pub vfs_close : File → State → State
  vfs_close node s = (call_or_zero node.close (node.address ∷ []) s).1

  unfoldable pub vfs_readdir : File → ℕ → State → ℕ × State
  vfs_readdir node index s =
      if (node.flag % 8 == fs_directory) && (node.readdir != 0)
      then call node.readdir (node.address ∷ index ∷ []) s
      else (0, s)

  unfoldable pub vfs_finddir : File → ℕ → State → ℕ × State
  vfs_finddir node name s =
      if (node.flag % 8 == fs_directory) && (node.finddir != 0)
      then call node.finddir (node.address ∷ name ∷ []) s
      else (0, s)
