-- ===== src/File.antt =====
-- The open files of a process: kern/fs/file.c over `struct file` of kern/fs/file.h. The files of a
-- process stand in an array of FS_STRUCT_NENTRY, here a function on indices; a `struct file *` is an
-- index. What the calls through an inode's table of operations do is the parameter `Vfs`, over a
-- world of its own. A call that returns -e is `err e`; `none` is a failed assertion.
pub mod Calls
pub mod Count
pub mod Descriptors
pub mod Open
pub mod Seek
pub mod Session
mod Tests
use mips.Base.{
  ℕ, zero, suc, ◌+◌, ◌-◌, ◌/◌, ◌%◌, ◌^◌, ◌==◌, Bool, true, false, Option, none, some, List, ltb,
  leb, if◌then◌else◌, ◌>>=◌, ◌>>◌, assert, not, ◌&&◌, ◌||◌, bit_and,
}
pub use mips.Base.Results.{Result, ok, err}
use mips.Base.Int.{ℤ, pos, negsuc}

pub data Status : Type 0 where
  unused init opened closed : Status

abbrev pub is_unused : Status → Bool
is_unused Status.unused = true
is_unused _ = false

abbrev pub is_init : Status → Bool
is_init Status.init = true
is_init _ = false

abbrev pub is_opened : Status → Bool
is_opened Status.opened = true
is_opened _ = false

abbrev pub is_closed : Status → Bool
is_closed Status.closed = true
is_closed _ = false

pub record File : Type 0 where
  pub status : Status
  pub readable : Bool
  pub writable : Bool
  pub fd : ℕ
  pub offset : ℕ
  pub node : Option ℕ
  pub open_count : ℕ

abbrev pub is_null : Option ℕ → Bool
is_null none = true
is_null (some _) = false

abbrev pub e_inval : ℕ
e_inval = 3

abbrev pub e_busy : ℕ
e_busy = 15

abbrev pub e_max_open : ℕ
e_max_open = 22

-- FS_STRUCT_NENTRY: what is left of a page behind a `struct fs_struct` of 24 bytes, in files of 28.
abbrev pub nentry : ℕ
nentry = (4096 - 24) / 28

-- NO_FD, which is -0x9527.
abbrev pub no_fd : ℤ
no_fd = negsuc 0x9526

-- The inode operations. A return code is 0 or the number of an error; `read`, `write` and
-- `getdirentry` also give the bytes that they moved.
pub record Vfs (W : Type 0) : Type 0 where
  pub open_path : List ℕ → ℕ → W → Result ℕ × W
  pub close : ℕ → W → W
  pub ref_inc : ℕ → W → W
  pub open_inc : ℕ → W → W
  pub fstat : ℕ → W → Result ℕ × W
  pub read : ℕ → ℕ → ℕ → W → ℕ × ℕ × W
  pub write : ℕ → ℕ → ℕ → W → ℕ × ℕ × W
  pub tryseek : ℕ → ℕ → W → ℕ × W
  pub fsync : ℕ → W → ℕ × W

pub record Files (W : Type 0) : Type 0 where
  pub filemap : ℕ → File
  pub world : W

module _ {W : Type 0} where
  abbrev pub put : ℕ → File → Files W → Files W
  put i f s = record s { filemap = λ j. if j == i then f else s.filemap j }

  pub filemap_init : Files W → Files W
  filemap_init s = record s {
    filemap = λ i.
        if ltb i nentry
        then record (s.filemap i) { open_count = 0; status = Status.unused; fd = i }
        else s.filemap i;
  }

  -- The scan of `filemap_alloc` over the `left` files from `i` on.
  pub find_unused : (left i : ℕ) → Files W → Option ℕ
  find_unused zero i s = none
  find_unused (suc left) i s = elim (is_unused (s.filemap i).status) [
    | true ↦ some i
    | false ↦ find_unused left (i + 1) s
  ]

  -- Which file `filemap_alloc` is to use.
  pub alloc_index : ℤ → Files W → Result ℕ
  alloc_index (pos n) s =
      if ltb n nentry
      then (if is_unused (s.filemap n).status then ok n else err e_busy)
      else err e_inval
  alloc_index (negsuc n) s =
      if n == 0x9526
      then elim (find_unused nentry 0 s) [ none ↦ err e_max_open | some i ↦ ok i ]
      else err e_inval

  -- `filemap_alloc`; the result is the index of the file that `*file_store` is set to.
  pub filemap_alloc : ℤ → Files W → Option (Result ℕ × Files W)
  unfolding alloc_index
  filemap_alloc fd s = elim (alloc_index fd s) [
    | err e ↦ some (err e, s)
    | ok i ↦ (do
      assert ((s.filemap i).open_count == 0)
      some (ok i, put i (record (s.filemap i) { status = Status.init; node = none }) s))
  ]

  pub filemap_acquire : ℕ → Files W → Option (Files W)
  filemap_acquire i s = do
    let f = s.filemap i
    assert (is_opened f.status)
    some (put i (record f { open_count = f.open_count + 1 }) s)

  pub filemap_open : ℕ → Files W → Option (Files W)
  filemap_open i s = do
    let f = s.filemap i
    assert (is_init f.status)
    assert (not (is_null f.node))
    some (put i (record f { status = Status.opened; open_count = f.open_count + 1 }) s)

  -- `fd2file`
  pub fd2file : ℤ → Files W → Result ℕ
  fd2file (negsuc n) s = err e_inval
  fd2file (pos n) s =
      if ltb n nentry && is_opened (s.filemap n).status && (s.filemap n).fd == n
      then ok n
      else err e_inval

  pub file_testfd : ℤ → (readable writable : Bool) → Files W → Bool
  unfolding fd2file
  file_testfd fd readable writable s = elim (fd2file fd s) [
    | err e ↦ false
    | ok i ↦
        not (readable && not (s.filemap i).readable) && not (writable && not (s.filemap i).writable)
  ]

module _ {W : Type 0} (v : Vfs W) where
  open v use {open_path, close, ref_inc, open_inc, fstat, read, write, tryseek, fsync}

  -- `vfs_close(file->node)`, a fault at NULL.
  close_node : Option ℕ → W → Option W
  close_node none w = none
  close_node (some n) w = some (close n w)

  pub filemap_free : ℕ → Files W → Option (Files W)
  unfolding close_node
  filemap_free i s = do
    let f = s.filemap i
    assert (is_init f.status || is_closed f.status)
    assert (f.open_count == 0)
    let freed = put i (record f { status = Status.unused }) s
    if is_closed f.status
        then (do w ← close_node f.node s.world; some (record freed { world = w }))
        else some freed

  -- `fopen_count_dec`, and the free of the last reference.
  drop_reference : ℕ → Files W → Option (Files W)
  unfolding filemap_free
  drop_reference i s = do
    let f = s.filemap i
    let s' = put i (record f { open_count = f.open_count - 1 }) s
    if f.open_count - 1 == 0 then filemap_free i s' else some s'

  pub filemap_release : ℕ → Files W → Option (Files W)
  unfolding drop_reference
  filemap_release i s = do
    let f = s.filemap i
    assert (is_opened f.status || is_closed f.status)
    assert (ltb 0 f.open_count)
    drop_reference i s

  pub filemap_close : ℕ → Files W → Option (Files W)
  unfolding drop_reference
  filemap_close i s = do
    let f = s.filemap i
    assert (is_opened f.status)
    assert (ltb 0 f.open_count)
    drop_reference i (put i (record f { status = Status.closed }) s)

  pub filemap_dup : (to from : ℕ) → Files W → Option (Files W)
  unfolding filemap_open
  filemap_dup to from s = do
    let f = s.filemap from
    assert (is_init (s.filemap to).status)
    assert (is_opened f.status)
    let g = record (s.filemap to) {
      offset = f.offset;
      readable = f.readable;
      writable = f.writable;
      node = f.node;
    }
    n ← f.node
    filemap_open to (record (put to g s) { world = open_inc n (ref_inc n s.world) })
