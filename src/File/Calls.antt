-- ===== src/File/Calls.antt =====
-- The calls on descriptors of kern/fs/file.c: `file_open` to `file_dup`, over the table.
use mips.Base.{
  ℕ, ◌+◌, ◌%◌, ◌^◌, ◌==◌, Bool, true, false, Option, none, some, List, if◌then◌else◌, ◌>>=◌,
  bit_and,
}
use mips.Base.Int.{ℤ}
use mips.File.{
  Files, Vfs, Result, ok, err, put, is_opened, e_inval, no_fd, filemap_alloc, filemap_acquire,
  filemap_open, filemap_free, filemap_release, filemap_close, filemap_dup, fd2file,
}

module _ {W : Type 0} (v : Vfs W) where
  open v use {open_path, close, fstat, read, write, tryseek, fsync}

  -- O_RDONLY, O_WRONLY and O_RDWR of the access mode.
  unfoldable pub access_mode : ℕ → Option (Bool × Bool)
  access_mode flags =
      let mode = flags % 4 in
      if mode == 0
      then some (true, false)
      else if mode == 1
      then some (false, true)
      else if mode == 2
      then some (true, true)
      else none

  -- From `file->node = node` on.
  unfoldable pub finish_open : ℕ → ℕ → ℕ → Bool × Bool → Files W → Option (Result ℕ × Files W)
  unfolding filemap_open
  finish_open i n at (r, w) s = do
    let f = record (s.filemap i) { offset = at; node = some n; readable = r; writable = w }
    s' ← filemap_open i (put i f s)
    some (ok (s'.filemap i).fd, s')

  -- The start of an O_APPEND file is its size.
  unfoldable pub start_offset : ℕ → ℕ → W → Result ℕ × W
  start_offset flags n w = if bit_and flags 0x20 == 0 then (ok 0, w) else fstat n w

  -- From the call of `vfs_open` on.
  unfoldable pub open_node : ℕ → List ℕ → ℕ → Bool × Bool → Files W → Option (Result ℕ × Files W)
  unfolding filemap_free start_offset finish_open
  open_node i path flags mode s =
      let (got, w) = open_path path flags s.world in
      elim got [
        | err e ↦ (do s' ← filemap_free v i (record s { world = w }); some (err e, s'))
        | ok n ↦
            let (start, w') = start_offset flags n w in
            elim start [
              | ok at ↦ finish_open i n at mode (record s { world = w' })
              | err e ↦ (do
                s' ← filemap_free v i (record s { world = close n w' })
                some (err e, s'))
            ]
      ]

  unfoldable pub file_open : List ℕ → ℕ → Files W → Option (Result ℕ × Files W)
  unfolding access_mode filemap_alloc open_node
  file_open path flags s = elim (access_mode flags) [
    | none ↦ some (err e_inval, s)
    | some mode ↦ (do
      (got, s') ← filemap_alloc no_fd s
      elim got [ err e ↦ some (err e, s') | ok i ↦ open_node i path flags mode s' ])
  ]

  -- The result of a call that returns 0.
  abbrev pub done : Option (Files W) → Option (Result ℕ × Files W)
  done m = m >>= λ s. some (ok 0, s)

  abbrev pub code : ℕ → Result ℕ
  code e = if e == 0 then ok 0 else err e

  unfoldable pub file_close : ℤ → Files W → Option (Result ℕ × Files W)
  unfolding fd2file filemap_close
  file_close fd s = elim (fd2file fd s) [
    | err e ↦ some (err e, s)
    | ok i ↦ done (filemap_close v i s)
  ]

  -- The end of `file_read` and `file_write`, which other threads may have run before: the offset
  -- moves only while the file is open.
  unfoldable pub finish_move : ℕ → ℕ → Files W → Option (Files W)
  unfolding filemap_release
  finish_move i copied s =
      let f = s.filemap i in
      let f' =
        if is_opened f.status then record f { offset = (f.offset + copied) % 2 ^ 32 } else f in
      filemap_release v i (put i f' s)

  -- The value beside the result is `*copied_store`.
  unfoldable pub transfer :
      (ℕ → ℕ → ℕ → W → ℕ × ℕ × W) → ℕ → ℕ → Files W → Option ((Result ℕ × ℕ) × Files W)
  unfolding filemap_acquire finish_move
  transfer move i len s = do
    s1 ← filemap_acquire i s
    n ← (s.filemap i).node
    let (e, copied, w) = move n (s.filemap i).offset len s1.world
    s2 ← finish_move i copied (record s1 { world = w })
    some ((code e, copied), s2)

  unfoldable pub file_read : ℤ → ℕ → Files W → Option ((Result ℕ × ℕ) × Files W)
  unfolding fd2file
  file_read fd len s = elim (fd2file fd s) [
    | err e ↦ some ((err e, 0), s)
    | ok i ↦ if (s.filemap i).readable then transfer read i len s else some ((err e_inval, 0), s)
  ]

  unfoldable pub file_write : ℤ → ℕ → Files W → Option ((Result ℕ × ℕ) × Files W)
  unfolding fd2file
  file_write fd len s = elim (fd2file fd s) [
    | err e ↦ some ((err e, 0), s)
    | ok i ↦ if (s.filemap i).writable then transfer write i len s else some ((err e_inval, 0), s)
  ]

  unfoldable pub file_dup : ℤ → ℤ → Files W → Option (Result ℕ × Files W)
  unfolding fd2file filemap_alloc filemap_dup
  file_dup fd1 fd2 s = elim (fd2file fd1 s) [
    | err e ↦ some (err e, s)
    | ok i ↦ (do
      (got, s') ← filemap_alloc fd2 s
      elim got [
        | err e ↦ some (err e, s')
        | ok j ↦ (do s'' ← filemap_dup v j i s'; some (ok (s''.filemap j).fd, s''))
      ])
  ]

  -- A call on the inode of an open file, between `filemap_acquire` and `filemap_release`.
  unfoldable pub on_node : (ℕ → W → ℕ × W) → ℕ → Files W → Option (Result ℕ × Files W)
  unfolding filemap_acquire filemap_release
  on_node call i s = do
    s1 ← filemap_acquire i s
    n ← (s.filemap i).node
    let (e, w) = call n s1.world
    s2 ← filemap_release v i (record s1 { world = w })
    some (code e, s2)

  -- The code of `vop_fstat`; the `struct stat` that it fills belongs to the world.
  unfoldable pub fstat_code : ℕ → W → ℕ × W
  fstat_code n w = let (r, w') = fstat n w in (elim r [ ok size ↦ 0 | err e ↦ e ], w')

  unfoldable pub file_fstat : ℤ → Files W → Option (Result ℕ × Files W)
  unfolding fd2file on_node fstat_code
  file_fstat fd s = elim (fd2file fd s) [ err e ↦ some (err e, s) | ok i ↦ on_node fstat_code i s ]

  unfoldable pub file_fsync : ℤ → Files W → Option (Result ℕ × Files W)
  unfolding fd2file on_node
  file_fsync fd s = elim (fd2file fd s) [ err e ↦ some (err e, s) | ok i ↦ on_node fsync i s ]

  -- The new offset by `whence` (LSEEK_SET, LSEEK_CUR, LSEEK_END); `at` is the 32-bit `off_t`.
  unfoldable pub seek_target : ℕ → ℕ → ℕ → ℕ → W → Result ℕ × W
  seek_target at whence now n w =
      if whence == 0
      then (ok at, w)
      else if whence == 1
      then (ok ((at + now) % 2 ^ 32), w)
      else if whence == 2
      then (let (r, w') = fstat n w in
          (elim r [ err e ↦ err e | ok size ↦ ok ((at + size) % 2 ^ 32) ], w'))
      else (err e_inval, w)

  -- `vop_tryseek`, and the new offset if it allows it.
  unfoldable pub try_target : ℕ → ℕ → ℕ → Files W → ℕ × Files W
  try_target i n at s =
      let (e, w) = tryseek n at s.world in
      let s' = record s { world = w } in
      (e, if e == 0 then put i (record (s.filemap i) { offset = at }) s' else s')

  unfoldable pub seek_node : ℕ → ℕ → ℕ → Files W → Option (Result ℕ × Files W)
  unfolding filemap_acquire filemap_release seek_target try_target
  seek_node i at whence s = do
    s1 ← filemap_acquire i s
    n ← (s.filemap i).node
    let (target, w) = seek_target at whence (s.filemap i).offset n s1.world
    elim target [
      | err e ↦ (do s2 ← filemap_release v i (record s1 { world = w }); some (err e, s2))
      | ok to ↦ (do
        let (e, s2) = try_target i n to (record s1 { world = w })
        s3 ← filemap_release v i s2
        some (code e, s3))
    ]

  unfoldable pub file_seek : ℤ → ℕ → ℕ → Files W → Option (Result ℕ × Files W)
  unfolding fd2file seek_node
  file_seek fd at whence s = elim (fd2file fd s) [
    | err e ↦ some (err e, s)
    | ok i ↦ seek_node i at whence s
  ]
