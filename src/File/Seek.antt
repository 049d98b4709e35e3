-- ===== src/File/Seek.antt =====
-- `file_dup` and `file_seek` and the reference counts.
use mips.Base.{
  ℕ, ◌+◌, ◌<◌, ◌==◌, ◌≡◌, refl, true, false, some, ◌>>=◌, arith, Bool-cases, inl, inr, subst,
  ==_refl, ℕ-cases,
}
use mips.Base.Int.{ℤ}
use mips.File.{
  Status, File, Files, Vfs, ok, err, put, is_unused, is_opened, nentry, filemap_open, filemap_dup,
  fd2file,
}
use mips.File.Calls.{file_dup, file_seek, seek_node, seek_target, try_target, code}
use mips.File.Count.{
  IsHeld, IsCounted, working, IsCounted-keep, filemap_acquire-IsCounted, filemap_release-IsCounted,
  at_opened,
}
use mips.File.Descriptors.{Keeps, Result-cases, fd2file-ok, IsCounted-back, busy_self}
use mips.File.Open.{IsClaimed, refused, granted, filemap_alloc-IsAllocated, alloc_index-ok}

module _ {W : Type 0} (v : Vfs W) where
  open v use {ref_inc, open_inc, tryseek}

  filemap_dup-IsCounted :
      (busy : ℕ → ℕ) (to from : ℕ) (s : Files W)
      → IsClaimed busy to s.filemap
      → is_opened (s.filemap from).status ≡ true
      → (n : ℕ) → (s.filemap from).node ≡ some n
      → (s' : Files W) × (filemap_dup v to from s ≡ some s') × IsCounted busy s'.filemap
  unfolding filemap_dup filemap_open
  filemap_dup-IsCounted busy to from s c o n a =
      let f = s.filemap from in
      let h = c.counted to c.within in
      let q = ==_refl to in
      let g : File = record (s.filemap to) {
        offset = f.offset;
        readable = f.readable;
        writable = f.writable;
        node = some n;
      } in
      let s1 : Files W = record (put to g s) { world = open_inc n (ref_inc n s.world) } in
      let s2 : Files W =
        put to (record g { status = Status.opened; open_count = g.open_count + 1 }) s1 in
      (
        s2,
        rw (c.claimed, o, a) (rw q (rw c.claimed refl)),
        IsCounted-keep busy to s.filemap s2.filemap c.counted
            (rw q (ground (arith, c.fresh, c.idle, h.number))) (λ j d. rw d),
      )

  -- An open file is not the one that was claimed.
  other :
      (i j : ℕ) (s : Files W)
      → is_opened (s.filemap i).status ≡ true
      → is_unused (s.filemap j).status ≡ true
      → (i == j) ≡ false
  other i j s o u = elim (ℕ-cases i j) [
    | inl e ↦
        let o' : is_opened (s.filemap j).status ≡ true =
          subst (λ n. is_opened (s.filemap n).status ≡ true) e o in
        absurd (ground arith)
    | inr e ↦ ground arith
  ]

  -- With exact counts `file_dup` passes its assertions and returns, and the counts stay exact.
  pub file_dup-IsCounted :
      (busy : ℕ → ℕ) (fd1 fd2 : ℤ) (s : Files W)
      → IsCounted busy s.filemap
      → Keeps v busy (file_dup v fd1 fd2 s)
  unfolding file_dup
  file_dup-IsCounted busy fd1 fd2 s c = elim (Result-cases (fd2file fd1 s)) [
    | inl (e, q) ↦ ((err e, s), rw (q, file_dup), c)
    | inr (i, q) ↦
        let (k, o) = fd2file-ok v fd1 i s q in
        let (n, a) = at_opened (busy i) i (s.filemap i) (c i k) o in
        let (r, run, allocated) = filemap_alloc-IsAllocated busy fd2 s c in
        elim allocated [
          | refused e p t ↦ ((err e, s), rw (q, file_dup) (rw (run, t)), c)
          | granted j s' p t claimed same ↦
              let (l, u) = alloc_index-ok fd2 j s p in
              let kept = same i (other i j s o u) in
              let (s2, end, d) =
                filemap_dup-IsCounted busy j i s' claimed (rw kept o) n (rw kept a) in
              ((ok (s2.filemap j).fd, s2), rw (q, file_dup) (rw (run, t) (rw end)), d)
        ]
  ]

  try_target-IsCounted :
      (busy : ℕ → ℕ) (i n at : ℕ) (s : Files W)
      → IsCounted busy s.filemap
      → i < nentry
      → IsCounted busy (try_target v i n at s).1.filemap
  unfolding try_target
  try_target-IsCounted busy i n at s c k = elim (Bool-cases ((tryseek n at s.world).0 == 0)) [
    | inr e ↦ rw e c
    | inl e ↦
        let f : File = record (s.filemap i) { offset = at } in
        let s1 : Files W = put i f s in
        let h : IsHeld (busy i) i f = ground (arith, c i k) in
        rw e (IsCounted-keep busy i s.filemap s1.filemap c (rw (==_refl i) h) (λ j d. rw d))
  ]

  seek_node-IsCounted :
      (busy : ℕ → ℕ) (i at whence : ℕ) (s : Files W)
      → IsCounted busy s.filemap
      → i < nentry
      → is_opened (s.filemap i).status ≡ true
      → Keeps v busy (seek_node v i at whence s)
  unfolding seek_node
  seek_node-IsCounted busy i at whence s c k o =
      let (n, a) = at_opened (busy i) i (s.filemap i) (c i k) o in
      let (s1, run, d) = filemap_acquire-IsCounted busy i s c k o in
      let more = working i (busy i + 1) busy in
      let positive : 0 < more i = rw (busy_self v busy i (busy i + 1)) (omega arith) in
      let target = seek_target v at whence (s.filemap i).offset n s1.world in
      let moved : Files W = record s1 { world = target.1 } in
      elim (Result-cases target.0) [
        | inl (e, q) ↦
            let (s2, end, g) = filemap_release-IsCounted v more i moved d k positive in
            (
              (err e, s2),
              rw (run, seek_node) (rw (a, ◌>>=◌) (rw (q, end))),
              IsCounted-back v busy i s2.filemap g,
            )
        | inr (to, q) ↦
            let t = try_target v i n to moved in
            let (s2, end, g) =
              filemap_release-IsCounted v more i t.1 (try_target-IsCounted more i n to moved d k) k
                positive in
            (
              (code v t.0, s2),
              rw (run, seek_node) (rw (a, ◌>>=◌) (rw (q, end))),
              IsCounted-back v busy i s2.filemap g,
            )
      ]

  -- With exact counts `file_seek` passes its assertions and returns, and the counts stay exact.
  pub file_seek-IsCounted :
      (busy : ℕ → ℕ) (fd : ℤ) (at whence : ℕ) (s : Files W)
      → IsCounted busy s.filemap
      → Keeps v busy (file_seek v fd at whence s)
  unfolding file_seek
  file_seek-IsCounted busy fd at whence s c = elim (Result-cases (fd2file fd s)) [
    | inl (e, q) ↦ ((err e, s), rw (q, file_seek), c)
    | inr (i, q) ↦
        let (k, o) = fd2file-ok v fd i s q in
        let (r, run, d) = seek_node-IsCounted busy i at whence s c k o in
        (r, rw (q, file_seek) (rw run), d)
  ]
