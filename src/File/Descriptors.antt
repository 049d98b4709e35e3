-- ===== src/File/Descriptors.antt =====
-- `file_close`, `file_read`, `file_write`, `file_fsync` and `file_fstat` and the reference counts, while
-- any calls of other threads are at work.
use mips.Base.{
  ℕ, ◌+◌, ◌-◌, ◌<◌, ◌%◌, ◌^◌, ◌≡◌, ◌≢◌, refl, Bool, true, false, Option, some, if◌then◌else◌, arith,
  inl, inr, ◌⊎◌, subst, ==_refl, ℕ-cases,
}
use mips.Base.Int.{ℤ, pos, negsuc}
use mips.File.{File, Files, Vfs, Result, ok, err, put, is_opened, nentry, fd2file, e_inval}
use mips.File.Calls.{
  file_close, file_read, file_write, transfer, finish_move, on_node, file_fsync, file_fstat,
  fstat_code, code,
}
use mips.File.Count.{
  Map, IsHeld, IsCounted, working, IsCounted-change, IsCounted-self, filemap_acquire-IsCounted,
  filemap_release-IsCounted, filemap_close-IsCounted, at_opened,
}

pub Result-cases : {A : Type 0} (r : Result A) → ((e : ℕ) × (r ≡ err e)) ⊎ ((a : A) × (r ≡ ok a))
Result-cases (ok a) = inr (a, refl)
Result-cases (err e) = inl (e, refl)

module _ {W : Type 0} (v : Vfs W) where
  -- A descriptor stands for an open file of the table.
  pub fd2file-ok :
      (fd : ℤ) (i : ℕ) (s : Files W)
      → fd2file fd s ≡ ok i
      → (i < nentry) × (is_opened (s.filemap i).status ≡ true)
  unfolding fd2file
  fd2file-ok (negsuc n) i s e = absurd (ground arith)
  fd2file-ok (pos n) i s e = ground arith

  -- What holds after every call: it has returned, and the counts are right for the same calls at work.
  abbrev pub Keeps {ℓ} : {A : Type ℓ} → (ℕ → ℕ) → Option (A × Files W) → Type ℓ
  Keeps {A} busy m = (r : A × Files W) × (m ≡ some r) × IsCounted busy r.1.filemap

  Keeps-if :
      {A : Type 0} (busy : ℕ → ℕ) (b : Bool) (x y : Option (A × Files W))
      → Keeps busy x
      → Keeps busy y
      → Keeps busy (if b then x else y)
  Keeps-if busy true x y k l = k
  Keeps-if busy false x y k l = l

  -- With exact counts, whatever calls are at work, `file_close` of any number passes its
  -- assertions and returns, and the counts stay exact for the same calls.
  pub file_close-IsCounted :
      (busy : ℕ → ℕ) (fd : ℤ) (s : Files W)
      → IsCounted busy s.filemap
      → Keeps busy (file_close v fd s)
  unfolding file_close
  file_close-IsCounted busy fd s c = elim (Result-cases (fd2file fd s)) [
    | inl (e, q) ↦ ((err e, s), rw (q, file_close), c)
    | inr (i, q) ↦
        let (k, o) = fd2file-ok fd i s q in
        let (s', run, d) = filemap_close-IsCounted v busy i s c k o in
        ((ok 0, s'), rw (q, file_close) (rw run), d)
  ]

  -- One call more, and then one less, is as many as before.
  pub IsCounted-back :
      (busy : ℕ → ℕ) (i : ℕ) (m : Map)
      → let more = working i (busy i + 1) busy in
        IsCounted (working i (more i - 1) more) m → IsCounted busy m
  IsCounted-back busy i m c j k = subst (λ n. IsHeld n j (m j)) (back (ℕ-cases j i)) (c j k)
    where
      more : ℕ → ℕ
      more = working i (busy i + 1) busy

      back : (j ≡ i) ⊎ (j ≢ i) → working i (more i - 1) more j ≡ busy j
      back (inl e) = rw (e, ==_refl i) (omega arith)
      back (inr e) = ground arith

  pub busy_self : (busy : ℕ → ℕ) (i b : ℕ) → working i b busy i ≡ b
  busy_self busy i b = rw (==_refl i)

  finish_move-IsCounted :
      (busy : ℕ → ℕ) (i copied : ℕ) (s : Files W)
      → IsCounted busy s.filemap
      → i < nentry
      → 0 < busy i
      → (s' : Files W) × (finish_move v i copied s ≡ some s')
        × IsCounted (working i (busy i - 1) busy) s'.filemap
  unfolding finish_move
  finish_move-IsCounted busy i copied s c k w =
      let f = s.filemap i in
      let h = c i k in
      let f' : File =
        if is_opened f.status then record f { offset = (f.offset + copied) % 2 ^ 32 } else f in
      let same : IsHeld (busy i) i f' = ground arith in
      let moved = IsCounted-self busy i (put i f' s).filemap (
        IsCounted-change busy i (busy i) s.filemap (put i f' s).filemap c (rw (==_refl i) same)
          (λ j e. rw e)) in
      filemap_release-IsCounted v busy i (put i f' s) moved k w

  transfer-IsCounted :
      (move : ℕ → ℕ → ℕ → W → ℕ × ℕ × W) (busy : ℕ → ℕ) (i len : ℕ) (s : Files W)
      → IsCounted busy s.filemap
      → i < nentry
      → is_opened (s.filemap i).status ≡ true
      → Keeps busy (transfer v move i len s)
  unfolding transfer
  transfer-IsCounted move busy i len s c k o =
      let (n, a) = at_opened (busy i) i (s.filemap i) (c i k) o in
      let (s1, run, d) = filemap_acquire-IsCounted busy i s c k o in
      let out = move n (s.filemap i).offset len s1.world in
      let (s2, end, g) =
        finish_move-IsCounted (working i (busy i + 1) busy) i out.1 (record s1 { world = out.2 }) d
          k (rw (busy_self busy i (busy i + 1)) (omega arith)) in
      (
        ((code v out.0, out.1), s2),
        rw (run, transfer) (rw (a, end)),
        IsCounted-back busy i s2.filemap g,
      )

  -- With exact counts, whatever calls are at work, `file_read` of any number passes its assertions
  -- and returns, and the counts stay exact for the same calls.
  pub file_read-IsCounted :
      (busy : ℕ → ℕ) (fd : ℤ) (len : ℕ) (s : Files W)
      → IsCounted busy s.filemap
      → Keeps busy (file_read v fd len s)
  unfolding file_read
  file_read-IsCounted busy fd len s c = elim (Result-cases (fd2file fd s)) [
    | inl (e, q) ↦ (((err e, 0), s), rw (q, file_read), c)
    | inr (i, q) ↦
        let (k, o) = fd2file-ok fd i s q in
        rw (q, file_read)
          (Keeps-if busy (s.filemap i).readable (transfer v v.read i len s)
            (some ((err e_inval, 0), s)) (transfer-IsCounted v.read busy i len s c k o)
            (((err e_inval, 0), s), refl, c))
  ]

  -- With exact counts, whatever calls are at work, `file_write` of any number passes its
  -- assertions and returns, and the counts stay exact for the same calls.
  pub file_write-IsCounted :
      (busy : ℕ → ℕ) (fd : ℤ) (len : ℕ) (s : Files W)
      → IsCounted busy s.filemap
      → Keeps busy (file_write v fd len s)
  unfolding file_write
  file_write-IsCounted busy fd len s c = elim (Result-cases (fd2file fd s)) [
    | inl (e, q) ↦ (((err e, 0), s), rw (q, file_write), c)
    | inr (i, q) ↦
        let (k, o) = fd2file-ok fd i s q in
        rw (q, file_write)
          (Keeps-if busy (s.filemap i).writable (transfer v v.write i len s)
            (some ((err e_inval, 0), s)) (transfer-IsCounted v.write busy i len s c k o)
            (((err e_inval, 0), s), refl, c))
  ]

  on_node-IsCounted :
      (call : ℕ → W → ℕ × W) (busy : ℕ → ℕ) (i : ℕ) (s : Files W)
      → IsCounted busy s.filemap
      → i < nentry
      → is_opened (s.filemap i).status ≡ true
      → Keeps busy (on_node v call i s)
  unfolding on_node
  on_node-IsCounted call busy i s c k o =
      let (n, a) = at_opened (busy i) i (s.filemap i) (c i k) o in
      let (s1, run, d) = filemap_acquire-IsCounted busy i s c k o in
      let out = call n s1.world in
      let (s2, end, g) =
        filemap_release-IsCounted v (working i (busy i + 1) busy) i (record s1 { world = out.1 }) d
          k (rw (busy_self busy i (busy i + 1)) (omega arith)) in
      ((code v out.0, s2), rw (run, on_node) (rw (a, end)), IsCounted-back busy i s2.filemap g)

  -- `file_fsync` returns and keeps the counts.
  pub file_fsync-IsCounted :
      (busy : ℕ → ℕ) (fd : ℤ) (s : Files W)
      → IsCounted busy s.filemap
      → Keeps busy (file_fsync v fd s)
  unfolding file_fsync
  file_fsync-IsCounted busy fd s c = elim (Result-cases (fd2file fd s)) [
    | inl (e, q) ↦ ((err e, s), rw (q, file_fsync), c)
    | inr (i, q) ↦
        let (k, o) = fd2file-ok fd i s q in
        let (r, run, d) = on_node-IsCounted v.fsync busy i s c k o in
        (r, rw (q, file_fsync) (rw run), d)
  ]

  -- `file_fstat` likewise.
  pub file_fstat-IsCounted :
      (busy : ℕ → ℕ) (fd : ℤ) (s : Files W)
      → IsCounted busy s.filemap
      → Keeps busy (file_fstat v fd s)
  unfolding file_fstat
  file_fstat-IsCounted busy fd s c = elim (Result-cases (fd2file fd s)) [
    | inl (e, q) ↦ ((err e, s), rw (q, file_fstat), c)
    | inr (i, q) ↦
        let (k, o) = fd2file-ok fd i s q in
        let (r, run, d) = on_node-IsCounted (fstat_code v) busy i s c k o in
        (r, rw (q, file_fstat) (rw run), d)
  ]
