-- ===== src/File/Session.antt =====
-- The files that any sequence of calls can lead to, with calls of other threads at work.
use mips.Base.{ℕ, ◌+◌, ◌-◌, ◌<◌, ◌≡◌, refl, true, Option, some, List, ◌>>=◌, subst}
use mips.Base.Int.{ℤ}
use mips.File.{Files, Vfs, nentry, is_opened, filemap_init, filemap_acquire, filemap_release}
use mips.File.Calls.{
  file_open, file_close, file_read, file_write, file_seek, file_dup, file_fstat, file_fsync,
}
use mips.File.Count.{
  IsCounted, working, filemap_init-IsCounted, filemap_acquire-IsCounted, filemap_release-IsCounted,
}
use mips.File.Descriptors.{
  Keeps, file_close-IsCounted, file_read-IsCounted, file_write-IsCounted, file_fstat-IsCounted,
  file_fsync-IsCounted,
}
use mips.File.Open.{file_open-IsOutcome}
use mips.File.Seek.{file_dup-IsCounted, file_seek-IsCounted}

-- The calls on descriptors, whatever their arguments.
pub data Call : Type 0 where
  open_call : (path : List ℕ) (flags : ℕ) → Call
  close_call : (fd : ℤ) → Call
  read_call : (fd : ℤ) (len : ℕ) → Call
  write_call : (fd : ℤ) (len : ℕ) → Call
  seek_call : (fd : ℤ) (at whence : ℕ) → Call
  dup_call : (fd1 fd2 : ℤ) → Call
  fstat_call : (fd : ℤ) → Call
  fsync_call : (fd : ℤ) → Call

abbrev after : {W A : Type 0} → Option (A × Files W) → Option (Files W)
after m = do (_, s) ← m; some s

module _ {W : Type 0} (v : Vfs W) where
  -- The files that a call leaves.
  abbrev pub run_call : Call → Files W → Option (Files W)
  run_call (open_call path flags) s = after (file_open v path flags s)
  run_call (close_call fd) s = after (file_close v fd s)
  run_call (read_call fd len) s = after (file_read v fd len s)
  run_call (write_call fd len) s = after (file_write v fd len s)
  run_call (seek_call fd at whence) s = after (file_seek v fd at whence s)
  run_call (dup_call fd1 fd2) s = after (file_dup v fd1 fd2 s)
  run_call (fstat_call fd) s = after (file_fstat v fd s)
  run_call (fsync_call fd) s = after (file_fsync v fd s)

  -- The files and the calls at work on each that come from a table that `filemap_init` has made.
  pub data IsReached : (ℕ → ℕ) → Files W → Type 0 where
    started : (s : Files W) → IsReached (λ _. 0) (filemap_init s)
    called :
        (busy : ℕ → ℕ) (s s' : Files W) (c : Call)
        → IsReached busy s
        → run_call c s ≡ some s'
        → IsReached busy s'
    acquired :
        (busy : ℕ → ℕ) (s s' : Files W) (i : ℕ)
        → IsReached busy s
        → i < nentry
        → is_opened (s.filemap i).status ≡ true
        → filemap_acquire i s ≡ some s'
        → IsReached (working i (busy i + 1) busy) s'
    released :
        (busy : ℕ → ℕ) (s s' : Files W) (i : ℕ)
        → IsReached busy s
        → i < nentry
        → 0 < busy i
        → filemap_release v i s ≡ some s'
        → IsReached (working i (busy i - 1) busy) s'

  kept :
      {A : Type 0} (busy : ℕ → ℕ) (m : Option (A × Files W))
      → Keeps v busy m
      → (s' : Files W) × (after m ≡ some s') × IsCounted busy s'.filemap
  kept busy m (r, run, d) = (r.1, rw run refl, d)

  run_call-IsCounted :
      (busy : ℕ → ℕ) (c : Call) (s : Files W)
      → IsCounted busy s.filemap
      → (s' : Files W) × (run_call c s ≡ some s') × IsCounted busy s'.filemap
  run_call-IsCounted busy (open_call path flags) s h =
      let (r, run, o) = file_open-IsOutcome v busy path flags s h in (r.1, rw run refl, o.counted)
  run_call-IsCounted busy (close_call fd) s h = kept busy _ (file_close-IsCounted v busy fd s h)
  run_call-IsCounted busy (read_call fd len) s h =
      kept busy _ (file_read-IsCounted v busy fd len s h)
  run_call-IsCounted busy (write_call fd len) s h =
      kept busy _ (file_write-IsCounted v busy fd len s h)
  run_call-IsCounted busy (seek_call fd at whence) s h =
      kept busy _ (file_seek-IsCounted v busy fd at whence s h)
  run_call-IsCounted busy (dup_call fd1 fd2) s h =
      kept busy _ (file_dup-IsCounted v busy fd1 fd2 s h)
  run_call-IsCounted busy (fstat_call fd) s h = kept busy _ (file_fstat-IsCounted v busy fd s h)
  run_call-IsCounted busy (fsync_call fd) s h = kept busy _ (file_fsync-IsCounted v busy fd s h)

  -- A run has one outcome.
  outcome :
      (busy : ℕ → ℕ) (m : Option (Files W)) (s : Files W)
      → m ≡ some s
      → (s' : Files W) × (m ≡ some s') × IsCounted busy s'.filemap
      → IsCounted busy s.filemap
  outcome busy m s e (s', run, d) =
      let same : s' ≡ s = cc in subst (λ t. IsCounted busy t.filemap) same d

  reached-IsCounted : (busy : ℕ → ℕ) (s : Files W) → IsReached busy s → IsCounted busy s.filemap
  reached-IsCounted busy s (started s0) = filemap_init-IsCounted s0
  reached-IsCounted b t (called busy s0 s c r run) =
      outcome busy (run_call c s0) s run
        (run_call-IsCounted busy c s0 (reached-IsCounted busy s0 r))
  reached-IsCounted b t (acquired busy s0 s i r k o run) =
      outcome (working i (busy i + 1) busy) (filemap_acquire i s0) s run
        (filemap_acquire-IsCounted busy i s0 (reached-IsCounted busy s0 r) k o)
  reached-IsCounted b t (released busy s0 s i r k w run) =
      outcome (working i (busy i - 1) busy) (filemap_release v i s0) s run
        (filemap_release-IsCounted v busy i s0 (reached-IsCounted busy s0 r) k w)

  -- In every state that `filemap_init`, calls on descriptors and other threads that take and give
  -- back references lead to, in any order, each file is counted once for being open and once for
  -- each call at work on it, and every call, whatever its arguments, passes its assertions and
  -- returns.
  pub run_call-IsReached :
      (busy : ℕ → ℕ) (s : Files W) (c : Call)
      → IsReached busy s
      → IsCounted busy s.filemap × ((s' : Files W) × (run_call c s ≡ some s') × IsReached busy s')
  run_call-IsReached busy s c r =
      let h = reached-IsCounted busy s r in
      let (s', run, _) = run_call-IsCounted busy c s h in (h, (s', run, called busy s s' c r run))
