-- ===== src/File/Tests.antt =====
-- A file system of one inode of three bytes, and the theorems at it. The world counts the calls.
use mips.Base.{ℕ, ◌+◌, ◌-◌, ◌≡◌, refl, true, Option, none, some, if◌then◌else◌, ◌==◌, [], arith}
use mips.File.{File, Status, Files, Vfs, Result, ok, filemap_init, find_unused}
use mips.File.Calls.{file_open}
use mips.File.Count.{IsCounted, working}
use mips.File.Session.{open_call, run_call, IsReached, started, run_call-IsReached}
use mips.File.Open.{IsOutcome, file_open-IsOutcome}

abbrev one_inode : Vfs ℕ
one_inode = record {
  open_path = λ path flags w. (ok 5, w + 1);
  close = λ n w. w + 1;
  ref_inc = λ n w. w + 1;
  open_inc = λ n w. w + 1;
  fstat = λ n w. (ok 3, w + 1);
  read = λ n at len w. (0, 3 - at, w + 1);
  write = λ n at len w. (0, len, w + 1);
  tryseek = λ n at w. (0, w + 1);
  fsync = λ n w. (0, w + 1);
}

abbrev fresh_file : File
fresh_file = record {
  status = Status.unused;
  readable = true;
  writable = true;
  fd = 7;
  offset = 0;
  node = some 5;
  open_count = 9;
}

abbrev start : Files ℕ
start = filemap_init (record { filemap = λ i. fresh_file; world = 0 })

-- Descriptor 0 open for reading and writing; `b` calls are at work on it.
abbrev one_open : Files ℕ
one_open = record {
  filemap = λ i.
      if i == 0
      then record fresh_file { status = Status.opened; fd = 0; open_count = 1 }
      else record fresh_file { fd = i; open_count = 0 };
  world = 0;
}

one_open-IsCounted : IsCounted (λ _. 0) one_open.filemap
one_open-IsCounted i k = ground arith

-- One call is at work on file 0.
abbrev at_work : Files ℕ
at_work = record {
  filemap = λ i.
      if i == 0
      then record fresh_file { status = Status.closed; fd = 0; open_count = 1 }
      else record fresh_file { fd = i; open_count = 0 };
  world = 0;
}

at_work-IsCounted : IsCounted (working 0 1 (λ _. 0)) at_work.filemap
at_work-IsCounted i k = ground arith

file_open-IsOutcome_example :
    (r : Result ℕ × Files ℕ) × (file_open one_inode [] 2 one_open ≡ some r)
    × IsOutcome one_inode (λ _. 0) one_open r
file_open-IsOutcome_example =
    file_open-IsOutcome one_inode (λ _. 0) [] 2 one_open one_open-IsCounted

run_call-IsReached_example :
    IsCounted (λ _. 0) start.filemap
    × ((s' : Files ℕ) × (run_call one_inode (open_call [] 2) start ≡ some s')
        × IsReached one_inode (λ _. 0) s')
run_call-IsReached_example =
    run_call-IsReached one_inode (λ _. 0) start (open_call [] 2)
      (started (record { filemap = λ i. fresh_file; world = 0 }))

-- The second file that is opened has descriptor 1.
opens : Option (Result ℕ × Files ℕ) → Option (Result ℕ)
opens none = none
opens (some (r, s)) = some r

open_second : opens (file_open one_inode [] 2 one_open) ≡ some (ok 1)
unfolding opens file_open find_unused
open_second = refl
