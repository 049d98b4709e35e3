-- ===== src/Pid/Tests.antt =====
-- Two processes, at 1 and 2, and the theorems at them.
use mips.Base.{ℕ, ◌<◌, ◌≡◌, ◌↔◌, refl, Bool, true, false, none, some, List, [], ◌∷◌, arith, count}
use mips.Proc.{ProcState, Table}
use mips.Pid.{max_pid, Pids, initial, get_pid, search, Buckets, hash_proc, find_proc}
use mips.Pid.Fresh.{IsFresh, IsSafe, clear, get_pid-IsFresh}
use mips.Pid.Lookup.{IsHashed, changed, hash_proc-IsHashed, find_proc_iff}

abbrev used : List ℕ
used = 2 ∷ 1 ∷ []

initial-IsSafe : IsSafe used initial
unfolding clear
initial-IsSafe = record { gap = refl; within = omega arith }

get_pid-IsFresh_example :
    (s' : Pids) × (get_pid used initial ≡ some s')
    × IsFresh used s'
    × IsSafe (s'.last_pid ∷ used) s'
get_pid-IsFresh_example = get_pid-IsFresh used initial initial-IsSafe (omega arith)

third_pid : search 3 used 1 ≡ some (record { last_pid = 3; next_safe = max_pid })
unfolding search
third_pid = refl

abbrev procs : Table
procs p = record {
  state = ProcState.runnable;
  pid = p;
  runs = 0;
  need_resched = false;
  parent = none;
  flags = 0;
  exit_code = 0;
  wait_state = 0;
  cptr = none;
  yptr = none;
  optr = none;
  time_slice = 0;
}

abbrev empty : Buckets
empty _ = []

abbrev nobody : ℕ → Bool
nobody _ = false

empty-IsHashed : IsHashed procs nobody empty
unfolding count
empty-IsHashed p i = refl

abbrev one : Buckets
one = hash_proc procs 1 empty

abbrev alive : ℕ → Bool
alive = changed 1 true nobody

one-IsHashed : IsHashed procs alive one
one-IsHashed = hash_proc-IsHashed procs nobody 1 empty empty-IsHashed refl

find_proc_iff_example :
    (find_proc procs 1 one ≡ some 1)
    ↔ ((0 < 1) × (1 < max_pid) × (alive 1 ≡ true) × ((procs 1).pid ≡ 1))
find_proc_iff_example = find_proc_iff procs alive one 1 1 one-IsHashed (λ q r a b e. e)
