-- ===== src/Pid.antt =====
-- Process numbers: get_pid, hash_proc, unhash_proc and find_proc of kern/process/proc.c, with hash32
-- of kern/libs/hash.c. The list `proc_list` is taken as the list of the pids of its processes.
pub mod Fresh
pub mod Lookup
mod Tests
use mips.Base.{
  ℕ, zero, suc, ◌+◌, ◌*◌, ◌-◌, ◌/◌, ◌%◌, ◌^◌, ◌==◌, Bool, true, false, Option, none, some, List, [],
  ◌∷◌, ltb, leb, if◌then◌else◌, ◌&&◌, erase,
}
use mips.Proc.{Proc, Table}

-- MAX_PROCESS
abbrev pub max_process : ℕ
max_process = 4096

-- MAX_PID
abbrev pub max_pid : ℕ
max_pid = max_process * 2

-- The two static variables of `get_pid`.
pub record Pids : Type 0 where
  pub last_pid : ℕ
  pub next_safe : ℕ

abbrev pub initial : Pids
initial = record { last_pid = max_pid; next_safe = max_pid }

-- How a walk down the list ends: at the end, with the two variables, or at the `goto repeat`, with
-- `last_pid`.
pub data Scan : Type 0 where
  finished : (last next : ℕ) → Scan
  again : (last : ℕ) → Scan

-- The `while` loop.
pub scan : List ℕ → (last next : ℕ) → Scan
scan [] last next = Scan.finished last next
scan (pid ∷ l) last next = elim (pid == last) [
  | true ↦ elim (leb next (last + 1)) [
    | true ↦ Scan.again (last + 1)
    | false ↦ scan l (last + 1) next
  ]
  | false ↦ elim (ltb last pid && ltb pid next) [
    | true ↦ scan l last pid
    | false ↦ scan l last next
  ]
]

-- `if (last_pid >= MAX_PID) last_pid = 1`
abbrev pub wrap : ℕ → ℕ
wrap last = if leb max_pid last then 1 else last

-- From `repeat` on, with `next_safe` at MAX_PID; on fuel, one for each walk.
pub search : ℕ → List ℕ → ℕ → Option Pids
unfolding scan
search zero l last = none
search (suc fuel) l last = elim (scan l last max_pid) [
  | finished last' next ↦ some (record { last_pid = last'; next_safe = next })
  | again last' ↦ search fuel l (wrap last')
]

-- The state of `get_pid` after the call; its result is `last_pid`.
pub get_pid : List ℕ → Pids → Option Pids
unfolding search
get_pid l s =
    let last = s.last_pid + 1 in
    elim (leb max_pid last) [
      | true ↦ search max_pid l 1
      | false ↦ elim (leb s.next_safe last) [
        | true ↦ search max_pid l last
        | false ↦ some (record s { last_pid = last })
      ]
    ]

abbrev pub hash_shift : ℕ
hash_shift = 10

-- GOLDEN_RATIO_PRIME_32
abbrev golden_ratio_prime_32 : ℕ
golden_ratio_prime_32 = 0x9e37_0001

-- `hash32`; a shift to the right by `n` is a division by `2 ^ n`.
pub hash32 : (val bits : ℕ) → ℕ
hash32 val bits = ((val * golden_ratio_prime_32) % 2 ^ 32) / 2 ^ (32 - bits)

pub pid_hashfn : ℕ → ℕ
unfolding hash32
pid_hashfn pid = hash32 pid hash_shift

-- `hash_list`: the processes of each bucket.
abbrev pub Buckets : Type 0
Buckets = ℕ → List ℕ

pub hash_proc : Table → ℕ → Buckets → Buckets
unfolding pid_hashfn
hash_proc procs p b i = if i == pid_hashfn (procs p).pid then p ∷ b i else b i

-- `list_del` finds the bucket by the links of the process, which is where it was added.
pub unhash_proc : Table → ℕ → Buckets → Buckets
unfolding pid_hashfn
unhash_proc procs p b i = if i == pid_hashfn (procs p).pid then erase p (b i) else b i

pub find_in : Table → ℕ → List ℕ → Option ℕ
find_in procs pid [] = none
find_in procs pid (p ∷ l) = elim ((procs p).pid == pid) [
  | true ↦ some p
  | false ↦ find_in procs pid l
]

pub find_proc : Table → ℕ → Buckets → Option ℕ
unfolding find_in pid_hashfn
find_proc procs pid b = elim (ltb 0 pid && ltb pid max_pid) [
  | true ↦ find_in procs pid (b (pid_hashfn pid))
  | false ↦ none
]
