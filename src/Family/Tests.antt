-- ===== src/Family/Tests.antt =====
-- initproc with two children, one of them a zombie, and a third one to come; the theorems at them.
use mips.Base.{
  count, ℕ, ◌+◌, ◌==◌, ◌≡◌, refl, Bool, true, false, none, some, List, [], ◌∷◌, mem, if◌then◌else◌,
  arith, inl, inr, Bool-cases,
}
use mips.Proc.{Table, wt_child, ProcState}
use mips.Family.{adopt_children, Processes, procs, set_links, find_zombie, reap}
use mips.Pid.{Buckets, hash_proc}
use mips.Pid.Lookup.{IsHashed, changed, hash_proc-IsHashed}
use mips.Sched.RunQueue.{IsQueue}
use mips.Family.Handover.{handed_over, adopt_children-IsFamily}
use mips.Family.Chain.{IsFamily}
use mips.Family.Links.{grown, set_links-IsFamily}
use mips.Family.Reap.{IsReaped, find_zombie-first_zombie, reap-IsReaped}

abbrev table : Table
table p = record {
  state = if p == 3 then ProcState.zombie else ProcState.sleeping;
  pid = p;
  runs = 0;
  need_resched = false;
  parent = some 1;
  flags = 0;
  exit_code = p + 40;
  wait_state = if p == 2 then wt_child else 0;
  cptr = if p == 1 then some 4 else none;
  yptr = if p == 3 then some 4 else none;
  optr = if p == 4 then some 3 else none;
  time_slice = 0;
}

abbrev nothing : Buckets
nothing _ = []

abbrev nobody : ℕ → Bool
nobody _ = false

abbrev live : ℕ → Bool
live = changed 4 true (changed 3 true (changed 1 true nobody))

table-IsHashed :
    IsHashed table live (hash_proc table 4 (hash_proc table 3 (hash_proc table 1 nothing)))
unfolding count
table-IsHashed =
    hash_proc-IsHashed table (changed 3 true (changed 1 true nobody)) 4
      (hash_proc table 3 (hash_proc table 1 nothing))
      (hash_proc-IsHashed table (changed 1 true nobody) 3 (hash_proc table 1 nothing)
        (hash_proc-IsHashed table nobody 1 nothing (λ p i. refl) refl) refl)
      refl

abbrev kernel : Processes
kernel = record {
  sched = record {
    procs = table;
    current = 1;
    idleproc = 0;
    run_list = [];
    proc_num = 0;
    max_time_slice = 20;
    timer_list = [];
  };
  proc_list = 4 ∷ 3 ∷ 1 ∷ [];
  nr_process = 4;
  hash_list = hash_proc table 4 (hash_proc table 3 (hash_proc table 1 nothing));
  initproc = 1;
}

abbrev children : ℕ → List ℕ
children q = if q == 1 then 4 ∷ 3 ∷ [] else []

kernel-IsFamily : IsFamily table children
unfolding mem
kernel-IsFamily = record {
  youngest = λ q. ground arith;
  chain = λ q. elim (Bool-cases (q == 1)) [
    | inl e ↦ rw e (refl, refl, (refl, refl, tt))
    | inr n ↦ rw n tt
  ];
  parent = λ q c m. ground (arith, m);
  once = λ q. elim (Bool-cases (q == 1)) [ inl e ↦ rw e (refl, (refl, tt)) | inr n ↦ rw n tt ];
}

fresh : (r : ℕ) → mem 5 (children r) ≡ false
unfolding mem
fresh r = ground arith

set_links-IsFamily_example :
    (s : Processes) × (set_links 5 kernel ≡ some s)
    × IsFamily (procs s) (grown 5 1 children)
    × (s.proc_list ≡ 5 ∷ 4 ∷ 3 ∷ 1 ∷ [])
    × (s.nr_process ≡ 5)
set_links-IsFamily_example = set_links-IsFamily kernel children 5 1 kernel-IsFamily fresh refl

find_zombie-first_zombie_example : find_zombie 2 table false (some 4) ≡ some (true, some 3)
find_zombie-first_zombie_example =
    find_zombie-first_zombie table children 1 2 kernel-IsFamily (omega arith)

reap-IsReaped_example :
    (s : Processes) × (reap true 3 kernel ≡ some (some 43, s)) × IsReaped 3 1 live children kernel s
unfolding count
reap-IsReaped_example =
    reap-IsReaped true kernel children live 3 1 kernel-IsFamily table-IsHashed refl refl refl refl
      refl

-- Process 1 exits, and initproc is process 2, which waits for a child.
abbrev exiting : Processes
exiting = record kernel { initproc = 2 }

exiting-IsQueue : IsQueue exiting.sched
unfolding count
exiting-IsQueue = record { queued = λ p. ground arith; counted = refl }

adopt_children-IsFamily_example :
    (s : Processes) × (adopt_children 3 exiting ≡ some s)
    × IsFamily (procs s) (handed_over 1 2 children)
    × IsQueue s.sched
adopt_children-IsFamily_example =
    adopt_children-IsFamily 3 exiting children kernel-IsFamily exiting-IsQueue refl refl
      (omega arith)

adopted_oldest_first : handed_over 1 2 children 2 ≡ 3 ∷ 4 ∷ []
adopted_oldest_first = refl
