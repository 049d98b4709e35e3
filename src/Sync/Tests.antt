-- ===== src/Sync/Tests.antt =====
-- A semaphore at 50 with two waiters, and the theorems at it.
use mips.Base.{
  ◌==◌, ◌≡◌, refl, Bool, true, false, none, some, [], ◌∷◌, if◌then◌else◌, arith, count, mem, ◌||◌,
  Bool-cases, inl, inr,
}
use mips.Proc.{Proc, ProcState, wt_ksem}
use mips.Sync.{Sync, up, down_begin, down_return, wakeup_queue}
use mips.Sync.Queue.{IsLinked}
use mips.Sync.Semaphore.{IsSemaphore, IsUp, up-IsUp}
use mips.Sync.Down.{IsDown, down_begin-IsDown}
use mips.Sync.Wakeup.{wakeup_queue-IsLinked, down_return-up}

abbrev sleeper : Proc
sleeper = record {
  state = ProcState.sleeping;
  pid = 0;
  runs = 0;
  need_resched = false;
  parent = none;
  flags = 0;
  exit_code = 0;
  wait_state = wt_ksem;
  cptr = none;
  yptr = none;
  optr = none;
  time_slice = 0;
}

-- Process 1 runs; 3 and 4 wait with the waits 103 and 104.
abbrev start : Sync
start = record {
  sched = record {
    procs = λ p.
        if p == 1 then record sleeper { state = ProcState.runnable; wait_state = 0 } else sleeper;
    current = 1;
    idleproc = 0;
    run_list = [];
    proc_num = 0;
    max_time_slice = 20;
    timer_list = [];
  };
  waits = λ w. record {
    proc = if w == 103 then some 3 else if w == 104 then some 4 else none;
    wakeup_flags = 0;
    wait_queue = 50;
    linked = w == 103 || w == 104;
  };
  queues = λ q. if q == 50 then 103 ∷ 104 ∷ [] else [];
  values = λ q. 0;
}

start-IsLinked : IsLinked start
unfolding count
start-IsLinked = record {
  links = λ q w. ground arith;
  owner = λ w on. elim (Bool-cases (w == 103)) [
    | inl e ↦ (3, ground arith)
    | inr e ↦ (4, ground arith)
  ];
  asleep = λ w p on own. ground arith;
  single = λ v w p on on' own own'. ground arith;
  queue = record { queued = λ p. ground arith; counted = refl };
}

start-IsSemaphore : IsSemaphore 50 start
unfolding mem
start-IsSemaphore = record {
  linked = start-IsLinked;
  exclusive = λ h. absurd (omega (arith, h));
  waiting = λ w p m own. ground arith;
}

up-IsUp_example : (s' : Sync) × (up 50 start ≡ some s') × IsUp 50 start s' × IsSemaphore 50 s'
up-IsUp_example = up-IsUp 50 start start-IsSemaphore

down_begin-IsDown_example :
    (r : Bool × Sync) × (down_begin 50 105 wt_ksem start ≡ some r)
    × IsDown 50 105 start r
    × IsSemaphore 50 r.1
down_begin-IsDown_example = down_begin-IsDown 50 105 start start-IsSemaphore refl refl

wakeup_queue-IsLinked_example :
    (s' : Sync) × (wakeup_queue 50 wt_ksem true start ≡ some s') × IsLinked s' × (s'.queues 50 ≡ [])
wakeup_queue-IsLinked_example = wakeup_queue-IsLinked 50 wt_ksem start start-IsLinked

down_return-up_example :
    (s' : Sync) × (up 50 start ≡ some s') × (down_return 50 103 s' ≡ some s') × (s'.values 50 ≡ 0)
down_return-up_example = down_return-up 50 103 (104 ∷ []) start start-IsSemaphore refl
