-- ===== src/Sched/Tests.antt =====
-- Runs of the scheduler, and its theorems at concrete states.
use mips.Base.{
  ◌==◌, ◌≡◌, refl, true, false, none, some, List, [], ◌∷◌, arith, if◌then◌else◌, All, count,
}
use mips.Proc.{Proc, ProcState, Table, has_flag}
use mips.Sched.{Timer, State, add_timer, del_timer, run_timer_list, schedule, timer_linked}
use mips.Sched.Timers.{
  deadlines, insert_deadline, remove_deadline, add_timer-deadlines, del_timer-deadlines,
}
use mips.Sched.Tick.{after_tick, is_due, run_timer_list-deadlines}
use mips.Sched.RunQueue.{IsQueue, IsSwitched, schedule-IsSwitched}
use mips.Sched.Turns.{schedule_times, schedule_times-current}
use mips.Sched.TickQueue.{IsArmed, run_timer_list-IsQueue}

abbrev fresh : Proc
fresh = record {
  state = ProcState.sleeping;
  pid = 0;
  runs = 0;
  need_resched = false;
  parent = none;
  flags = 0;
  exit_code = 0;
  wait_state = 0x8000_0002;
  cptr = none;
  yptr = none;
  optr = none;
  time_slice = 0;
}

-- Process 1 runs, 2 waits in the queue, 0 is idle, all others sleep.
abbrev procs : Table
procs p =
    if p == 1
    then record fresh { state = ProcState.runnable; wait_state = 0 }
    else if p == 2
    then record fresh { state = ProcState.runnable; wait_state = 0 }
    else fresh

abbrev timers : List Timer
timers =
    record { addr = 100; expires = 1; proc = 3 }
    ∷ record { addr = 101; expires = 0; proc = 4 }
    ∷ record { addr = 102; expires = 5; proc = 5 }
    ∷ []

abbrev start : State
start = record {
  procs = procs;
  current = 1;
  idleproc = 0;
  run_list = 2 ∷ [];
  proc_num = 1;
  max_time_slice = 20;
  timer_list = timers;
}

abbrev later : Timer
later = record { addr = 103; expires = 4; proc = 6 }

start-IsQueue : IsQueue start
unfolding count
start-IsQueue = record { queued = λ p. ground arith; counted = refl }

not_linked : timer_linked 103 timers ≡ false
unfolding timer_linked
not_linked = refl

add_timer-deadlines_example :
    (s' : State) × (add_timer later start ≡ some s')
    × (deadlines 0 s'.timer_list
        ≡ insert_deadline (record { timer = 103; proc = 6; at = 4 }) (deadlines 0 timers))
add_timer-deadlines_example = add_timer-deadlines later start (omega arith) not_linked

insert_in_the_middle :
    insert_deadline (record { timer = 103; proc = 6; at = 4 }) (deadlines 0 timers)
    ≡ record { timer = 100; proc = 3; at = 1 }
      ∷ record { timer = 101; proc = 4; at = 1 }
      ∷ record { timer = 103; proc = 6; at = 4 }
      ∷ record { timer = 102; proc = 5; at = 6 }
      ∷ []
unfolding insert_deadline
insert_in_the_middle = refl

del_timer-deadlines_example :
    deadlines 0 (del_timer 100 start).timer_list ≡ remove_deadline 100 (deadlines 0 timers)
del_timer-deadlines_example = del_timer-deadlines 100 start (omega arith)

timers-IsArmed : All (IsArmed start) timers
unfolding has_flag
timers-IsArmed = (
  record { alive = refl; waits = refl },
  (record { alive = refl; waits = refl }, (record { alive = refl; waits = refl }, tt)),
)

run_timer_list-IsQueue_example : (s : State) × (run_timer_list start ≡ some s) × IsQueue s
run_timer_list-IsQueue_example =
    run_timer_list-IsQueue start start-IsQueue (omega arith) timers-IsArmed

ticked : (s : State) × (run_timer_list start ≡ some s) × IsQueue s
ticked = run_timer_list-IsQueue start start-IsQueue (omega arith) timers-IsArmed

run_timer_list-deadlines_example : deadlines 0 ticked.0.timer_list ≡ after_tick (deadlines 0 timers)
run_timer_list-deadlines_example = run_timer_list-deadlines start ticked.0 ticked.1

after_the_tick : after_tick (deadlines 0 timers) ≡ record { timer = 102; proc = 5; at = 5 } ∷ []
unfolding after_tick
after_the_tick = refl

process_4_is_due : is_due 4 (deadlines 0 timers) ≡ true
unfolding is_due
process_4_is_due = refl

schedule-IsSwitched_example : (t : State) × (schedule start ≡ some t) × IsSwitched start t
schedule-IsSwitched_example = schedule-IsSwitched start start-IsQueue

schedule_times-current_example :
    (t : State) × (schedule_times 1 start ≡ some t) × (t.current ≡ 2) × IsQueue t
schedule_times-current_example = schedule_times-current 0 2 start start-IsQueue refl
