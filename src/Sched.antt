-- ===== src/Sched.antt =====
-- The scheduler: kern/schedule/default_sched.c (the round-robin class) and
-- kern/schedule/sched.c (wakeups, the switch, the timers).
-- A `list_entry_t` list is the list of the addresses linked in it, head first; an entry that
-- `list_empty` finds linked to itself is one that stands in no list. The bodies run with interrupts
-- off, so each is one step on the state. `none` is a failed `assert`.
pub mod Timers
pub mod Tick
pub mod RunQueue
pub mod States
pub mod Turns
pub mod TickQueue
mod Tests
use mips.Base.{
  ℕ, ◌==◌, ◌+◌, ◌-◌, ◌^◌, ◌%◌, Bool, true, false, Option, none, some, List, [], ◌∷◌, ◌++◌, ltb,
  if◌then◌else◌, ◌>>=◌, ◌>>◌, assert, mem, erase, not, ◌||◌, ◌&&◌,
}
use mips.Proc.{
  ProcState, runnable, Proc, Table, update, is_runnable, is_zombie, has_flag, wt_interrupted,
}

-- `timer_t`, with its address.
pub record Timer : Type 0 where
  pub addr : ℕ
  pub expires : ℕ
  pub proc : ℕ

-- `struct run_queue`, the timer list, and the globals that the scheduler works on.
pub record State : Type 0 where
  pub procs : Table
  pub current : ℕ
  pub idleproc : ℕ
  pub run_list : List ℕ
  pub proc_num : ℕ
  pub max_time_slice : ℕ
  pub timer_list : List Timer

-- `RR_init`, called by `sched_init`, which also empties the timer list.
pub sched_init : State → State
sched_init s = record s { timer_list = []; max_time_slice = 20; run_list = []; proc_num = 0 }

pub rr_enqueue : ℕ → State → Option State
rr_enqueue p s = do
  assert (not (mem p s.run_list))
  let old = s.procs p
  let slice =
      if old.time_slice == 0 || ltb s.max_time_slice old.time_slice
      then s.max_time_slice
      else old.time_slice
  some (record s {
    run_list = s.run_list ++ (p ∷ []);
    procs = update s.procs p (record old { time_slice = slice });
    proc_num = (s.proc_num + 1) % 2 ^ 32;
  })

-- There is one run queue, so that `proc->rq == rq` of the assertion holds for every process in it.
pub rr_dequeue : ℕ → State → Option State
rr_dequeue p s = do
  assert (mem p s.run_list)
  some (record s { run_list = erase p s.run_list; proc_num = (s.proc_num + 2 ^ 32 - 1) % 2 ^ 32 })

pub rr_pick_next : State → Option ℕ
rr_pick_next s = elim s.run_list [ [] ↦ none | p ∷ _ ↦ some p ]

-- `RR_proc_tick` on the descriptor: the decrement, then the test of what is left.
pub rr_proc_tick : Proc → Proc
rr_proc_tick p =
    let left = if ltb 0 p.time_slice then p.time_slice - 1 else p.time_slice in
    record p { time_slice = left; need_resched = if left == 0 then true else p.need_resched }

pub sched_class_enqueue : ℕ → State → Option State
unfolding rr_enqueue
sched_class_enqueue p s = if p == s.idleproc then some s else rr_enqueue p s

pub sched_class_proc_tick : ℕ → State → State
unfolding rr_proc_tick
sched_class_proc_tick p s =
    let old = s.procs p in
    let new = if p == s.idleproc then record old { need_resched = true } else rr_proc_tick old in
    record s { procs = update s.procs p new }

pub wakeup_proc : ℕ → State → Option State
unfolding sched_class_enqueue
wakeup_proc p s = do
  assert (not (is_zombie (s.procs p).state))
  if is_runnable (s.procs p).state
      then some s
      else let old = s.procs p in
        let s' = record s {
          procs = update s.procs p (record old { state = runnable; wait_state = 0 });
        } in
        if p == s.current then some s' else sched_class_enqueue p s'

-- `proc_run` of proc.c: what the kernel keeps of a switch is `current`.
pub proc_run : ℕ → State → State
proc_run p s = if p == s.current then s else record s { current = p }

-- The enqueue of the process that gives up the processor.
requeue_current : State → Option State
unfolding sched_class_enqueue
requeue_current s =
    let old = s.procs s.current in
    let s' = record s { procs = update s.procs s.current (record old { need_resched = false }) } in
    if is_runnable old.state then sched_class_enqueue s.current s' else some s'

-- The count of runs and the switch.
run_next : ℕ → State → State
unfolding proc_run
run_next p s =
    let old = s.procs p in
    let s' = record s {
      procs = update s.procs p (record old { runs = (old.runs + 1) % 2 ^ 32 });
    } in
    if p == s.current then s' else proc_run p s'

-- From the choice of the next process on.
dispatch : Option ℕ → State → Option State
unfolding rr_dequeue run_next
dispatch none s = some (run_next s.idleproc s)
dispatch (some p) s = do s' ← rr_dequeue p s; some (run_next p s')

pub schedule : State → Option State
unfolding requeue_current rr_pick_next dispatch
schedule s = do s' ← requeue_current s; dispatch (rr_pick_next s') s'

-- `add_timer` walks with the new timer's `expires` counted down.
pub insert_timer : Timer → List Timer → List Timer
insert_timer t [] = t ∷ []
insert_timer t (n ∷ l) = elim (ltb t.expires n.expires) [
  | true ↦ t ∷ record n { expires = n.expires - t.expires } ∷ l
  | false ↦ n ∷ insert_timer (record t { expires = t.expires - n.expires }) l
]

pub timer_linked : ℕ → List Timer → Bool
timer_linked a [] = false
timer_linked a (n ∷ l) = a == n.addr || timer_linked a l

pub add_timer : Timer → State → Option State
unfolding insert_timer timer_linked
add_timer t s = do
  assert (ltb 0 t.expires)
  assert (not (timer_linked t.addr s.timer_list))
  some (record s { timer_list = insert_timer t s.timer_list })

-- `del_timer`: the timer's remaining ticks go to the one behind it (`expires` is 32 bits wide).
give_ticks : ℕ → List Timer → List Timer
give_ticks k [] = []
give_ticks k (n ∷ l) = record n { expires = (n.expires + k) % 2 ^ 32 } ∷ l

pub remove_timer : ℕ → List Timer → List Timer
unfolding give_ticks
remove_timer a [] = []
remove_timer a (n ∷ l) =
    if a == n.addr
    then (if n.expires == 0 then l else give_ticks n.expires l)
    else n ∷ remove_timer a l

pub del_timer : ℕ → State → State
unfolding remove_timer
del_timer a s = record s { timer_list = remove_timer a s.timer_list }

-- The body of the loop of `run_timer_list` for the timer at the head.
expire_timer : Timer → State → Option State
unfolding wakeup_proc del_timer
expire_timer t s = do
  let w = (s.procs t.proc).wait_state
  assert (w == 0 || has_flag w wt_interrupted)
  s' ← wakeup_proc t.proc s
  some (del_timer t.addr s')

-- The loop: it goes down the list as it stood, while the head has no ticks left.
expire_timers : List Timer → State → Option State
unfolding expire_timer
expire_timers [] s = some s
expire_timers (t ∷ l) s = elim (t.expires == 0) [
  | true ↦ (do s' ← expire_timer t s; expire_timers l s')
  | false ↦ some s
]

-- The head counts down, then the loop runs.
advance_timers : List Timer → State → Option State
unfolding expire_timers
advance_timers [] s = some s
advance_timers (t ∷ l) s = do
  assert (not (t.expires == 0))
  let l' = record t { expires = t.expires - 1 } ∷ l
  expire_timers l' (record s { timer_list = l' })

pub run_timer_list : State → Option State
unfolding advance_timers sched_class_proc_tick
run_timer_list s = do s' ← advance_timers s.timer_list s; some (sched_class_proc_tick s'.current s')
