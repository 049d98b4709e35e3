-- ===== src/Sched/Tick.antt =====
-- A clock tick of the timer list: what `run_timer_list` does to the deadlines and to the processes.
use mips.Base.{
  ℕ, ◌+◌, ◌-◌, ◌<◌, ◌==◌, ◌≡◌, refl, Bool, true, false, some, List, [], ◌∷◌, arith, if◌then◌else◌,
  inl, inr, ◌&&◌, ◌||◌, ℕ-cases,
}
use mips.Proc.{ProcState, runnable, is_runnable, update}
use mips.Sched.{
  Timer, State, remove_timer, del_timer, wakeup_proc, sched_class_enqueue, rr_enqueue, expire_timer,
  expire_timers, advance_timers, run_timer_list, sched_class_proc_tick, rr_proc_tick,
}
use mips.Sched.Timers.{Deadline, deadlines, deadlines-now}

-- The deadlines after one tick: those at 1 are gone, the others come one tick nearer.
unfoldable pub after_tick : List Deadline → List Deadline
after_tick [] = []
after_tick (d ∷ l) = if d.at == 1 then after_tick l else record d { at = d.at - 1 } ∷ after_tick l

drop_expired : List Timer → List Timer
drop_expired [] = []
drop_expired (t ∷ l) = if t.expires == 0 then drop_expired l else t ∷ l

timer_list-wakeup_proc :
    (p : ℕ) (s s' : State) → wakeup_proc p s ≡ some s' → s'.timer_list ≡ s.timer_list
unfolding wakeup_proc sched_class_enqueue rr_enqueue
timer_list-wakeup_proc p s s' e = ground arith

remove_timer-head : (t : Timer) (l : List Timer) → t.expires ≡ 0 → remove_timer t.addr (t ∷ l) ≡ l
unfolding remove_timer
remove_timer-head t l e = ground arith

expire_timer-some :
    (t : Timer) (s s' : State)
    → expire_timer t s ≡ some s'
    → (w : State) × (wakeup_proc t.proc s ≡ some w) × (s' ≡ del_timer t.addr w)
unfolding expire_timer
expire_timer-some t s s' h = ground arith

timer_list-expire_timer :
    (t : Timer) (l : List Timer) (s s' : State)
    → s.timer_list ≡ t ∷ l
    → t.expires ≡ 0
    → expire_timer t s ≡ some s'
    → s'.timer_list ≡ l
unfolding del_timer
timer_list-expire_timer t l s s' e z h =
    let (w, k, f) = expire_timer-some t s s' h in
    ground (arith, timer_list-wakeup_proc t.proc s w k, remove_timer-head t l z)

expire_timers-step :
    (t : Timer) (l : List Timer) (s s' : State)
    → t.expires ≡ 0
    → expire_timers (t ∷ l) s ≡ some s'
    → (w : State) × (expire_timer t s ≡ some w) × (expire_timers l w ≡ some s')
unfolding expire_timers
expire_timers-step t l s s' z h = ground arith

timer_list-expire_timers :
    (l : List Timer) (s s' : State)
    → s.timer_list ≡ l
    → expire_timers l s ≡ some s'
    → s'.timer_list ≡ drop_expired l
unfolding expire_timers drop_expired
timer_list-expire_timers [] s s' e h = ground arith
timer_list-expire_timers (t ∷ l) s s' e h = elim (ℕ-cases t.expires 0) [
  | inl z ↦
      let (w, k, f) = expire_timers-step t l s s' z h in
      ground (arith, timer_list-expire_timers l w s' (timer_list-expire_timer t l s w e z k) f)
  | inr z ↦ ground arith
]

-- Past the first unexpired timer every deadline is later.
deadlines-later :
    (now : ℕ) (l : List Timer) → 0 < now → after_tick (deadlines (now + 1) l) ≡ deadlines now l
unfolding after_tick
deadlines-later now [] h = refl
deadlines-later now (t ∷ l) h = ground (
  arith,
  deadlines-later (now + t.expires) l,
  deadlines-now (now + 1 + t.expires) (now + t.expires + 1) l,
)

deadlines-drop_expired :
    (l : List Timer) → after_tick (deadlines 1 l) ≡ deadlines 0 (drop_expired l)
unfolding after_tick drop_expired
deadlines-drop_expired [] = refl
deadlines-drop_expired (t ∷ l) = ground (
  arith,
  deadlines-drop_expired l,
  deadlines-later t.expires l,
  deadlines-now (1 + t.expires) 1 l,
  deadlines-now (1 + t.expires) (t.expires + 1) l,
  deadlines-now (0 + t.expires) t.expires l,
)

advance_timers-cons :
    (t : Timer) (l : List Timer) (s s' : State)
    → advance_timers (t ∷ l) s ≡ some s'
    → let l' = record t { expires = t.expires - 1 } ∷ l in
      (0 < t.expires) × (expire_timers l' (record s { timer_list = l' }) ≡ some s')
unfolding advance_timers
advance_timers-cons t l s s' h = ground arith

advance_timers-deadlines :
    (l : List Timer) (s s' : State)
    → s.timer_list ≡ l
    → advance_timers l s ≡ some s'
    → deadlines 0 s'.timer_list ≡ after_tick (deadlines 0 l)
unfolding after_tick
advance_timers-deadlines [] s s' e h = unfold advance_timers in ground arith
advance_timers-deadlines (t ∷ l) s s' e h =
    let (pos, run) = advance_timers-cons t l s s' h in
    let l' : List Timer = record t { expires = t.expires - 1 } ∷ l in
    rw
      (
        timer_list-expire_timers l' (record s { timer_list = l' }) s' refl run,
        ← deadlines-drop_expired l',
      )
      (ground (arith, deadlines-now (1 + (t.expires - 1)) (0 + t.expires) l))

run_timer_list-some :
    (s s' : State)
    → run_timer_list s ≡ some s'
    → (w : State) × (advance_timers s.timer_list s ≡ some w)
      × (s' ≡ sched_class_proc_tick w.current w)
unfolding run_timer_list
run_timer_list-some s s' h = ground arith

-- A tick that passes its assertions takes away the timers that are due and brings every other
-- deadline one tick nearer.
pub run_timer_list-deadlines :
    (s s' : State)
    → run_timer_list s ≡ some s'
    → deadlines 0 s'.timer_list ≡ after_tick (deadlines 0 s.timer_list)
unfolding sched_class_proc_tick
run_timer_list-deadlines s s' h =
    let (w, run, e) = run_timer_list-some s s' h in
    ground (arith, advance_timers-deadlines s.timer_list s w refl run)

-- Some deadline of process `q` is the coming tick.
unfoldable pub is_due : ℕ → List Deadline → Bool
is_due q [] = false
is_due q (d ∷ l) = d.at == 1 && d.proc == q || is_due q l

expires_with : ℕ → List Timer → Bool
expires_with q [] = false
expires_with q (t ∷ l) = if t.expires == 0 then t.proc == q || expires_with q l else false

is_due-later : (q now : ℕ) (l : List Timer) → 1 < now → is_due q (deadlines now l) ≡ false
unfolding is_due
is_due-later q now [] h = refl
is_due-later q now (t ∷ l) h = ground (arith, is_due-later q (now + t.expires) l)

is_due-expires_with : (q : ℕ) (l : List Timer) → is_due q (deadlines 1 l) ≡ expires_with q l
unfolding is_due expires_with
is_due-expires_with q [] = refl
is_due-expires_with q (t ∷ l) = ground (
  arith,
  is_due-expires_with q l,
  is_due-later q (1 + t.expires) l,
  deadlines-now (1 + t.expires) 1 l,
)

state-enqueue :
    (p q : ℕ) (s s' : State)
    → sched_class_enqueue p s ≡ some s'
    → (s'.procs q).state ≡ (s.procs q).state
unfolding sched_class_enqueue rr_enqueue
state-enqueue p q s s' e = ground arith

is_runnable-eq : (r : ProcState) → is_runnable r ≡ true → r ≡ runnable
is_runnable-eq r h = ground arith

pub state-wakeup_proc :
    (p q : ℕ) (s s' : State)
    → wakeup_proc p s ≡ some s'
    → (s'.procs q).state ≡ (if p == q then runnable else (s.procs q).state)
unfolding wakeup_proc
state-wakeup_proc p q s s' e =
    let old = s.procs p in
    let woken : State = record s {
      procs = update s.procs p (record old { state = runnable; wait_state = 0 });
    } in
    ground (arith, state-enqueue p q woken s', is_runnable-eq (s.procs p).state)

state-expire_timer :
    (q : ℕ) (t : Timer) (s s' : State)
    → expire_timer t s ≡ some s'
    → (s'.procs q).state ≡ (if t.proc == q then runnable else (s.procs q).state)
unfolding del_timer
state-expire_timer q t s s' h =
    let (w, k, e) = expire_timer-some t s s' h in ground (arith, state-wakeup_proc t.proc q s w k)

state-expire_timers :
    (q : ℕ) (l : List Timer) (s s' : State)
    → expire_timers l s ≡ some s'
    → (s'.procs q).state ≡ (if expires_with q l then runnable else (s.procs q).state)
unfolding expires_with expire_timers
state-expire_timers q [] s s' h = ground arith
state-expire_timers q (t ∷ l) s s' h = elim (ℕ-cases t.expires 0) [
  | inl z ↦
      let (w, k, f) = expire_timers-step t l s s' z h in
      ground (arith, state-expire_timers q l w s' f, state-expire_timer q t s w k)
  | inr z ↦ ground arith
]

state-advance_timers :
    (q : ℕ) (l : List Timer) (s s' : State)
    → advance_timers l s ≡ some s'
    → (s'.procs q).state ≡ (if is_due q (deadlines 0 l) then runnable else (s.procs q).state)
unfolding is_due advance_timers
state-advance_timers q [] s s' h = ground arith
state-advance_timers q (t ∷ l) s s' h =
    let (pos, run) = advance_timers-cons t l s s' h in
    let l' : List Timer = record t { expires = t.expires - 1 } ∷ l in
    ground (
      arith,
      state-expire_timers q l' (record s { timer_list = l' }) s' run,
      is_due-expires_with q l',
      deadlines-now (0 + t.expires) t.expires l,
      deadlines-now (1 + (t.expires - 1)) t.expires l,
    )

-- The processes that a tick makes runnable are those with a timer that is due; the state of every
-- other process stays what it was.
pub run_timer_list-state :
    (q : ℕ) (s s' : State)
    → run_timer_list s ≡ some s'
    → (s'.procs q).state
      ≡ (if is_due q (deadlines 0 s.timer_list) then runnable else (s.procs q).state)
unfolding sched_class_proc_tick rr_proc_tick
run_timer_list-state q s s' h =
    let (w, run, e) = run_timer_list-some s s' h in
    ground (arith, state-advance_timers q s.timer_list s w run)
