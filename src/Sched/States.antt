-- ===== src/Sched/States.antt =====
-- What wakeups and the switch do to the states of processes.
use mips.Base.{ℕ, ◌==◌, ◌≡◌, true, false, Option, none, some, arith, inl, inr, Option-cases, ◌∙◌}
use mips.Proc.{is_runnable}
use mips.Sched.{
  State, wakeup_proc, sched_class_enqueue, rr_enqueue, rr_dequeue, rr_pick_next, requeue_current,
  run_next, proc_run, dispatch, schedule,
}

-- A wakeup changes no other process's state, and makes its own runnable.
pub wakeup_proc-others :
    (p q : ℕ) (s s' : State)
    → wakeup_proc p s ≡ some s'
    → (q == p) ≡ false
    → ((s'.procs q).state ≡ (s.procs q).state) × ((s'.procs q).wait_state ≡ (s.procs q).wait_state)
unfolding wakeup_proc sched_class_enqueue rr_enqueue
wakeup_proc-others p q s s' e d = ground arith

pub wakeup_proc-runnable :
    (p : ℕ) (s s' : State) → wakeup_proc p s ≡ some s' → is_runnable (s'.procs p).state ≡ true
unfolding wakeup_proc sched_class_enqueue rr_enqueue
wakeup_proc-runnable p s s' e = ground arith

-- A wakeup changes no link between processes, and not the current one.
pub wakeup_proc-links :
    (p x : ℕ) (s s' : State)
    → wakeup_proc p s ≡ some s'
    → ((s'.procs x).cptr ≡ (s.procs x).cptr)
      × ((s'.procs x).optr ≡ (s.procs x).optr)
      × ((s'.procs x).yptr ≡ (s.procs x).yptr)
      × ((s'.procs x).parent ≡ (s.procs x).parent)
unfolding wakeup_proc sched_class_enqueue rr_enqueue
wakeup_proc-links p x s s' e =
    (ground (arith, e), ground (arith, e), ground (arith, e), ground (arith, e))

pub wakeup_proc-current :
    (p : ℕ) (s s' : State) → wakeup_proc p s ≡ some s' → s'.current ≡ s.current
unfolding wakeup_proc sched_class_enqueue rr_enqueue
wakeup_proc-current p s s' e = ground (arith, e)

-- Process `q` has the same state in both.
abbrev pub IsSame : ℕ → State → State → Type 0
IsSame q s s' =
    ((s'.procs q).state ≡ (s.procs q).state) × ((s'.procs q).wait_state ≡ (s.procs q).wait_state)

IsSame-trans : (q : ℕ) (s t u : State) → IsSame q s t → IsSame q t u → IsSame q s u
IsSame-trans q s t u (a, b) (c, d) = (c ∙ a, d ∙ b)

requeue_current-IsSame : (q : ℕ) (s s' : State) → requeue_current s ≡ some s' → IsSame q s s'
unfolding requeue_current sched_class_enqueue rr_enqueue
requeue_current-IsSame q s s' e = ground arith

run_next-IsSame : (p q : ℕ) (s : State) → IsSame q s (run_next p s)
unfolding run_next proc_run
run_next-IsSame p q s = ground arith

rr_dequeue-IsSame : (p q : ℕ) (s s' : State) → rr_dequeue p s ≡ some s' → IsSame q s s'
unfolding rr_dequeue
rr_dequeue-IsSame p q s s' e = ground arith

dispatch-IsSame :
    (next : Option ℕ) (q : ℕ) (s s' : State) → dispatch next s ≡ some s' → IsSame q s s'
unfolding dispatch
dispatch-IsSame none q s s' e = ground (arith, run_next-IsSame s.idleproc q s)
dispatch-IsSame (some p) q s s' e = elim (Option-cases (rr_dequeue p s)) [
  | inl stop ↦ absurd (ground arith)
  | inr (t, run) ↦
      let same : s' ≡ run_next p t = ground arith in
      rw same
        (IsSame-trans q s t (run_next p t) (rr_dequeue-IsSame p q s t run) (run_next-IsSame p q t))
]

-- The switch changes no process's state.
pub schedule-IsSame : (q : ℕ) (s s' : State) → schedule s ≡ some s' → IsSame q s s'
unfolding schedule
schedule-IsSame q s s' e = elim (Option-cases (requeue_current s)) [
  | inl stop ↦ absurd (ground arith)
  | inr (t, run) ↦
      IsSame-trans q s t s' (requeue_current-IsSame q s t run)
        (dispatch-IsSame (rr_pick_next t) q t s' (ground arith))
]
