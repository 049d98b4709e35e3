-- ===== src/Sync/Down.antt =====
-- Semaphores: `down` and `try_down`.
use mips.Base.{
  ℕ, ◌+◌, ◌-◌, ◌<◌, ◌==◌, ◌≡◌, refl, Bool, true, false, some, [], ◌∷◌, ◌++◌, ltb, one_if, arith,
  Bool-cases, inl, inr, mem, ==_refl, mem_of_count, ◌∙◌, ◌⊎◌, sym,
}
use mips.Proc.{is_runnable, wt_ksem}
use mips.Sched.{State}
use mips.Sched.States.{IsSame, schedule-IsSame}
use mips.Sched.RunQueue.{IsQueue, IsSwitched, candidates, schedule-IsSwitched}
use mips.Sync.{Sync, put_value, try_down, down_begin}
use mips.Sync.Waiting.{
  current-apart, waiting_state, wait_current_set-waiting_state, waiting-IsLinked, IsLinked-sched,
}
use mips.Sync.Semaphore.{IsSemaphore, in_queue}

-- A unit is taken.
taken-IsSemaphore :
    (q : ℕ) (s : Sync)
    → IsSemaphore q s
    → 0 < s.values q
    → IsSemaphore q (put_value q (s.values q - 1) s)
taken-IsSemaphore q s i h = record {
  linked = record {
    links = i.linked.links;
    owner = i.linked.owner;
    asleep = i.linked.asleep;
    single = i.linked.single;
    queue = i.linked.queue;
  };
  exclusive = λ k. i.exclusive h;
  waiting = i.waiting;
}

-- `try_down` takes a unit exactly if there is one, says so, and units and waiters still exclude
-- each other.
pub try_down-IsSemaphore :
    (q : ℕ) (s : Sync)
    → IsSemaphore q s
    → IsSemaphore q (try_down q s).1
      × ((try_down q s).1.values q + one_if (try_down q s).0 ≡ s.values q)
      × ((try_down q s).0 ≡ ltb 0 (s.values q))
unfolding try_down
try_down-IsSemaphore q s i = elim (Bool-cases (ltb 0 (s.values q))) [
  | inl e ↦ rw e (taken-IsSemaphore q s i (ground arith), rw (==_refl q) (ground arith), refl)
  | inr e ↦ rw e (i, omega arith, refl)
]

-- Another state of the scheduler in which every process is as before.
IsSemaphore-sched :
    (q : ℕ) (s : Sync) (t : State)
    → IsSemaphore q s
    → ((r : ℕ) → IsSame r s.sched t)
    → IsQueue t
    → IsSemaphore q (record s { sched = t })
IsSemaphore-sched q s t i same v = record {
  linked = IsLinked-sched s t i.linked same v;
  exclusive = i.exclusive;
  waiting = λ w p m own. (same p).1 ∙ i.waiting w p m own;
}

waiting-IsSemaphore :
    (q w : ℕ) (s : Sync)
    → IsSemaphore q s
    → s.values q ≡ 0
    → (s.waits w).linked ≡ false
    → is_runnable (s.sched.procs s.sched.current).state ≡ true
    → IsSemaphore q (waiting_state q w wt_ksem s)
waiting-IsSemaphore q w s i e off run =
    let t = waiting-IsLinked q w wt_ksem s i.linked off run in
    record {
      linked = t;
      exclusive = λ h. absurd (omega (arith, h, e));
      waiting = λ v p m own.
          let (on, at) = in_queue q v (waiting_state q w wt_ksem s) t m in
          elim (Bool-cases (v == w)) [
            | inl f ↦ ground (arith, own)
            | inr f ↦
                let on' : (s.waits v).linked ≡ true = ground arith in
                let at' : (s.waits v).wait_queue ≡ q = ground arith in
                let own' : (s.waits v).proc ≡ some p = ground arith in
                let m' : mem v (s.queues q) ≡ true =
                  mem_of_count v (s.queues q) (ground (arith, i.linked.links q v)) in
                let d = current-apart v p s i.linked run on' own' in rw d (i.waiting v p m' own')
          ];
    }

-- The processor has gone to the first process in line, or to the idle one when none is in line.
abbrev pub IsHanded : (before after : State) → Type 0
IsHanded s t =
    (t.current ∷ t.run_list ≡ s.run_list)
    ⊎ ((s.run_list ≡ []) × (t.current ≡ s.idleproc) × (t.run_list ≡ []))

-- What `down` did before its process runs again: it took a unit and switched to nobody, or its
-- process sleeps at the end of the line, marked as waiting for a unit, and has given up the processor.
pub data IsDown (q w : ℕ) (s : Sync) (r : Bool × Sync) : Type 0 where
  took :
      r.0 ≡ true
      → r.1.values q + 1 ≡ s.values q
      → r.1.queues q ≡ s.queues q
      → r.1.sched ≡ s.sched
      → IsDown q w s r
  waits :
      r.0 ≡ false
      → s.values q ≡ 0
      → r.1.values q ≡ 0
      → r.1.queues q ≡ s.queues q ++ (w ∷ [])
      → (r.1.waits w).proc ≡ some s.sched.current
      → is_runnable (r.1.sched.procs s.sched.current).state ≡ false
      → (r.1.sched.procs s.sched.current).wait_state ≡ wt_ksem
      → IsHanded s.sched r.1.sched
      → IsDown q w s r

-- The process that sleeps is no candidate of the switch.
handed :
    (q w : ℕ) (s : Sync) (t : State)
    → IsSwitched (waiting_state q w wt_ksem s).sched t
    → IsHanded s.sched t
handed q w s t k =
    let asleep : candidates (waiting_state q w wt_ksem s).sched ≡ s.sched.run_list =
      rw (==_refl s.sched.current) refl in
    elim k.line [ inl e ↦ inl (e ∙ asleep) | inr (n, c, r) ↦ inr (sym asleep ∙ n, c, r) ]

-- `down` of a running process, with a wait that is in no queue, passes the assertions on the way
-- to its return or to the switch: it takes a unit if there is one, with the processes as they are, and
-- else it puts the process to sleep at the end of the line and gives the processor to the first process
-- of the run queue, or to the idle one when none is there. Units and waiters still exclude each other.
pub down_begin-IsDown :
    (q w : ℕ) (s : Sync)
    → IsSemaphore q s
    → (s.waits w).linked ≡ false
    → is_runnable (s.sched.procs s.sched.current).state ≡ true
    → (r : Bool × Sync) × (down_begin q w wt_ksem s ≡ some r) × IsDown q w s r × IsSemaphore q r.1
unfolding down_begin
down_begin-IsDown q w s i off run = elim (Bool-cases (ltb 0 (s.values q))) [
  | inl e ↦ (
    (true, put_value q (s.values q - 1) s),
    rw e refl,
    took refl (rw (==_refl q) (ground arith)) refl refl,
    taken-IsSemaphore q s i (ground arith),
  )
  | inr e ↦
      let s1 = waiting_state q w wt_ksem s in
      let i1 = waiting-IsSemaphore q w s i (ground arith) off run in
      let (t, go, k) = schedule-IsSwitched s1.sched i1.linked.queue in
      let same : (r : ℕ) → IsSame r s1.sched t = λ r. schedule-IsSame r s1.sched t go in
      let s2 : Sync = record s1 { sched = t } in
      (
        (false, s2),
        rw (e, down_begin) (rw (wait_current_set-waiting_state q w wt_ksem s) (rw go refl)),
        waits refl (ground arith) (ground arith) (rw (==_refl q) refl) (rw (==_refl w) refl)
            (ground (arith, same s.sched.current, ==_refl s.sched.current))
            ((same s.sched.current).1 ∙ rw (==_refl s.sched.current) refl) (handed q w s t k),
        IsSemaphore-sched q s1 t i1 same k.queue,
      )
]
