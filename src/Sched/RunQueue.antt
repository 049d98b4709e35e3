-- ===== src/Sched/RunQueue.antt =====
-- The run queue of sched.c, which is to hold the runnable processes that are neither running nor
-- idle, each once, and the switch.
use mips.Base.{
  ltb, ℕ, ◌+◌, ◌-◌, ◌^◌, ◌%◌, ◌==◌, ◌≡◌, refl, Bool, true, false, some, none, List, [], ◌∷◌, ◌++◌,
  arith, ap, if◌then◌else◌, Bool-cases, inl, inr, ◌&&◌, ◌||◌, not, one_if, ◌⊎◌, ◌∙◌, sym, count,
  length, erase, mem, count-append, length-append, not_mem_of_count,
}
use mips.Proc.{runnable, is_zombie, is_runnable, update}
use mips.Sched.{
  State, wakeup_proc, sched_class_enqueue, rr_enqueue, rr_dequeue, rr_pick_next, requeue_current,
  run_next, proc_run, dispatch, schedule,
}

-- Process `p` waits for the processor.
abbrev pub is_ready : State → ℕ → Bool
is_ready s p = is_runnable (s.procs p).state && not (p == s.current) && not (p == s.idleproc)

pub record IsQueue (s : State) : Type 0 where
  pub queued : (p : ℕ) → count p s.run_list ≡ one_if (is_ready s p)
  pub counted : s.proc_num ≡ length s.run_list % 2 ^ 32

-- The queue of a state in which `p` is not yet linked.
record IsQueueBut (p : ℕ) (s : State) : Type 0 where
  queued : (q : ℕ) → count q s.run_list ≡ one_if (is_ready s q && not (q == p))
  counted : s.proc_num ≡ length s.run_list % 2 ^ 32

count-snoc : (q p : ℕ) (l : List ℕ) → count q (l ++ (p ∷ [])) ≡ count q l + one_if (q == p)
unfolding count
count-snoc q p l = ground (arith, count-append q l (p ∷ []))

-- `s'` is `s` with `p` at the end of the queue, up to time slices.
record IsEnqueued (p : ℕ) (s s' : State) : Type 0 where
  run_list : s'.run_list ≡ s.run_list ++ (p ∷ [])
  proc_num : s'.proc_num ≡ (s.proc_num + 1) % 2 ^ 32
  same : (s'.current ≡ s.current) × (s'.idleproc ≡ s.idleproc)
  states : (q : ℕ) → (s'.procs q).state ≡ (s.procs q).state

rr_enqueue-IsEnqueued :
    (p : ℕ) (s : State)
    → count p s.run_list ≡ 0
    → (s' : State) × (rr_enqueue p s ≡ some s') × IsEnqueued p s s'
unfolding rr_enqueue
rr_enqueue-IsEnqueued p s h =
    let old = s.procs p in
    let slice : ℕ =
      if old.time_slice == 0 || ltb s.max_time_slice old.time_slice
      then s.max_time_slice
      else old.time_slice in
    (
      record s {
        run_list = s.run_list ++ (p ∷ []);
        procs = update s.procs p (record old { time_slice = slice });
        proc_num = (s.proc_num + 1) % 2 ^ 32;
      },
      ground (arith, not_mem_of_count p s.run_list h),
      record { run_list = refl; proc_num = refl; same = (refl, refl); states = λ q. ground arith },
    )

counted-IsEnqueued :
    {p : ℕ} {s s' : State}
    → IsEnqueued p s s'
    → s.proc_num ≡ length s.run_list % 2 ^ 32
    → s'.proc_num ≡ length s'.run_list % 2 ^ 32
counted-IsEnqueued {p} {s} e h = rw (e.run_list, e.proc_num, h, length-append) (omega arith)

rr_enqueue-IsQueue :
    (p : ℕ) (s : State)
    → IsQueueBut p s
    → is_ready s p ≡ true
    → (s' : State) × (rr_enqueue p s ≡ some s') × IsQueue s'
rr_enqueue-IsQueue p s v h =
    let (s', run, e) = rr_enqueue-IsEnqueued p s (ground (arith, v.queued p)) in
    (
      s',
      run,
      record {
        queued = λ q.
            rw e.run_list
              (ground (arith, count-snoc q p s.run_list, v.queued q, e.states q, e.same));
        counted = counted-IsEnqueued e v.counted;
      },
    )

abbrev woken : ℕ → State → State
woken p s =
    let old = s.procs p in
    record s { procs = update s.procs p (record old { state = runnable; wait_state = 0 }) }

sched_class_enqueue-IsQueue :
    (p : ℕ) (s : State)
    → IsQueueBut p s
    → is_runnable (s.procs p).state ≡ true
    → (p == s.current) ≡ false
    → (s' : State) × (sched_class_enqueue p s ≡ some s') × IsQueue s'
unfolding sched_class_enqueue
sched_class_enqueue-IsQueue p s v h c = elim (Bool-cases (p == s.idleproc)) [
  | inl i ↦ (s, rw i, record { queued = λ q. ground (arith, v.queued q); counted = v.counted })
  | inr i ↦ rw i (rr_enqueue-IsQueue p s v (rw (h, c, i)))
]

woken-IsQueueBut :
    (p : ℕ) (s : State)
    → IsQueue s
    → is_runnable (s.procs p).state ≡ false
    → IsQueueBut p (woken p s)
woken-IsQueueBut p s v h = record { queued = λ q. ground (arith, v.queued q); counted = v.counted }

-- A wakeup of a process that is no zombie returns, and keeps the queue exact.
pub wakeup_proc-IsQueue :
    (p : ℕ) (s : State)
    → IsQueue s
    → is_zombie (s.procs p).state ≡ false
    → (s' : State) × (wakeup_proc p s ≡ some s') × IsQueue s'
unfolding wakeup_proc
wakeup_proc-IsQueue p s v h = elim (Bool-cases (is_runnable (s.procs p).state)) [
  | inl r ↦ (s, rw (h, r), v)
  | inr r ↦
      rw (h, r)
        (elim (Bool-cases (p == s.current)) [
          | inl c ↦ (
            woken p s,
            rw c,
            record { queued = λ q. ground (arith, v.queued q); counted = v.counted },
          )
          | inr c ↦ rw c (
              sched_class_enqueue-IsQueue p (woken p s) (woken-IsQueueBut p s v r) (ground arith) c)
        ])
]

-- The processes that `schedule` chooses from, in order: those that wait, then the one that
-- runs, if it still can.
abbrev pub candidates : State → List ℕ
candidates s =
    if is_runnable (s.procs s.current).state && not (s.current == s.idleproc)
    then s.run_list ++ (s.current ∷ [])
    else s.run_list

-- The state after `requeue_current`: every runnable process but the idle one is linked.
record IsRequeued (s s' : State) : Type 0 where
  queued :
      (p : ℕ)
      → count p s'.run_list ≡ one_if (is_runnable (s'.procs p).state && not (p == s'.idleproc))
  counted : s'.proc_num ≡ length s'.run_list % 2 ^ 32
  order : s'.run_list ≡ candidates s
  same : (s'.current ≡ s.current) × (s'.idleproc ≡ s.idleproc)

abbrev rested : State → State
rested s =
    let old = s.procs s.current in
    record s { procs = update s.procs s.current (record old { need_resched = false }) }

requeue_current-IsRequeued :
    (s : State) → IsQueue s → (s' : State) × (requeue_current s ≡ some s') × IsRequeued s s'
unfolding requeue_current sched_class_enqueue
requeue_current-IsRequeued s v = elim (Bool-cases (is_runnable (s.procs s.current).state)) [
  | inl r ↦ elim (Bool-cases (s.current == s.idleproc)) [
    | inl i ↦ (
      rested s,
      rw (r, i),
      record {
        queued = λ q. ground (arith, v.queued q);
        counted = v.counted;
        order = rw (r, i);
        same = (refl, refl);
      },
    )
    | inr i ↦
        let (s', run, e) =
          rr_enqueue-IsEnqueued s.current (rested s) (ground (arith, v.queued s.current)) in
        (
          s',
          rw (r, i) run,
          record {
            queued = λ q.
                rw e.run_list (
                  ground
                    (arith, count-snoc q s.current s.run_list, v.queued q, e.states q, e.same));
            counted = counted-IsEnqueued e v.counted;
            order = rw (e.run_list, r, i);
            same = e.same;
          },
        )
  ]
  | inr r ↦ (
    rested s,
    rw r,
    record {
      queued = λ q. ground (arith, v.queued q);
      counted = v.counted;
      order = rw r;
      same = (refl, refl);
    },
  )
]

-- What `schedule` is to do: run the first candidate, or the idle process if there is none, and
-- leave the other candidates in line.
pub record IsSwitched (s s' : State) : Type 0 where
  pub queue : IsQueue s'
  pub line :
      (s'.current ∷ s'.run_list ≡ candidates s)
      ⊎ ((candidates s ≡ []) × (s'.current ≡ s.idleproc) × (s'.run_list ≡ []))

record IsRun (p : ℕ) (s t : State) : Type 0 where
  current : t.current ≡ p
  same : (t.run_list ≡ s.run_list) × (t.proc_num ≡ s.proc_num) × (t.idleproc ≡ s.idleproc)
  states : (q : ℕ) → (t.procs q).state ≡ (s.procs q).state

run_next-IsRun : (p : ℕ) (s : State) → IsRun p s (run_next p s)
unfolding run_next proc_run
run_next-IsRun p s = record {
  current = ground arith;
  same = ground arith;
  states = λ q. ground arith;
}

idle-IsSwitched :
    (s s' t : State) → s'.run_list ≡ [] → IsRequeued s s' → IsRun s'.idleproc s' t → IsSwitched s t
idle-IsSwitched s s' t e v r = record {
  queue = record {
    queued = λ q. ground (arith, v.queued q, r.states q, r.same, r.current);
    counted = rw (r.same.0, r.same.1) v.counted;
  };
  line = inr (sym v.order ∙ e, r.current ∙ v.same.1, r.same.0 ∙ e);
}

next-IsSwitched :
    (p : ℕ) (l : List ℕ) (s s' t : State)
    → s'.run_list ≡ p ∷ l
    → IsRequeued s s'
    → IsRun p (record s' { run_list = l; proc_num = (s'.proc_num + 2 ^ 32 - 1) % 2 ^ 32 }) t
    → IsSwitched s t
unfolding count
next-IsSwitched p l s s' t e v r = record {
  queue = record {
    queued = λ q. ground (arith, v.queued q, ap (count q) e, r.states q, r.same, r.current);
    counted = ground (arith, v.counted, r.same, ap length e);
  };
  line = inl (rw (r.current, r.same.0, ← e) v.order);
}

rr_dequeue-head :
    (p : ℕ) (l : List ℕ) (s : State)
    → s.run_list ≡ p ∷ l
    → rr_dequeue p s
      ≡ some (record s { run_list = l; proc_num = (s.proc_num + 2 ^ 32 - 1) % 2 ^ 32 })
unfolding rr_dequeue mem erase
rr_dequeue-head p l s e = rw e (ground arith)

rr_pick_next-nil : (s : State) → s.run_list ≡ [] → rr_pick_next s ≡ none
unfolding rr_pick_next
rr_pick_next-nil s e = ground arith

rr_pick_next-head : (p : ℕ) (l : List ℕ) (s : State) → s.run_list ≡ p ∷ l → rr_pick_next s ≡ some p
unfolding rr_pick_next
rr_pick_next-head p l s e = ground arith

dispatch-IsSwitched :
    (l : List ℕ) (s s' : State)
    → s'.run_list ≡ l
    → IsRequeued s s'
    → (t : State) × (dispatch (rr_pick_next s') s' ≡ some t) × IsSwitched s t
unfolding dispatch
dispatch-IsSwitched [] s s' e v = (
  run_next s'.idleproc s',
  rw (rr_pick_next-nil s' e),
  idle-IsSwitched s s' _ e v (run_next-IsRun s'.idleproc s'),
)
dispatch-IsSwitched (p ∷ l) s s' e v =
    let rest = record s' { run_list = l; proc_num = (s'.proc_num + 2 ^ 32 - 1) % 2 ^ 32 } in
    (
      run_next p rest,
      rw (rr_pick_next-head p l s' e, rr_dequeue-head p l s' e),
      next-IsSwitched p l s s' _ e v (run_next-IsRun p rest),
    )

-- From an exact queue `schedule` passes every assertion, and gives the processor to the process
-- that has waited longest; the one that gives it up, if runnable, goes to the end of the line.
pub schedule-IsSwitched :
    (s : State) → IsQueue s → (t : State) × (schedule s ≡ some t) × IsSwitched s t
unfolding schedule
schedule-IsSwitched s v =
    let (s', run, e) = requeue_current-IsRequeued s v in
    rw run (dispatch-IsSwitched s'.run_list s s' refl e)
