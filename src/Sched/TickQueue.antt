-- ===== src/Sched/TickQueue.antt =====
-- The run queue under a tick.
use mips.Base.{
  ℕ, ◌-◌, ◌<◌, ◌==◌, ◌≡◌, refl, true, false, some, List, [], ◌∷◌, All, arith, inl, inr, ◌⊎◌, ◌||◌,
  ℕ-cases, ==_ne,
}
use mips.Proc.{runnable, is_zombie, has_flag, wt_interrupted, update}
use mips.Sched.{
  Timer, State, del_timer, wakeup_proc, sched_class_enqueue, rr_enqueue, expire_timer,
  expire_timers, advance_timers, run_timer_list, sched_class_proc_tick, rr_proc_tick,
}
use mips.Sched.Tick.{state-wakeup_proc}
use mips.Sched.RunQueue.{IsQueue, wakeup_proc-IsQueue}

-- The process of a timer can be woken: it is no zombie, and its wait can be interrupted.
pub record IsArmed (s : State) (t : Timer) : Type 0 where
  pub alive : is_zombie (s.procs t.proc).state ≡ false
  pub waits :
      ((s.procs t.proc).wait_state == 0 || has_flag (s.procs t.proc).wait_state wt_interrupted)
      ≡ true

wait_state-enqueue :
    (p q : ℕ) (s s' : State)
    → sched_class_enqueue p s ≡ some s'
    → (s'.procs q).wait_state ≡ (s.procs q).wait_state
unfolding sched_class_enqueue rr_enqueue
wait_state-enqueue p q s s' e = ground arith

wait_state-wakeup_proc :
    (p q : ℕ) (s s' : State)
    → wakeup_proc p s ≡ some s'
    → ((s'.procs q).wait_state ≡ (s.procs q).wait_state) ⊎ ((s'.procs q).wait_state ≡ 0)
unfolding wakeup_proc
wait_state-wakeup_proc p q s s' e =
    let old = s.procs p in
    let woken : State = record s {
      procs = update s.procs p (record old { state = runnable; wait_state = 0 });
    } in
    ground (arith, wait_state-enqueue p q woken s')

IsArmed-wakeup_proc :
    (p : ℕ) (t : Timer) (s s' : State) → wakeup_proc p s ≡ some s' → IsArmed s t → IsArmed s' t
IsArmed-wakeup_proc p t s s' e a = record {
  alive = ground (arith, state-wakeup_proc p t.proc s s' e, a.alive);
  waits = ground (arith, wait_state-wakeup_proc p t.proc s s' e, a.waits);
}

expire_timer-IsQueue :
    (t : Timer) (s : State)
    → IsQueue s
    → IsArmed s t
    → (s' : State) × (expire_timer t s ≡ some s')
      × IsQueue s'
      × ((u : Timer) → IsArmed s u → IsArmed s' u)
unfolding expire_timer del_timer
expire_timer-IsQueue t s v a =
    let (w, run, k) = wakeup_proc-IsQueue t.proc s v a.alive in
    (
      del_timer t.addr w,
      rw (a.waits, run),
      record { queued = k.queued; counted = k.counted },
      λ u b.
          let c = IsArmed-wakeup_proc t.proc u s w run b in
          record { alive = c.alive; waits = c.waits },
    )

All-map {ℓ} :
    {A : Type ℓ} (P Q : A → Type 0) (l : List A) → ((a : A) → P a → Q a) → All P l → All Q l
All-map P Q [] f h = tt
All-map P Q (x ∷ l) f h = (f x h.0, All-map P Q l f h.1)

expire_timers-IsQueue :
    (l : List Timer) (s : State)
    → IsQueue s
    → All (IsArmed s) l
    → (s' : State) × (expire_timers l s ≡ some s') × IsQueue s'
unfolding expire_timers
expire_timers-IsQueue [] s v a = (s, refl, v)
expire_timers-IsQueue (t ∷ l) s v a = elim (ℕ-cases t.expires 0) [
  | inl z ↦
      let (w, run, k, keep) = expire_timer-IsQueue t s v a.0 in
      let (s', end, k') =
        expire_timers-IsQueue l w k (All-map (IsArmed s) (IsArmed w) l keep a.1) in
      (s', rw z (rw run end), k')
  | inr z ↦ (s, ground arith, v)
]

abbrev pub HeadRuns : List Timer → Type 0
HeadRuns [] = Unit
HeadRuns (t ∷ l) = 0 < t.expires

advance_timers-IsQueue :
    (l : List Timer) (s : State)
    → IsQueue s
    → HeadRuns l
    → All (IsArmed s) l
    → (s' : State) × (advance_timers l s ≡ some s') × IsQueue s'
unfolding advance_timers
advance_timers-IsQueue [] s v h a = (s, refl, v)
advance_timers-IsQueue (t ∷ l) s v h a =
    let l' : List Timer = record t { expires = t.expires - 1 } ∷ l in
    let s1 : State = record s { timer_list = l' } in
    let head : IsArmed s1 (record t { expires = t.expires - 1 }) = record {
      alive = a.0.alive;
      waits = a.0.waits;
    } in
    let rest =
      All-map (IsArmed s) (IsArmed s1) l (λ u b. record { alive = b.alive; waits = b.waits }) a.1 in
    let (s', run, k) =
      expire_timers-IsQueue l' s1 (record { queued = v.queued; counted = v.counted })
        (head, rest) in
    (s', rw (==_ne t.expires 0 (omega arith)) run, k)

-- With a running head and timers whose processes can be woken, a tick passes its assertions and
-- keeps the run queue exact.
pub run_timer_list-IsQueue :
    (s : State)
    → IsQueue s
    → HeadRuns s.timer_list
    → All (IsArmed s) s.timer_list
    → (s' : State) × (run_timer_list s ≡ some s') × IsQueue s'
unfolding run_timer_list sched_class_proc_tick rr_proc_tick
run_timer_list-IsQueue s v h a =
    let (w, run, k) = advance_timers-IsQueue s.timer_list s v h a in
    (
      sched_class_proc_tick w.current w,
      rw run,
      record { queued = λ q. ground (arith, k.queued q); counted = k.counted },
    )
