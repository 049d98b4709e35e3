-- ===== src/Sync/Waiting.antt =====
-- The sleep of the running process at a queue, and the switch behind it.
use mips.Base.{
  ℕ, ◌==◌, ◌≡◌, refl, true, false, some, [], ◌∷◌, ◌++◌, if◌then◌else◌, ◌&&◌, one_if, arith,
  Bool-cases, inl, inr, ==_refl, ℕ-cases, subst, sym, count, count-append, ap,
}
use mips.Proc.{ProcState, is_runnable, update, wt_interrupted}
use mips.Sched.{State, schedule}
use mips.Sched.States.{IsSame, schedule-IsSame}
use mips.Sched.RunQueue.{IsQueue, schedule-IsSwitched}
use mips.Sync.{Wait, Sync, wait_queue_add, wait_init, wait_current_set}
use mips.Sync.Queue.{IsLinked}

-- Another state of the scheduler in which every process is as before.
pub IsLinked-sched :
    (s : Sync) (t : State)
    → IsLinked s
    → ((r : ℕ) → IsSame r s.sched t)
    → IsQueue t
    → IsLinked (record s { sched = t })
IsLinked-sched s t i same v = record {
  links = i.links;
  owner = i.owner;
  asleep = λ w p on own. let (a, b) = i.asleep w p on own in ground (arith, same p);
  single = i.single;
  queue = v;
}

-- The process that runs waits at no queue.
pub current-apart :
    (v p : ℕ) (s : Sync)
    → IsLinked s
    → is_runnable (s.sched.procs s.sched.current).state ≡ true
    → (s.waits v).linked ≡ true
    → (s.waits v).proc ≡ some p
    → (p == s.sched.current) ≡ false
current-apart v p s i run on own = elim (ℕ-cases p s.sched.current) [
  | inl e ↦
      let (a, b) = i.asleep v p on own in
      absurd (ground (arith, subst (λ n. is_runnable (s.sched.procs n).state ≡ false) e a))
  | inr e ↦ ground arith
]

-- The state after `wait_current_set`.
abbrev pub waiting_state : (q w wait_state : ℕ) → Sync → Sync
waiting_state q w k s =
    let p = s.sched.current in
    let asleep = record (s.sched.procs p) { state = ProcState.sleeping; wait_state = k } in
    record s {
      sched = record s.sched { procs = update s.sched.procs p asleep };
      waits = λ v.
          if v == w
          then record {
            proc = some p;
            wakeup_flags = wt_interrupted;
            wait_queue = q;
            linked = true;
          }
          else s.waits v;
      queues = λ r. if r == q then s.queues q ++ (w ∷ []) else s.queues r;
    }

pub wait_current_set-waiting_state :
    (q w k : ℕ) (s : Sync) → wait_current_set q w k s ≡ some (waiting_state q w k s)
unfolding wait_current_set wait_queue_add wait_init
wait_current_set-waiting_state q w k s =
    let asleep : Wait = record {
      proc = some s.sched.current;
      wakeup_flags = wt_interrupted;
      wait_queue = (s.waits w).wait_queue;
      linked = false;
    } in
    let final : Wait = record asleep { wait_queue = q; linked = true } in
    let same : (v : ℕ)
        → (if v == w then final else if v == w then asleep else s.waits v)
          ≡ (if v == w then final else s.waits v) =
      λ v. elim (Bool-cases (v == w)) [ inl e ↦ rw e refl | inr e ↦ rw e refl ] in
    rw (==_refl w) (ap (λ f. some (record (waiting_state q w k s) { waits = f })) (λ j v. same v j))

waiting-links :
    (q w : ℕ) (s : Sync)
    → IsLinked s
    → (s.waits w).linked ≡ false
    → (r v : ℕ)
    → count v (if r == q then s.queues q ++ (w ∷ []) else s.queues r) ≡ (
        if v == w
        then one_if (q == r)
        else one_if ((s.waits v).linked && (s.waits v).wait_queue == r))
unfolding count
waiting-links q w s i off r v =
    let gone : count w (s.queues r) ≡ 0 = ground (arith, i.links r w) in
    let added = count-append v (s.queues r) (w ∷ []) in
    elim (ℕ-cases r q) [
      | inl e ↦
          subst
            (λ n. count v (if r == q then n ++ (w ∷ []) else s.queues r) ≡ (
              if v == w
              then one_if (q == r)
              else one_if ((s.waits v).linked && (s.waits v).wait_queue == r)))
            (ap s.queues e)
            (elim (ℕ-cases v w) [
              | inl f ↦
                  subst
                    (λ n. count n (if r == q then s.queues r ++ (w ∷ []) else s.queues r) ≡ (
                      if n == w
                      then one_if (q == r)
                      else one_if ((s.waits n).linked && (s.waits n).wait_queue == r)))
                    (sym f)
                    (ground (arith, gone, count-append w (s.queues r) (w ∷ []), ==_refl w, e))
              | inr f ↦ ground (arith, i.links r v, added)
            ])
      | inr e ↦ elim (ℕ-cases v w) [
        | inl f ↦
            subst
              (λ n. count n (if r == q then s.queues q ++ (w ∷ []) else s.queues r) ≡ (
                if n == w
                then one_if (q == r)
                else one_if ((s.waits n).linked && (s.waits n).wait_queue == r)))
              (sym f) (ground (arith, gone, ==_refl w))
        | inr f ↦ ground (arith, i.links r v)
      ]
    ]

pub waiting-IsLinked :
    (q w k : ℕ) (s : Sync)
    → IsLinked s
    → (s.waits w).linked ≡ false
    → is_runnable (s.sched.procs s.sched.current).state ≡ true
    → IsLinked (waiting_state q w k s)
waiting-IsLinked q w k s i off run = record {
  links = λ r v. ground (arith, waiting-links q w s i off r v);
  owner = λ v on. elim (Bool-cases (v == w)) [
    | inl e ↦ (s.sched.current, rw e refl)
    | inr e ↦ let (p, own) = i.owner v (ground arith) in (p, rw e own)
  ];
  asleep = λ v p on own. ground (arith, i.asleep v p);
  single = λ u v p on on' own own'. elim (Bool-cases (u == w)) [
    | inl e ↦ elim (Bool-cases (v == w)) [
      | inl f ↦ ground arith
      | inr f ↦ absurd (ground (arith, current-apart v p s i run))
    ]
    | inr e ↦ elim (Bool-cases (v == w)) [
      | inl f ↦ absurd (ground (arith, current-apart u p s i run))
      | inr f ↦ i.single u v p (ground arith) (ground arith) (ground arith) (ground arith)
    ]
  ];
  queue = record { queued = λ r. ground (arith, i.queue.queued r); counted = i.queue.counted };
}

-- The state behind `schedule`, once the process has gone to sleep.
pub record IsSwitchedAway (q w k : ℕ) (s : Sync) (t : State) : Type 0 where
  pub run : schedule (waiting_state q w k s).sched ≡ some t
  pub linked : IsLinked (record (waiting_state q w k s) { sched = t })
  pub same : (r : ℕ) → IsSame r (waiting_state q w k s).sched t

pub schedule-IsSwitchedAway :
    (q w k : ℕ) (s : Sync)
    → IsLinked s
    → (s.waits w).linked ≡ false
    → is_runnable (s.sched.procs s.sched.current).state ≡ true
    → (t : State) × IsSwitchedAway q w k s t
schedule-IsSwitchedAway q w k s i off run =
    let s1 = waiting_state q w k s in
    let i1 = waiting-IsLinked q w k s i off run in
    let (t, go, d) = schedule-IsSwitched s1.sched i1.queue in
    let same : (r : ℕ) → IsSame r s1.sched t = λ r. schedule-IsSame r s1.sched t go in
    (t, record { run = go; linked = IsLinked-sched s1 t i1 same d.queue; same = same })
