-- ===== src/Sync/Semaphore.antt =====
-- Semaphores: when units and waiters are right, and `up`.
use mips.Base.{
  ℕ, ◌+◌, ◌<◌, ◌==◌, ◌≡◌, refl, true, false, some, List, [], ◌∷◌, erase, arith, inl, inr, mem,
  ==_refl, ℕ-cases, subst, sym, count, mem_head, count_of_mem, ap, ◌∙◌,
}
use mips.Proc.{is_runnable, wt_ksem}
use mips.Sync.{Sync, put_value, up, up_with, wait_queue_first}
use mips.Sync.Queue.{IsLinked, IsWoken, wakeup_wait-IsWoken, apart}

-- Who waits at the semaphore `q` waits for a unit of it, and nobody does while there is one.
pub record IsSemaphore (q : ℕ) (s : Sync) : Type 0 where
  pub linked : IsLinked s
  pub exclusive : 0 < s.values q → s.queues q ≡ []
  pub waiting :
      (w p : ℕ)
      → mem w (s.queues q) ≡ true
      → (s.waits w).proc ≡ some p
      → (s.sched.procs p).wait_state ≡ wt_ksem

-- A wait of the queue is linked there.
pub in_queue :
    (q w : ℕ) (s : Sync)
    → IsLinked s
    → mem w (s.queues q) ≡ true
    → ((s.waits w).linked ≡ true) × ((s.waits w).wait_queue ≡ q)
in_queue q w s i m =
    let k : 0 < count w (s.queues q) = count_of_mem w (s.queues q) m in
    (ground (arith, i.links q w), ground (arith, i.links q w))

-- What `up` did: it added a unit, or it took the longest waiter from the line and woke its process.
pub data IsUp (q : ℕ) (s s' : Sync) : Type 0 where
  added : s.queues q ≡ [] → s'.queues q ≡ [] → s'.values q ≡ s.values q + 1 → IsUp q s s'
  woke :
      (w p : ℕ) (l : List ℕ)
      → s.queues q ≡ w ∷ l
      → s'.queues q ≡ l
      → s'.values q ≡ s.values q
      → (s.waits w).proc ≡ some p
      → (s'.waits w).wakeup_flags ≡ wt_ksem
      → (s'.waits w).linked ≡ false
      → is_runnable (s'.sched.procs p).state ≡ true
      → IsUp q s s'

added-IsSemaphore :
    (q : ℕ) (s : Sync)
    → IsSemaphore q s
    → s.queues q ≡ []
    → IsSemaphore q (put_value q (s.values q + 1) s)
added-IsSemaphore q s i e = record {
  linked = record {
    links = i.linked.links;
    owner = i.linked.owner;
    asleep = i.linked.asleep;
    single = i.linked.single;
    queue = i.linked.queue;
  };
  exclusive = λ h. e;
  waiting = i.waiting;
}

woke-IsSemaphore :
    (q w p : ℕ) (l : List ℕ) (s s' : Sync)
    → IsSemaphore q s
    → s.queues q ≡ w ∷ l
    → (s.waits w).linked ≡ true
    → (s.waits w).proc ≡ some p
    → IsWoken q w p wt_ksem s s'
    → (s'.queues q ≡ l) × IsSemaphore q s'
unfolding erase mem
woke-IsSemaphore q w p l s s' i e on own k =
    let same : s'.queues q ≡ l = rw (k.erased, e, ==_refl w) refl in
    (
      same,
      record {
        linked = k.linked;
        exclusive = λ h.
            let f : s.queues q ≡ [] = i.exclusive (ground (arith, k.values q)) in
            absurd (ground (arith, sym f ∙ e));
        waiting = λ v n m o.
            let (on', at') = in_queue q v s' k.linked m in
            let d : (v == w) ≡ false = other v on' in
            let kept = k.others v d in
            let before : mem v (s.queues q) ≡ true = rw (e, d) (rw (← same) m) in
            let mine : (s.waits v).proc ≡ some n = sym (ap (λ r. r.proc) kept) ∙ o in
            let (on'', at'') = in_queue q v s i.linked before in
            let different = apart v w n p s i.linked on'' on d mine own in
            (k.same n different).1 ∙ i.waiting v n before mine;
      },
    )
  where
    other : (v : ℕ) → (s'.waits v).linked ≡ true → (v == w) ≡ false
    other v on' = elim (ℕ-cases v w) [
      | inl f ↦ absurd (ground (arith, k.unlinked, subst (λ n. (s'.waits n).linked ≡ true) f on'))
      | inr f ↦ ground arith
    ]

-- `up` of a semaphore whose waiters are in order passes its assertions and returns: with nobody in
-- line it adds a unit, and else it takes the longest waiter from the line, wakes its process, and
-- leaves the units as they are. Units and waiters still exclude each other.
pub up-IsUp :
    (q : ℕ) (s : Sync)
    → IsSemaphore q s
    → (s' : Sync) × (up q s ≡ some s') × IsUp q s s' × IsSemaphore q s'
unfolding up up_with wait_queue_first
up-IsUp q s i = from_queue (s.queues q) refl
  where
    from_queue :
        (l : List ℕ)
        → s.queues q ≡ l
        → (s' : Sync) × (up q s ≡ some s') × IsUp q s s' × IsSemaphore q s'
    from_queue [] e = (
      put_value q (s.values q + 1) s,
      rw (e, up_with) refl,
      added e e (rw (==_refl q) refl),
      added-IsSemaphore q s i e,
    )
    from_queue (w ∷ l) e =
        let m : mem w (s.queues q) ≡ true = rw e (mem_head w l) in
        let (on, at) = in_queue q w s i.linked m in
        let (p, own) = i.linked.owner w on in
        let test : ((s.sched.procs p).wait_state == wt_ksem) ≡ true =
          ground (arith, i.waiting w p m own) in
        let (s', run, k) = wakeup_wait-IsWoken q w p wt_ksem s i.linked on at own in
        let (same, still) = woke-IsSemaphore q w p l s s' i e on own k in
        (
          s',
          rw (e, up_with) (rw own (rw test run)),
          woke w p l e same (k.values q) own k.flagged k.unlinked k.awake,
          still,
        )
