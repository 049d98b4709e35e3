-- ===== src/Sync/Wakeup.antt =====
-- The wakeup of a whole queue, and the return of a woken down.
use mips.Base.{
  ℕ, zero, suc, ◌+◌, ◌<◌, ◌≡◌, refl, true, false, some, List, [], ◌∷◌, length, erase, arith,
  ==_refl, ◌==◌, mem, ap, inl, inr, Bool-cases, ℕ-cases, subst, sym, mem_head, ◌∙◌,
}
use mips.Proc.{wt_ksem, is_runnable}
use mips.Sync.{
  Sync, wait_queue_first, drain, wakeup_queue, up, down_return, down_end, wait_current_del,
  wait_in_queue,
}
use mips.Sync.Queue.{IsLinked, IsWoken, wakeup_wait-IsWoken}
use mips.Sync.Semaphore.{IsSemaphore, in_queue, added, woke, up-IsUp}

-- The waits of `l` have been taken from their queue and flagged, and their processes run or can
-- run; no process has stopped, and no other wait is touched.
pub record IsRoused (l : List ℕ) (flags : ℕ) (s s' : Sync) : Type 0 where
  pub linked : IsLinked s'
  pub awake :
      (w p : ℕ)
      → mem w l ≡ true
      → (s.waits w).proc ≡ some p
      → is_runnable (s'.sched.procs p).state ≡ true
  pub flagged :
      (w : ℕ) → mem w l ≡ true → ((s'.waits w).wakeup_flags ≡ flags) × ((s'.waits w).linked ≡ false)
  pub kept :
      (r : ℕ)
      → is_runnable (s.sched.procs r).state ≡ true
      → is_runnable (s'.sched.procs r).state ≡ true
  pub others : (v : ℕ) → mem v l ≡ false → s'.waits v ≡ s.waits v

pub nobody-IsRoused : (flags : ℕ) (s : Sync) → IsLinked s → IsRoused [] flags s s
unfolding mem
nobody-IsRoused flags s i = record {
  linked = i;
  awake = λ w p m o. absurd (ground (arith, m));
  flagged = λ w m. absurd (ground (arith, m));
  kept = λ r a. a;
  others = λ v m. refl;
}

-- A first wait and then the others.
module _ (q w p flags : ℕ) (l : List ℕ) (s s1 s' : Sync) (own : (s.waits w).proc ≡ some p)
    (k : IsWoken q w p flags s s1) (rest : s1.queues q ≡ l) (r : IsRoused l flags s1 s') where
  gone : mem w l ≡ false
  gone = elim (Bool-cases (mem w l)) [
    | inr n ↦ n
    | inl m ↦
        let (on, at) = in_queue q w s1 k.linked (rw rest m) in
        absurd (ground (arith, on, k.unlinked))
  ]

  apart_from : (v : ℕ) → mem v l ≡ true → (v == w) ≡ false
  apart_from v m = elim (ℕ-cases v w) [
    | inl e ↦ absurd (ground (arith, subst (λ n. mem n l ≡ true) e m, gone))
    | inr e ↦ ground arith
  ]

  behind : (v : ℕ) → mem v (w ∷ l) ≡ true → (v == w) ≡ false → mem v l ≡ true
  unfolding mem
  behind v m n = ground (arith, m, n)

  still_awake :
      (n : ℕ)
      → is_runnable (s.sched.procs n).state ≡ true
      → is_runnable (s1.sched.procs n).state ≡ true
  still_awake n a = elim (ℕ-cases n p) [
    | inl e ↦ subst (λ x. is_runnable (s1.sched.procs x).state ≡ true) (sym e) k.awake
    | inr e ↦ let d : (n == p) ≡ false = ground arith in ap is_runnable (k.same n d).0 ∙ a
  ]

  woken-IsRoused : IsRoused (w ∷ l) flags s s'
  unfolding mem
  woken-IsRoused = record {
    linked = r.linked;
    awake = λ v n m o. elim (ℕ-cases v w) [
      | inl e ↦
          let same : some p ≡ some n = sym own ∙ subst (λ x. (s.waits x).proc ≡ some n) e o in
          let here : p ≡ n = ground (arith, same) in
          subst (λ x. is_runnable (s'.sched.procs x).state ≡ true) here (r.kept p k.awake)
      | inr e ↦
          let d : (v == w) ≡ false = ground arith in
          r.awake v n (behind v m d) (ap (λ x. x.proc) (k.others v d) ∙ o)
    ];
    flagged = λ v m. elim (ℕ-cases v w) [
      | inl e ↦
          subst (λ x. ((s'.waits x).wakeup_flags ≡ flags) × ((s'.waits x).linked ≡ false)) (sym e)
            (
              ap (λ x. x.wakeup_flags) (r.others w gone) ∙ k.flagged,
              ap (λ x. x.linked) (r.others w gone) ∙ k.unlinked,
            )
      | inr e ↦ let d : (v == w) ≡ false = ground arith in r.flagged v (behind v m d)
    ];
    kept = λ n a. r.kept n (still_awake n a);
    others = λ v m.
        let d : (v == w) ≡ false = ground (arith, m) in
        let away : mem v l ≡ false = ground (arith, m) in r.others v away ∙ k.others v d;
  }

drain-IsRoused :
    (l : List ℕ) (fuel q flags : ℕ) (s : Sync)
    → IsLinked s
    → s.queues q ≡ l
    → length l < fuel
    → (s' : Sync) × (drain fuel q flags s ≡ some s') × IsRoused l flags s s' × (s'.queues q ≡ [])
unfolding drain wait_queue_first erase
drain-IsRoused l zero q flags s i e h = absurd (omega arith)
drain-IsRoused [] (suc fuel) q flags s i e h = (s, rw (e, drain) refl, nobody-IsRoused flags s i, e)
drain-IsRoused (w ∷ l) (suc fuel) q flags s i e h =
    let (on, at) = in_queue q w s i (rw e (mem_head w l)) in
    let (p, own) = i.owner w on in
    let (s1, run, k) = wakeup_wait-IsWoken q w p flags s i on at own in
    let rest : s1.queues q ≡ l = rw (k.erased, e, ==_refl w) refl in
    let (s', run', r, none_left) = drain-IsRoused l fuel q flags s1 k.linked rest (omega arith) in
    (s', rw (e, drain) (rw run run'), woken-IsRoused q w p flags l s s1 s' own k rest r, none_left)

pub wakeup_queue-IsRoused :
    (q flags : ℕ) (s : Sync)
    → IsLinked s
    → (s' : Sync) × (wakeup_queue q flags true s ≡ some s')
      × IsRoused (s.queues q) flags s s'
      × (s'.queues q ≡ [])
unfolding wakeup_queue wait_queue_first
wakeup_queue-IsRoused q flags s i = from_queue (s.queues q) refl
  where
    from_queue :
        (l : List ℕ)
        → s.queues q ≡ l
        → (s' : Sync) × (wakeup_queue q flags true s ≡ some s')
          × IsRoused (s.queues q) flags s s'
          × (s'.queues q ≡ [])
    from_queue [] e = (
      s,
      rw (e, wakeup_queue) refl,
      subst (λ l. IsRoused l flags s s) (sym e) (nobody-IsRoused flags s i),
      e,
    )
    from_queue (w ∷ l) e =
        let (s', run, r, none_left) =
          drain-IsRoused (w ∷ l) (length (s.queues q) + 1) q flags s i e (rw e (omega arith)) in
        (s', rw (e, wakeup_queue) run, subst (λ m. IsRoused m flags s s') (sym e) r, none_left)

-- With wait queues in order, `wakeup_queue` that deletes passes its assertions and returns,
-- whoever waits; the queue is empty then and the others are in order.
pub wakeup_queue-IsLinked :
    (q flags : ℕ) (s : Sync)
    → IsLinked s
    → (s' : Sync) × (wakeup_queue q flags true s ≡ some s') × IsLinked s' × (s'.queues q ≡ [])
wakeup_queue-IsLinked q flags s i =
    let (s', run, r, none_left) = wakeup_queue-IsRoused q flags s i in
    (s', run, r.linked, none_left)

-- After `up` of a semaphore with a line, the first waiter returns from its `down`, whose assertion
-- holds, and the units are as before.
pub down_return-up :
    (q w : ℕ) (l : List ℕ) (s : Sync)
    → IsSemaphore q s
    → s.queues q ≡ w ∷ l
    → (s' : Sync) × (up q s ≡ some s') × (down_return q w s' ≡ some s') × (s'.values q ≡ s.values q)
unfolding down_return down_end wait_current_del wait_in_queue
down_return-up q w l s i e =
    let (s', run, did, still) = up-IsUp q s i in
    elim did [
      | added f g h ↦ absurd (ground (arith, sym f ∙ e))
      | woke v p k a b c d flagged unlinked awake ↦
          let same : v ≡ w = ground (arith, sym a ∙ e) in
          let off : (s'.waits w).linked ≡ false =
            subst (λ n. (s'.waits n).linked ≡ false) same unlinked in
          let flags : (s'.waits w).wakeup_flags ≡ wt_ksem =
            subst (λ n. (s'.waits n).wakeup_flags ≡ wt_ksem) same flagged in
          (s', run, rw (off, down_end) (rw flags refl), c)
    ]
