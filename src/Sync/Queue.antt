-- ===== src/Sync/Queue.antt =====
-- What wakeups and the switch leave alone, and the wait queues.
use mips.Base.{
  List, [], ◌∷◌, length, ℕ, ◌==◌, ◌≡◌, refl, true, false, some, erase, if◌then◌else◌, ◌&&◌, not,
  one_if, arith, inl, inr, mem, ==_refl, ℕ-cases, subst, sym, count, count-erase, mem_of_count, ap,
  ◌∙◌,
}
use mips.Proc.{is_runnable, is_zombie}
use mips.Sched.States.{wakeup_proc-others, wakeup_proc-runnable, IsSame}
use mips.Sched.RunQueue.{IsQueue, wakeup_proc-IsQueue}
use mips.Sync.{wait_queue_empty, Sync, put_wait, put_queue, wakeup_wait, wait_queue_del}

-- The wait queues and the scheduler agree: a linked wait stands once in its queue and in no other,
-- it has a process of its own, and that process sleeps.
pub record IsLinked (s : Sync) : Type 0 where
  pub links :
      (q w : ℕ) → count w (s.queues q) ≡ one_if ((s.waits w).linked && (s.waits w).wait_queue == q)
  pub owner : (w : ℕ) → (s.waits w).linked ≡ true → (p : ℕ) × ((s.waits w).proc ≡ some p)
  pub asleep :
      (w p : ℕ)
      → (s.waits w).linked ≡ true
      → (s.waits w).proc ≡ some p
      → (is_runnable (s.sched.procs p).state ≡ false) × (is_zombie (s.sched.procs p).state ≡ false)
  pub single :
      (v w p : ℕ)
      → (s.waits v).linked ≡ true
      → (s.waits w).linked ≡ true
      → (s.waits v).proc ≡ some p
      → (s.waits w).proc ≡ some p
      → v ≡ w
  pub queue : IsQueue s.sched

-- The state after `w` is taken from the queue `q` and its process, `p`, is woken with `flags`.
pub record IsWoken (q w p flags : ℕ) (s s' : Sync) : Type 0 where
  pub linked : IsLinked s'
  pub erased : s'.queues q ≡ erase w (s.queues q)
  pub values : (r : ℕ) → s'.values r ≡ s.values r
  pub unlinked : (s'.waits w).linked ≡ false
  pub flagged : (s'.waits w).wakeup_flags ≡ flags
  pub others : (v : ℕ) → (v == w) ≡ false → s'.waits v ≡ s.waits v
  pub awake : is_runnable (s'.sched.procs p).state ≡ true
  pub same : (r : ℕ) → (r == p) ≡ false → IsSame r s.sched s'.sched

erase-links :
    (q w : ℕ) (s : Sync)
    → IsLinked s
    → (s.waits w).linked && (s.waits w).wait_queue == q ≡ true
    → (v : ℕ)
    → count v (erase w (s.queues q))
      ≡ one_if ((s.waits v).linked && not (v == w) && (s.waits v).wait_queue == q)
erase-links q w s i h v =
    let here : count w (s.queues q) ≡ 1 = i.links q w ∙ ap one_if h in
    let m : mem w (s.queues q) ≡ true = mem_of_count w (s.queues q) (omega (arith, here)) in
    let taken = count-erase v w (s.queues q) m in
    elim (ℕ-cases v w) [
      | inl e ↦
          subst
            (λ n.
              count n (erase w (s.queues q))
              ≡ one_if ((s.waits n).linked && not (n == w) && (s.waits n).wait_queue == q))
            (sym e) (ground (arith, ==_refl w, here, count-erase w w (s.queues q) m))
      | inr e ↦ ground (arith, i.links q v, taken)
    ]

-- A link that is taken away is in no queue.
unlinked-links :
    (q w : ℕ) (s : Sync)
    → IsLinked s
    → (s.waits w).linked && (s.waits w).wait_queue == q ≡ true
    → (r v : ℕ)
    → count v (if r == q then erase w (s.queues q) else s.queues r)
      ≡ one_if ((s.waits v).linked && not (v == w) && (s.waits v).wait_queue == r)
unlinked-links q w s i h r v = elim (ℕ-cases r q) [
  | inl e ↦
      subst
        (λ n.
          count v (if n == q then erase w (s.queues q) else s.queues n)
          ≡ one_if ((s.waits v).linked && not (v == w) && (s.waits v).wait_queue == n))
        (sym e) (rw (==_refl q) (erase-links q w s i h v))
  | inr e ↦ elim (ℕ-cases v w) [
    | inl f ↦
        subst
          (λ n.
            count n (if r == q then erase w (s.queues q) else s.queues r)
            ≡ one_if ((s.waits n).linked && not (n == w) && (s.waits n).wait_queue == r))
          (sym f) (ground (arith, i.links r w, ==_refl w))
    | inr f ↦ ground (arith, i.links r v)
  ]
]

-- Two linked waits have different processes.
pub apart :
    (v w n p : ℕ) (s : Sync)
    → IsLinked s
    → (s.waits v).linked ≡ true
    → (s.waits w).linked ≡ true
    → (v == w) ≡ false
    → (s.waits v).proc ≡ some n
    → (s.waits w).proc ≡ some p
    → (n == p) ≡ false
apart v w n p s i a b d x y = elim (ℕ-cases n p) [
  | inl e ↦ let z : v ≡ w = i.single v w p a b (x ∙ ap some e) y in absurd (ground arith)
  | inr e ↦ ground arith
]

pub wakeup_wait-IsWoken :
    (q w p flags : ℕ) (s : Sync)
    → IsLinked s
    → (s.waits w).linked ≡ true
    → (s.waits w).wait_queue ≡ q
    → (s.waits w).proc ≡ some p
    → (s' : Sync) × (wakeup_wait q w flags true s ≡ some s') × IsWoken q w p flags s s'
unfolding wakeup_wait wait_queue_del
wakeup_wait-IsWoken q w p flags s i on at own =
    let (a, b) = i.asleep w p on own in
    let (sched', run, queue') = wakeup_proc-IsQueue p s.sched i.queue b in
    let here : (s.waits w).linked && (s.waits w).wait_queue == q ≡ true = ground arith in
    let s1 : Sync =
      put_queue q (erase w (s.queues q)) (put_wait w (record (s.waits w) { linked = false }) s) in
    let s2 : Sync = put_wait w (record (s1.waits w) { wakeup_flags = flags }) s1 in
    let s3 : Sync = record s2 { sched = sched' } in
    let r = ==_refl w in
    (
      s3,
      rw here (rw r (rw own (rw run refl))),
      record {
        linked = record {
          links = λ n v. ground (arith, unlinked-links q w s i here n v);
          owner = λ v l. ground (arith, i.owner v);
          asleep = λ v n l k.
              let d : (v == w) ≡ false = ground arith in
              let apart : (n == p) ≡ false =
                apart v w n p s i (ground arith) on d (ground arith) own in
              let same = wakeup_proc-others p n s.sched sched' run apart in
              ground (arith, same, i.asleep v n);
          single = λ u v n l k x y.
              i.single u v n (ground arith) (ground arith) (ground arith) (ground arith);
          queue = queue';
        };
        erased = ground arith;
        values = λ n. refl;
        unlinked = rw r refl;
        flagged = rw r refl;
        others = λ v d. rw d refl;
        awake = wakeup_proc-runnable p s.sched sched' run;
        same = λ n d. wakeup_proc-others p n s.sched sched' run d;
      },
    )

eq_nil_of_length : (l : List ℕ) → (length l == 0) ≡ true → l ≡ []
eq_nil_of_length [] e = refl
eq_nil_of_length (x ∷ l) e = absurd (ground arith)

pub eq_nil_of_wait_queue_empty : (q : ℕ) (s : Sync) → wait_queue_empty q s ≡ true → s.queues q ≡ []
unfolding wait_queue_empty
eq_nil_of_wait_queue_empty q s e = eq_nil_of_length (s.queues q) e
