-- ===== src/Family/Exit.antt =====
-- The rounds of the loop of `do_exit`, with the wakeup of initproc.
use mips.Base.{
  ℕ, ◌==◌, ◌≡◌, refl, ap, sym, ◌∙◌, true, false, some, if◌then◌else◌, arith, inl, inr, Bool-cases,
  ◌&&◌,
}
use mips.Proc.{Table, Proc, is_zombie, is_runnable, wt_child}
use mips.Sched.{State, wakeup_proc}
use mips.Sched.States.{wakeup_proc-runnable, wakeup_proc-links, wakeup_proc-current}
use mips.Sched.RunQueue.{IsQueue, wakeup_proc-IsQueue}
use mips.Family.{Processes, procs, with_procs, set_parent, set_cptr, add_child, adopt_child}
use mips.Family.Chain.{
  add_child-optr, add_child-yptr, add_child-cptr, add_child-parent, add_child-state,
}
use mips.Family.Adopt.{IsAlike, cut}

-- Naming a parent keeps the other links.
module _ (p i x : ℕ) (t : Table) where
  named_cptr : ((set_parent p (some i) t) x).cptr ≡ (t x).cptr
  named_cptr = ground arith

  named_optr : ((set_parent p (some i) t) x).optr ≡ (t x).optr
  named_optr = ground arith

  named_yptr : ((set_parent p (some i) t) x).yptr ≡ (t x).yptr
  named_yptr = ground arith

  named_parent : ((set_parent p (some i) t) x).parent ≡ (if x == p then some i else (t x).parent)
  named_parent = ground arith

  named_state : ((set_parent p (some i) t) x).state ≡ (t x).state
  named_state = ground arith

-- The table after the links of a round.
abbrev handed : (c p i : ℕ) → Table → Table
handed c p i t = set_parent p (some i) (add_child p i (set_cptr c (t p).optr t))

module _ (c p i : ℕ) (t : Table) where
  handed_links : IsAlike (add_child p i (cut c p i t)) (handed c p i t)
  handed_links = record {
    cptr = λ x.
        named_cptr p i x (add_child p i (set_cptr c (t p).optr t))
        ∙ add_child-cptr p i x (set_cptr c (t p).optr t)
        ∙ ground arith
        ∙ sym (add_child-cptr p i x (cut c p i t));
    optr = λ x.
        named_optr p i x (add_child p i (set_cptr c (t p).optr t))
        ∙ add_child-optr p i x (set_cptr c (t p).optr t)
        ∙ ground arith
        ∙ sym (add_child-optr p i x (cut c p i t));
    yptr = λ x.
        named_yptr p i x (add_child p i (set_cptr c (t p).optr t))
        ∙ add_child-yptr p i x (set_cptr c (t p).optr t)
        ∙ rw
            (
              sym (named_cptr p i i (set_cptr c (t p).optr t)),
              sym (named_yptr p i x (set_cptr c (t p).optr t)),
            )
            refl
        ∙ sym (add_child-yptr p i x (cut c p i t));
    parent = λ x.
        named_parent p i x (add_child p i (set_cptr c (t p).optr t))
        ∙ ap (λ v. if x == p then some i else v) (add_child-parent p i x (set_cptr c (t p).optr t))
        ∙ ground arith
        ∙ sym (add_child-parent p i x (cut c p i t));
  }

  handed_state : (x : ℕ) → ((handed c p i t) x).state ≡ (t x).state
  handed_state x =
      named_state p i x (add_child p i (set_cptr c (t p).optr t))
      ∙ add_child-state p i x (set_cptr c (t p).optr t)
      ∙ ground arith

woken_links : (p : ℕ) (s s' : State) → wakeup_proc p s ≡ some s' → IsAlike s.procs s'.procs
woken_links p s s' e = record {
  cptr = λ x. (wakeup_proc-links p x s s' e).0;
  optr = λ x. (wakeup_proc-links p x s s' e).1;
  yptr = λ x. (wakeup_proc-links p x s s' e).2;
  parent = λ x. (wakeup_proc-links p x s s' e).3;
}

runnable_alive : (p : Proc) → is_runnable p.state ≡ true → is_zombie p.state ≡ false
runnable_alive p r = ground (arith, r)

IsQueue-procs :
    (s : State) (u : Table)
    → ((x : ℕ) → (u x).state ≡ (s.procs x).state)
    → IsQueue s
    → IsQueue (record s { procs = u })
IsQueue-procs s u e v = record { queued = λ q. v.queued q ∙ rw (e q) refl; counted = v.counted }

-- What a round leaves behind.
pub record IsRound (p : ℕ) (s s' : Processes) : Type 0 where
  pub links :
      IsAlike (add_child p s.initproc (cut s.sched.current p s.initproc (procs s))) (procs s')
  pub queue : IsQueue s'.sched
  pub alive : is_zombie (procs s' s'.initproc).state ≡ false
  pub current : s'.sched.current ≡ s.sched.current
  pub initproc : s'.initproc ≡ s.initproc

IsAlike-trans : (t u v : Table) → IsAlike t u → IsAlike u v → IsAlike t v
IsAlike-trans t u v a b = record {
  cptr = λ x. b.cptr x ∙ a.cptr x;
  optr = λ x. b.optr x ∙ a.optr x;
  yptr = λ x. b.yptr x ∙ a.yptr x;
  parent = λ x. b.parent x ∙ a.parent x;
}

pub adopt_child-IsRound :
    (p : ℕ) (s : Processes)
    → IsQueue s.sched
    → is_zombie (procs s s.initproc).state ≡ false
    → (s' : Processes) × (adopt_child p s ≡ some s') × IsRound p s s'
unfolding adopt_child
adopt_child-IsRound p s v alive =
    let c = s.sched.current in
    let i = s.initproc in
    let u : Table = handed c p i (procs s) in
    let s1 : Processes = with_procs u s in
    let q1 : IsQueue s1.sched = IsQueue-procs s.sched u (handed_state c p i (procs s)) v in
    let a1 : is_zombie (u i).state ≡ false =
      ap is_zombie (handed_state c p i (procs s) i) ∙ alive in
    elim (Bool-cases (is_zombie (u p).state && (u i).wait_state == wt_child)) [
      | inr n ↦ (
        s1,
        rw (adopt_child, n) refl,
        record {
          links = handed_links c p i (procs s);
          queue = q1;
          alive = a1;
          current = refl;
          initproc = refl;
        },
      )
      | inl y ↦
          let (w, run, q2) = wakeup_proc-IsQueue i s1.sched q1 a1 in
          (
            record s1 { sched = w },
            rw (adopt_child, y, run) refl,
            record {
              links =
                  IsAlike-trans (add_child p i (cut c p i (procs s))) u w.procs
                    (handed_links c p i (procs s)) (woken_links i s1.sched w run);
              queue = q2;
              alive = runnable_alive (w.procs i) (wakeup_proc-runnable i s1.sched w run);
              current = wakeup_proc-current i s1.sched w run;
              initproc = refl;
            },
          )
    ]
