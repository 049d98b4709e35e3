-- ===== src/Family/Handover.antt =====
-- The loop of `do_exit` over the children of the process that exits.
use mips.Base.{
  ℕ, zero, suc, ◌==◌, ◌≡◌, ◌<◌, refl, ap, sym, ◌∙◌, true, false, Option, none, some, List, [], ◌∷◌,
  mem, if◌then◌else◌, arith, inl, inr, Bool-cases, ==_refl, subst,
}
use mips.Proc.{Table, is_zombie}
use mips.Sched.RunQueue.{IsQueue}
use mips.Family.{Processes, procs, add_child, adopt_children}
use mips.Family.Chain.{first, entries, IsChain, IsFamily, IsFamilyFrom, IsDistinct}
use mips.Family.Adopt.{IsFamilyFrom-alike, cut, cut-IsFamily, without, left_behind, fresh}
use mips.Family.Links.{grown, add_child-IsFamily}
use mips.Family.Exit.{adopt_child-IsRound}

-- The children `l`, the youngest first, in front of `old` in the order in which they come there.
abbrev pub adopted : (l old : List ℕ) → List ℕ
adopted [] old = old
adopted (p ∷ l) old = adopted l (p ∷ old)

-- The children when those of `c` have gone to `i`.
abbrev pub handed_over : (c i : ℕ) → (ℕ → List ℕ) → ℕ → List ℕ
handed_over c i children r =
    if r == i then adopted (children c) (children i) else if r == c then [] else children r

round_children :
    (c p i : ℕ) (l : List ℕ) (children : ℕ → List ℕ)
    → (c == i) ≡ false
    → children c ≡ p ∷ l
    → (r : ℕ) → handed_over c i (grown p i (without c l children)) r ≡ handed_over c i children r
round_children c p i l children ne here r =
    let en : (i == c) ≡ false = ground (arith, ne) in
    elim (Bool-cases (r == i)) [
      | inl e ↦ rw (e, ne, en, ==_refl c, ==_refl i, here) refl
      | inr n ↦ rw n (elim (Bool-cases (r == c)) [ inl e ↦ rw e refl | inr m ↦ rw m refl ])
    ]

-- Nothing changes when `c` has no children.
over_children :
    (c i : ℕ) (children : ℕ → List ℕ)
    → children c ≡ []
    → (r : ℕ) → children r ≡ handed_over c i children r
over_children c i children here r = elim (Bool-cases (r == i)) [
  | inl e ↦ let same : r ≡ i = ground (arith, e) in rw (e, here) (ap children same)
  | inr n ↦ rw n (elim (Bool-cases (r == c)) [
    | inl e ↦ let same : r ≡ c = ground (arith, e) in rw e (ap children same ∙ here)
    | inr m ↦ rw m refl
  ])
]

-- The same children, by another name.
IsFamilyFrom-same :
    (young young' : ℕ → Option ℕ) (t : Table) (k k' : ℕ → List ℕ)
    → ((r : ℕ) → k r ≡ k' r)
    → ((r : ℕ) → IsChain t (young r) (k r) → IsChain t (young' r) (k r))
    → IsFamilyFrom young t k
    → IsFamilyFrom young' t k'
IsFamilyFrom-same young young' t k k' e w f = record {
  youngest = λ r. f.youngest r ∙ ap first (e r);
  chain = λ r. subst (IsChain t (young' r)) (e r) (w r (f.chain r));
  parent = λ r c m. f.parent r c (subst (λ l. mem c l ≡ true) (sym (e r)) m);
  once = λ r. subst IsDistinct (e r) (f.once r);
}

-- The first child of every process but `c` has no younger sibling.
none_but : (c : ℕ) → Option ℕ → ℕ → Option ℕ
none_but c y r = if r == c then y else none

linked_end :
    (c i : ℕ) (y : Option ℕ) (t : Table) (children : ℕ → List ℕ)
    → children c ≡ []
    → IsFamilyFrom (none_but c y) t children
    → IsFamily t (handed_over c i children)
unfolding none_but
linked_end c i y t children here f =
    IsFamilyFrom-same (none_but c y) (λ _. none) t children (handed_over c i children)
      (over_children c i children here) to_none f
  where
    to_none : (r : ℕ) → IsChain t (none_but c y r) (children r) → IsChain t none (children r)
    to_none r a = elim (Bool-cases (r == c)) [
      | inr n ↦ subst (λ b. IsChain t (if b then y else none) (children r)) n a
      | inl e ↦
          let same : r ≡ c = ground (arith, e) in
          subst (IsChain t none) (sym (ap children same ∙ here)) tt
    ]

-- The links after a round.
linked_round :
    (c p i : ℕ) (l : List ℕ) (y : Option ℕ) (t : Table) (children : ℕ → List ℕ)
    → (c == i) ≡ false
    → children c ≡ p ∷ l
    → IsFamilyFrom (none_but c y) t children
    → IsFamilyFrom
        (none_but c (some p))
        (add_child p i (cut c p i t))
        (grown p i (without c l children))
unfolding none_but
linked_round c p i l y t children ne here f =
    let young : ℕ → Option ℕ = left_behind c p (none_but c y) in
    let k : ℕ → List ℕ = grown p i (without c l children) in
    let en : (i == c) ≡ false = ground (arith, ne) in
    let same : (r : ℕ) → young r ≡ none_but c (some p) r =
      λ r. elim (Bool-cases (r == c)) [ inl e ↦ rw e refl | inr n ↦ rw n refl ] in
    IsFamilyFrom-same young (none_but c (some p)) (add_child p i (cut c p i t)) k k (λ r. refl)
      (λ r a. subst (λ v. IsChain (add_child p i (cut c p i t)) v (k r)) (same r) a)
      (add_child-IsFamily young (cut c p i t) (without c l children) p i
        (cut-IsFamily (none_but c y) t children c p i l f here) (rw en refl)
        (fresh (none_but c y) t children c p i l f here) (rw (==_refl p) refl))

loop_from :
    (l : List ℕ) (fuel : ℕ) (s : Processes) (children : ℕ → List ℕ) (y : Option ℕ)
    → IsFamilyFrom (none_but s.sched.current y) (procs s) children
    → IsQueue s.sched
    → is_zombie (procs s s.initproc).state ≡ false
    → (s.sched.current == s.initproc) ≡ false
    → children s.sched.current ≡ l
    → entries l < fuel
    → (s' : Processes) × (adopt_children fuel s ≡ some s')
      × IsFamily (procs s') (handed_over s.sched.current s.initproc children)
      × IsQueue s'.sched
unfolding adopt_children none_but
loop_from l zero s children y f v alive ne here e = absurd (omega (arith, e))
loop_from [] (suc fuel) s children y f v alive ne here e =
    let stop : (procs s s.sched.current).cptr ≡ none = f.youngest s.sched.current ∙ ap first here in
    (
      s,
      rw (adopt_children, stop) refl,
      linked_end s.sched.current s.initproc y (procs s) children here f,
      v,
    )
loop_from (p ∷ l) (suc fuel) s children y f v alive ne here e =
    let c = s.sched.current in
    let i = s.initproc in
    let next : (procs s c).cptr ≡ some p = f.youngest c ∙ ap first here in
    let (s1, run, r) = adopt_child-IsRound p s v alive in
    let k : ℕ → List ℕ = grown p i (without c l children) in
    let f1 : IsFamilyFrom (none_but c (some p)) (procs s1) k =
      IsFamilyFrom-alike (none_but c (some p)) (add_child p i (cut c p i (procs s))) (procs s1) k
        r.links (linked_round c p i l y (procs s) children ne here f) in
    let f2 : IsFamilyFrom (none_but s1.sched.current (some p)) (procs s1) k =
      subst (λ x. IsFamilyFrom (none_but x (some p)) (procs s1) k) (sym r.current) f1 in
    let here1 : k s1.sched.current ≡ l = ap k r.current ∙ rw (ne, ==_refl c) refl in
    let ne1 : (s1.sched.current == s1.initproc) ≡ false = rw (r.current, r.initproc) ne in
    let (s', run', f', v') =
      loop_from l fuel s1 k (some p) f2 r.queue r.alive ne1 here1 (omega (arith, e)) in
    let over : (x : ℕ) → handed_over s1.sched.current s1.initproc k x ≡ handed_over c i children x =
      λ x.
        ap (λ a. handed_over a s1.initproc k x) r.current
        ∙ ap (λ b. handed_over c b k x) r.initproc
        ∙ round_children c p i l children ne here x in
    let g : IsFamily (procs s') (handed_over c i children) =
      IsFamilyFrom-same (λ _. none) (λ _. none) (procs s')
        (handed_over s1.sched.current s1.initproc k) (handed_over c i children) over (λ x a. a)
        f' in
    (s', rw (adopt_children, next, run) run', g, v')

-- With links that say which children each process has, an exact run queue, an initproc that is no
-- zombie and is not the current process, and fuel for the children of the current one and
-- one more, the loop of `do_exit` ends: each child of the current process is a child of initproc, in
-- front of those it had and the youngest last among the new ones, the current process has none, the
-- children of all others are as before, and the run queue is exact.
pub adopt_children-IsFamily :
    (fuel : ℕ) (s : Processes) (children : ℕ → List ℕ)
    → IsFamily (procs s) children
    → IsQueue s.sched
    → is_zombie (procs s s.initproc).state ≡ false
    → (s.sched.current == s.initproc) ≡ false
    → entries (children s.sched.current) < fuel
    → (s' : Processes) × (adopt_children fuel s ≡ some s')
      × IsFamily (procs s') (handed_over s.sched.current s.initproc children)
      × IsQueue s'.sched
unfolding none_but
adopt_children-IsFamily fuel s children f v alive ne e =
    loop_from (children s.sched.current) fuel s children none
      (IsFamilyFrom-same (λ _. none) (none_but s.sched.current none) (procs s) children children
        (λ r. refl) to_but f)
      v alive ne refl e
  where
    to_but :
        (r : ℕ)
        → IsChain (procs s) none (children r)
        → IsChain (procs s) (none_but s.sched.current none r) (children r)
    to_but r a = elim (Bool-cases (r == s.sched.current)) [ inl e ↦ rw e a | inr n ↦ rw n a ]
