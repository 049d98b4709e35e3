-- ===== src/Family/Unlink.antt =====
-- `remove_links`: a child goes from its parent.
use mips.Base.{
  ℕ, ◌-◌, ◌==◌, ◌≡◌, refl, ap, sym, ◌∙◌, true, false, Option, none, some, List, [], ◌∷◌, erase, mem,
  if◌then◌else◌, arith, inl, inr, Bool-cases, ==_refl, ◌&&◌, subst, is_some, not,
}
use mips.Proc.{Table}
use mips.Family.{
  Processes, procs, with_procs, link_older, link_younger, set_cptr, set_optr, drop_child,
  remove_links,
}
use mips.Family.Chain.{first, IsChain, IsFamily, IsDistinct, IsChain-same, points, points-first}
use mips.Family.Erase.{IsUnlinked, erase-IsChain, older_in, younger_in}

-- The links that `link_older` changes.
module _ (v : Option ℕ) (x : ℕ) (t : Table) where
  older-optr : (o : Option ℕ) → ((link_older o v t) x).optr ≡ (t x).optr
  unfolding link_older
  older-optr none = refl
  older-optr (some o) = ground arith

  older-yptr : (o : Option ℕ) → ((link_older o v t) x).yptr ≡ (if points o x then v else (t x).yptr)
  unfolding link_older
  older-yptr none = refl
  older-yptr (some o) = ground arith

  older-cptr : (o : Option ℕ) → ((link_older o v t) x).cptr ≡ (t x).cptr
  unfolding link_older
  older-cptr none = refl
  older-cptr (some o) = ground arith

  older-parent : (o : Option ℕ) → ((link_older o v t) x).parent ≡ (t x).parent
  unfolding link_older
  older-parent none = refl
  older-parent (some o) = ground arith

-- What is left of the links.
pub record IsDropped (p q : ℕ) (t u : Table) : Type 0 where
  pub links : IsUnlinked p t u
  pub cptr :
      (x : ℕ) → (u x).cptr ≡ (if not (is_some (t p).yptr) && x == q then (t p).optr else (t x).cptr)
  pub parent : (x : ℕ) → (u x).parent ≡ (t x).parent

-- The links that `link_younger` changes.
record IsJoined (younger o : Option ℕ) (q : ℕ) (t u : Table) : Type 0 where
  pub optr : (x : ℕ) → (u x).optr ≡ (if points younger x then o else (t x).optr)
  pub yptr : (x : ℕ) → (u x).yptr ≡ (t x).yptr
  pub cptr : (x : ℕ) → (u x).cptr ≡ (if not (is_some younger) && x == q then o else (t x).cptr)
  pub parent : (x : ℕ) → (u x).parent ≡ (t x).parent

link_younger-IsJoined :
    (younger o : Option ℕ) (q : ℕ) (t : Table)
    → (u : Table) × (link_younger younger o (some q) t ≡ some u) × IsJoined younger o q t u
unfolding link_younger
link_younger-IsJoined none o q t = (
  set_cptr q o t,
  refl,
  record {
    optr = λ x. ground arith;
    yptr = λ x. ground arith;
    cptr = λ x. ground arith;
    parent = λ x. ground arith;
  },
)
link_younger-IsJoined (some y) o q t = (
  set_optr y o t,
  refl,
  record {
    optr = λ x. ground arith;
    yptr = λ x. ground arith;
    cptr = λ x. ground arith;
    parent = λ x. ground arith;
  },
)

drop_child-IsDropped :
    (p q : ℕ) (t : Table)
    → points (t p).optr p ≡ false
    → (t p).parent ≡ some q
    → (u : Table) × (drop_child p t ≡ some u) × IsDropped p q t u
unfolding drop_child
drop_child-IsDropped p q t apart parent =
    let o = (t p).optr in
    let v = (t p).yptr in
    let t1 = link_older o v t in
    let (u, run, j) = link_younger-IsJoined v o q t1 in
    let yptr : (t1 p).yptr ≡ v = older-yptr v p t o ∙ rw apart refl in
    let up : (t1 p).parent ≡ some q = older-parent v p t o ∙ parent in
    (
      u,
      rw (yptr, older-optr v p t o, up) run,
      record {
        links = record {
          older = λ x. j.optr x ∙ ap (λ w. if points v x then o else w) (older-optr v x t o);
          younger = λ x. j.yptr x ∙ older-yptr v x t o;
        };
        cptr = λ x.
            j.cptr x ∙ ap (λ w. if not (is_some v) && x == q then o else w) (older-cptr v x t o);
        parent = λ x. j.parent x ∙ older-parent v x t o;
      },
    )

-- The children when `p` is no longer one of `q`.
abbrev pub shrunk : (p q : ℕ) → (ℕ → List ℕ) → ℕ → List ℕ
shrunk p q children r = if r == q then erase p (children r) else children r

mem-erase : (c p : ℕ) (l : List ℕ) → mem c (erase p l) ≡ true → mem c l ≡ true
unfolding mem erase
mem-erase c p [] m = absurd (ground (arith, m))
mem-erase c p (x ∷ l) m = ground (arith, m, mem-erase c p l)

erase-IsDistinct : (p : ℕ) (l : List ℕ) → IsDistinct l → IsDistinct (erase p l)
unfolding erase
erase-IsDistinct p [] d = tt
erase-IsDistinct p (x ∷ l) (n, d) = elim (Bool-cases (p == x)) [
  | inl e ↦ rw e d
  | inr o ↦ rw o (out, erase-IsDistinct p l d)
]
  where
    out : mem x (erase p l) ≡ false
    out = elim (Bool-cases (mem x (erase p l))) [
      | inr y ↦ y
      | inl y ↦ absurd (ground (arith, mem-erase x p l y, n))
    ]

-- A process that is not the first one has a younger sibling.
behind_young :
    (t : Table) (p e : ℕ) (l : List ℕ)
    → IsChain t (some e) l
    → mem p l ≡ true
    → is_some (t p).yptr ≡ true
unfolding mem
behind_young t p e [] a m = absurd (ground (arith, m))
behind_young t p e (o ∷ l) (y, link, a) m = elim (Bool-cases (p == o)) [
  | inl s ↦ let same : p ≡ o = ground (arith, s) in ap is_some (ap (λ x. (t x).yptr) same ∙ y)
  | inr n ↦ behind_young t p o l a (ground (arith, m, n))
]

module _ (t u : Table) (children : ℕ → List ℕ) (p q : ℕ) (f : IsFamily t children)
    (here : mem p (children q) ≡ true) (d : IsDropped p q t u) where
  -- The siblings of `p` are children of `q`.
  sibling_apart :
      (r c : ℕ)
      → (r == q) ≡ false
      → mem c (children r) ≡ true
      → (points (t p).optr c ≡ false) × (points (t p).yptr c ≡ false)
  sibling_apart r c n m = (
    elim (Bool-cases (points (t p).optr c)) [
      | inr o ↦ o
      | inl y ↦ absurd (strange (older_in t p none (children q) c (f.chain q) here y))
    ],
    elim (Bool-cases (points (t p).yptr c)) [
      | inr o ↦ o
      | inl y ↦ absurd (strange (younger_in t p none (children q) c (f.chain q) here y refl))
    ],
  )
    where
      strange : mem c (children q) ≡ true → ⊥
      strange k =
          let twice : some r ≡ some q = sym (f.parent r c m) ∙ f.parent q c k in
          absurd (ground (arith, twice, n))

  linked_shrunk : (r : ℕ) → IsChain u none (shrunk p q children r)
  linked_shrunk r = elim (Bool-cases (r == q)) [
    | inl e ↦
        let same : r ≡ q = ground (arith, e) in
        rw (same, ==_refl q)
          (erase-IsChain t u p d.links none (children q) (f.chain q) here (f.once q) (λ c m. refl))
    | inr n ↦ rw n (
        IsChain-same t u none (children r)
          (λ c m.
            let (o, y) = sibling_apart r c n m in
            (d.links.younger c ∙ rw o refl, d.links.older c ∙ rw y refl))
          (f.chain r))
  ]

  kept_cptr :
      (r : ℕ) → (if not (is_some (t p).yptr) && false then (t p).optr else (t r).cptr) ≡ (t r).cptr
  kept_cptr r = elim (Bool-cases (is_some (t p).yptr)) [ inl e ↦ rw e refl | inr e ↦ rw e refl ]

  of_parent :
      (l : List ℕ)
      → children q ≡ l
      → IsChain t none l
      → mem p l ≡ true
      → (u q).cptr ≡ first (erase p l)
  unfolding mem erase
  of_parent [] e a m = absurd (ground (arith, m))
  of_parent (o ∷ l) e (y, link, a) m = elim (Bool-cases (p == o)) [
    | inl s ↦
        let same : o ≡ p = ground (arith, s) in
        let none_younger : is_some (t p).yptr ≡ false =
          ap is_some (ap (λ x. (t x).yptr) (sym same) ∙ y) in
        rw s (d.cptr q ∙ rw (none_younger, ==_refl q) (ap (λ x. (t x).optr) (sym same) ∙ link))
    | inr n ↦
        let younger = behind_young t p o l a (ground (arith, m, n)) in
        rw n (d.cptr q ∙ rw younger (f.youngest q ∙ ap first e))
  ]

  shrunk_youngest : (r : ℕ) → (u r).cptr ≡ first (shrunk p q children r)
  shrunk_youngest r = elim (Bool-cases (r == q)) [
    | inr n ↦ d.cptr r ∙ rw n (kept_cptr r ∙ f.youngest r)
    | inl e ↦
        let same : r ≡ q = ground (arith, e) in
        rw (same, ==_refl q) (of_parent (children q) refl (f.chain q) here)
  ]

  pub shrunk-IsFamily : IsFamily u (shrunk p q children)
  shrunk-IsFamily = record {
    youngest = shrunk_youngest;
    chain = linked_shrunk;
    parent = λ r c m. d.parent c ∙ f.parent r c (kept r c m);
    once = λ r. elim (Bool-cases (r == q)) [
      | inl e ↦ rw e (erase-IsDistinct p (children r) (f.once r))
      | inr n ↦ rw n (f.once r)
    ];
  }
    where
      kept : (r c : ℕ) → mem c (shrunk p q children r) ≡ true → mem c (children r) ≡ true
      kept r c m = elim (Bool-cases (r == q)) [
        | inr n ↦ sym (ap (λ b. mem c (if b then erase p (children r) else children r)) n) ∙ m
        | inl e ↦
            mem-erase c p (children r)
              (sym (ap (λ b. mem c (if b then erase p (children r) else children r)) e) ∙ m)
      ]

-- No process is its own older sibling.
self_apart :
    (t : Table) (p : ℕ) (young : Option ℕ) (l : List ℕ)
    → IsChain t young l
    → mem p l ≡ true
    → IsDistinct l
    → points (t p).optr p ≡ false
unfolding mem
self_apart t p young [] a m d = absurd (ground (arith, m))
self_apart t p young (o ∷ l) (y, link, a) m (d, d2) = elim (Bool-cases (p == o)) [
  | inr n ↦ self_apart t p (some o) l a (ground (arith, m, n)) d2
  | inl s ↦
      let same : p ≡ o = ground (arith, s) in
      elim (Bool-cases (points (t p).optr p)) [
        | inr f ↦ f
        | inl f ↦
            let next : points (first l) p ≡ true =
              sym (ap (λ x. points x p) (ap (λ x. (t x).optr) same ∙ link)) ∙ f in
            let inside : mem o l ≡ true =
              subst (λ x. mem x l ≡ true) same (points-first l p next) in
            absurd (ground (arith, inside, d))
      ]
]

-- With links that say which children each process has, and a process that is a child of another,
-- `remove_links` returns: the process is no longer a child of its parent, the other children
-- of all processes are as before and in the same order, and it is neither listed nor counted any more.
pub remove_links-IsFamily :
    (s : Processes) (children : ℕ → List ℕ) (p q : ℕ)
    → IsFamily (procs s) children
    → mem p (children q) ≡ true
    → (s' : Processes) × (remove_links p s ≡ some s')
      × IsFamily (procs s') (shrunk p q children)
      × (s'.hash_list ≡ s.hash_list)
      × (s'.proc_list ≡ erase p s.proc_list)
      × (s'.nr_process ≡ s.nr_process - 1)
unfolding remove_links
remove_links-IsFamily s children p q f here =
    let apart = self_apart (procs s) p none (children q) (f.chain q) here (f.once q) in
    let (u, run, d) = drop_child-IsDropped p q (procs s) apart (f.parent q p here) in
    (
      record (with_procs u s) { proc_list = erase p s.proc_list; nr_process = s.nr_process - 1 },
      rw run refl,
      shrunk-IsFamily (procs s) u children p q f here d,
      refl,
      refl,
      refl,
    )
