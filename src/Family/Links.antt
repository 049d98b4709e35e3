-- ===== src/Family/Links.antt =====
-- `set_links`: a child comes to a process.
use mips.Base.{
  ℕ, ◌==◌, ◌≡◌, refl, ap, sym, ◌∙◌, true, false, Option, none, some, List, [], ◌∷◌, mem,
  if◌then◌else◌, arith, inl, inr, Bool-cases, ==_refl, subst, mem_head, ◌+◌,
}
use mips.Proc.{Table}
use mips.Family.{Processes, procs, with_procs, add_child, set_links}
use mips.Family.Chain.{
  first, IsChain, IsFamily, IsFamilyFrom, IsDistinct, ne_in, IsChain-same, points, points-first,
  add_child-optr, add_child-yptr, add_child-cptr, add_child-parent,
}

-- The children when `p` has become the youngest one of `q`.
abbrev pub grown : (p q : ℕ) → (ℕ → List ℕ) → ℕ → List ℕ
grown p q children r = if r == q then p ∷ children r else children r

module _ (young : ℕ → Option ℕ) (t : Table) (children : ℕ → List ℕ) (p q : ℕ)
    (f : IsFamilyFrom young t children) (head : young q ≡ none)
    (fresh : (r : ℕ) → mem p (children r) ≡ false) (parent : (t p).parent ≡ some q) where
  other : (r c : ℕ) → mem c (children r) ≡ true → (c == p) ≡ false
  other r c m = elim (Bool-cases (c == p)) [
    | inr n ↦ n
    | inl e ↦
        let same : c ≡ p = ground (arith, e) in
        let here : mem p (children r) ≡ true = subst (λ x. mem x (children r) ≡ true) same m in
        absurd (ground (arith, here, fresh r))
  ]

  -- The links of a child that is not the head of the children of `q`.
  far :
      (r c : ℕ)
      → mem c (children r) ≡ true
      → points (t q).cptr c ≡ false
      → (((add_child p q t) c).yptr ≡ (t c).yptr) × (((add_child p q t) c).optr ≡ (t c).optr)
  far r c m n = (
    add_child-yptr p q c t ∙ rw (n, other r c m) refl,
    add_child-optr p q c t ∙ rw (other r c m) refl,
  )

  not_head : (r c : ℕ) → (r == q) ≡ false → mem c (children r) ≡ true → points (t q).cptr c ≡ false
  not_head r c n m = elim (Bool-cases (points (t q).cptr c)) [
    | inr o ↦ o
    | inl y ↦
        let here : mem c (children q) ≡ true =
          points-first (children q) c (sym (ap (λ x. points x c) (f.youngest q)) ∙ y) in
        let twice : some r ≡ some q = sym (f.parent r c m) ∙ f.parent q c here in
        absurd (ground (arith, twice, n))
  ]

  mem_tail : (o c : ℕ) (l : List ℕ) → mem c l ≡ true → mem c (o ∷ l) ≡ true
  unfolding mem
  mem_tail o c l m = ground (arith, m)

  -- The head of the children stands there once.
  apart :
      (o c : ℕ) (l : List ℕ)
      → children q ≡ o ∷ l
      → (t q).cptr ≡ some o
      → mem c l ≡ true
      → points (t q).cptr c ≡ false
  apart o c l e head m = rw head (ne_in c o l m (subst IsDistinct e (f.once q)).0)

  linked_rest :
      (l : List ℕ) → children q ≡ l → IsChain t (young q) l → IsChain (add_child p q t) (some p) l
  linked_rest [] e a = a
  linked_rest (o ∷ l) e (y, link, a) =
      let head : (t q).cptr ≡ some o = f.youngest q ∙ ap first e in
      let mine : (c : ℕ) → mem c (o ∷ l) ≡ true → mem c (children q) ≡ true =
        λ c m. subst (λ x. mem c x ≡ true) (sym e) m in
      (
        add_child-yptr p q o t ∙ rw (head, ==_refl o) refl,
        add_child-optr p q o t ∙ rw (other q o (mine o (mem_head o l))) link,
        IsChain-same t (add_child p q t) (some o) l
            (λ c m. far q c (mine c (mem_tail o c l m)) (apart o c l e head m)) a,
      )

  linked_mine : IsChain (add_child p q t) none (p ∷ children q)
  linked_mine =
      let away : points (t q).cptr p ≡ false = elim (Bool-cases (points (t q).cptr p)) [
        | inr n ↦ n
        | inl y ↦
            let here : mem p (children q) ≡ true =
              points-first (children q) p (sym (ap (λ x. points x p) (f.youngest q)) ∙ y) in
            absurd (ground (arith, here, fresh q))
      ] in
      (
        add_child-yptr p q p t ∙ rw (away, ==_refl p) refl,
        add_child-optr p q p t ∙ rw (==_refl p) (f.youngest q),
        linked_rest (children q) refl (f.chain q),
      )

  grown_parent : (r c : ℕ) → mem c (grown p q children r) ≡ true → (t c).parent ≡ some r
  unfolding mem
  grown_parent r c m = elim (Bool-cases (r == q)) [
    | inr n ↦ f.parent r c (sym (ap (λ b. mem c (if b then p ∷ children r else children r)) n) ∙ m)
    | inl e ↦
        let same : q ≡ r = ground (arith, e) in
        let there : mem c (p ∷ children r) ≡ true =
          sym (ap (λ b. mem c (if b then p ∷ children r else children r)) e) ∙ m in
        elim (Bool-cases (c == p)) [
          | inl y ↦ let here : c ≡ p = ground (arith, y) in rw here (parent ∙ ap some same)
          | inr n ↦ f.parent r c (ground (arith, there, n))
        ]
  ]

  grown_once : (r : ℕ) → IsDistinct (grown p q children r)
  grown_once r = elim (Bool-cases (r == q)) [
    | inl e ↦ rw e (fresh r, f.once r)
    | inr n ↦ rw n (f.once r)
  ]

  pub add_child-IsFamily : IsFamilyFrom young (add_child p q t) (grown p q children)
  add_child-IsFamily = record {
    youngest = λ r. add_child-cptr p q r t ∙ youngest r;
    chain = λ r. elim (Bool-cases (r == q)) [
      | inl e ↦ let same : r ≡ q = ground (arith, e) in rw (same, ==_refl q, head) linked_mine
      | inr n ↦ rw n (
          IsChain-same t (add_child p q t) (young r) (children r)
            (λ c m. far r c m (not_head r c n m)) (f.chain r))
    ];
    parent = λ r c m. add_child-parent p q c t ∙ grown_parent r c m;
    once = grown_once;
  }
    where
      youngest : (r : ℕ) → (if r == q then some p else (t r).cptr) ≡ first (grown p q children r)
      youngest r = elim (Bool-cases (r == q)) [ inl e ↦ rw e refl | inr n ↦ rw n (f.youngest r) ]

-- With links that say which children each process has, and a process that is no child of any,
-- `set_links` returns: the process is the youngest child of its parent, every other child and its
-- place among its siblings is as before, and the process is listed and counted.
pub set_links-IsFamily :
    (s : Processes) (children : ℕ → List ℕ) (p q : ℕ)
    → IsFamily (procs s) children
    → ((r : ℕ) → mem p (children r) ≡ false)
    → (procs s p).parent ≡ some q
    → (s' : Processes) × (set_links p s ≡ some s')
      × IsFamily (procs s') (grown p q children)
      × (s'.proc_list ≡ p ∷ s.proc_list)
      × (s'.nr_process ≡ s.nr_process + 1)
unfolding set_links
set_links-IsFamily s children p q f fresh parent = (
  record (with_procs (add_child p q (procs s)) s) {
    proc_list = p ∷ s.proc_list;
    nr_process = s.nr_process + 1;
  },
  rw parent refl,
  add_child-IsFamily (λ _. none) (procs s) children p q f refl fresh parent,
  refl,
  refl,
)
