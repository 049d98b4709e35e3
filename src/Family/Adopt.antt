-- ===== src/Family/Adopt.antt =====
-- The loop of `do_exit` that gives the children of a process to initproc.
use mips.Base.{
  ℕ, ◌==◌, ◌≡◌, ap, sym, ◌∙◌, true, false, Option, some, List, ◌∷◌, mem, if◌then◌else◌, arith, inl,
  inr, Bool-cases, subst, mem_head,
}
use mips.Proc.{Table}
use mips.Family.{set_parent, set_cptr}
use mips.Family.Chain.{first, IsChain, IsFamilyFrom, IsDistinct, ne_in, IsChain-same}

-- What the links of two tables have in common.
pub record IsAlike (t u : Table) : Type 0 where
  pub cptr : (x : ℕ) → (u x).cptr ≡ (t x).cptr
  pub optr : (x : ℕ) → (u x).optr ≡ (t x).optr
  pub yptr : (x : ℕ) → (u x).yptr ≡ (t x).yptr
  pub parent : (x : ℕ) → (u x).parent ≡ (t x).parent

pub IsFamilyFrom-alike :
    (young : ℕ → Option ℕ) (t u : Table) (children : ℕ → List ℕ)
    → IsAlike t u
    → IsFamilyFrom young t children
    → IsFamilyFrom young u children
IsFamilyFrom-alike young t u children a f = record {
  youngest = λ q. a.cptr q ∙ f.youngest q;
  chain = λ q. IsChain-same t u (young q) (children q) (λ c m. (a.yptr c, a.optr c)) (f.chain q);
  parent = λ q c m. a.parent c ∙ f.parent q c m;
  once = f.once;
}

-- The children without the youngest one of `c`, whose others are `l`.
abbrev pub without : (c : ℕ) (l : List ℕ) → (ℕ → List ℕ) → ℕ → List ℕ
without c l children r = if r == c then l else children r

-- What the first child that is left of `c` has as its younger sibling.
abbrev pub left_behind : (c p : ℕ) → (ℕ → Option ℕ) → ℕ → Option ℕ
left_behind c p young r = if r == c then some p else young r

-- `p` is cut from the children of `c` and named a child of `i`.
abbrev pub cut : (c p i : ℕ) → Table → Table
cut c p i t = set_parent p (some i) (set_cptr c (t p).optr t)

module _ (young : ℕ → Option ℕ) (t : Table) (children : ℕ → List ℕ) (c p i : ℕ) (l : List ℕ)
    (f : IsFamilyFrom young t children) (here : children c ≡ p ∷ l) where
  cut-cptr : (x : ℕ) → ((cut c p i t) x).cptr ≡ (if x == c then (t p).optr else (t x).cptr)
  cut-cptr x = ground arith

  cut-optr : (x : ℕ) → ((cut c p i t) x).optr ≡ (t x).optr
  cut-optr x = ground arith

  cut-yptr : (x : ℕ) → ((cut c p i t) x).yptr ≡ (t x).yptr
  cut-yptr x = ground arith

  cut-parent : (x : ℕ) → ((cut c p i t) x).parent ≡ (if x == p then some i else (t x).parent)
  cut-parent x = ground arith

  linked : ((t p).optr ≡ first l) × IsChain t (some p) l
  linked =
      let a : IsChain t (young c) (p ∷ l) = subst (IsChain t (young c)) here (f.chain c) in
      (a.1, a.2)

  once_here : (mem p l ≡ false) × IsDistinct l
  once_here = subst IsDistinct here (f.once c)

  mine : (x : ℕ) → mem x (p ∷ l) ≡ true → mem x (children c) ≡ true
  mine x m = subst (λ k. mem x k ≡ true) (sym here) m

  fresh_elsewhere : (r : ℕ) → (r == c) ≡ false → mem p (children r) ≡ false
  fresh_elsewhere r n = elim (Bool-cases (mem p (children r))) [
    | inr e ↦ e
    | inl e ↦
        let both : some r ≡ some c = sym (f.parent r p e) ∙ f.parent c p (mine p (mem_head p l)) in
        absurd (ground (arith, both, n))
  ]

  pub fresh : (r : ℕ) → mem p (without c l children r) ≡ false
  fresh r = elim (Bool-cases (r == c)) [
    | inl e ↦ rw e once_here.0
    | inr n ↦ rw n (fresh_elsewhere r n)
  ]

  without_parent :
      (r x : ℕ) → mem x (without c l children r) ≡ true → ((cut c p i t) x).parent ≡ some r
  unfolding mem
  without_parent r x m =
      let apart = ne_in x p (without c l children r) m (fresh r) in
      cut-parent x
      ∙ rw apart (elim (Bool-cases (r == c)) [
        | inr n ↦ f.parent r x (sym (ap (λ b. mem x (if b then l else children r)) n) ∙ m)
        | inl e ↦
            let same : c ≡ r = ground (arith, e) in
            let there : mem x l ≡ true =
              sym (ap (λ b. mem x (if b then l else children r)) e) ∙ m in
            f.parent c x (mine x (ground (arith, there))) ∙ ap some same
      ])

  pub cut-IsFamily : IsFamilyFrom (left_behind c p young) (cut c p i t) (without c l children)
  cut-IsFamily = record {
    youngest = λ r.
        cut-cptr r
        ∙ elim (Bool-cases (r == c)) [ inl e ↦ rw e linked.0 | inr n ↦ rw n (f.youngest r) ];
    chain = λ r. elim (Bool-cases (r == c)) [
      | inl e ↦
          rw e (IsChain-same t (cut c p i t) (some p) l (λ x m. (cut-yptr x, cut-optr x)) linked.1)
      | inr n ↦ rw n (
          IsChain-same t (cut c p i t) (young r) (children r) (λ x m. (cut-yptr x, cut-optr x))
            (f.chain r))
    ];
    parent = without_parent;
    once = λ r. elim (Bool-cases (r == c)) [ inl e ↦ rw e once_here.1 | inr n ↦ rw n (f.once r) ];
  }
