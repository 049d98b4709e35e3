-- ===== src/Family/Chain.antt =====
-- The children of a process as a list, the youngest first, and what the links say of it.
use mips.Base.{
  suc, ℕ, ◌==◌, ◌≡◌, refl, ap, ◌∙◌, Bool, true, false, Option, none, some, List, [], ◌∷◌, mem,
  if◌then◌else◌, arith, inl, inr, Bool-cases, ==_refl, subst,
}
use mips.Proc.{Table}
use mips.Family.{add_child, add_before, link_older, set_yptr}

abbrev pub first : List ℕ → Option ℕ
first [] = none
first (p ∷ l) = some p

-- The number of entries.
abbrev pub entries : List ℕ → ℕ
entries [] = 0
entries (p ∷ l) = suc (entries l)

-- The links between the children, `young` is what the first one has as its younger.
abbrev pub IsChain : Table → (young : Option ℕ) → List ℕ → Type 0
IsChain t young [] = Unit
IsChain t young (p ∷ l) = ((t p).yptr ≡ young) × ((t p).optr ≡ first l) × IsChain t (some p) l

-- No process stands twice in a list.
abbrev pub IsDistinct : List ℕ → Type 0
IsDistinct [] = Unit
IsDistinct (p ∷ l) = (mem p l ≡ false) × IsDistinct l

pub ne_in : (c o : ℕ) (l : List ℕ) → mem c l ≡ true → mem o l ≡ false → (c == o) ≡ false
ne_in c o l m n = elim (Bool-cases (c == o)) [
  | inr e ↦ e
  | inl e ↦
      let same : c ≡ o = ground (arith, e) in
      let here : mem o l ≡ true = subst (λ x. mem x l ≡ true) same m in
      absurd (ground (arith, here, n))
]

-- Every process has the children of the list that `children` names, and no other. `young` is what
-- its first child has as its younger sibling.
pub record IsFamilyFrom (young : ℕ → Option ℕ) (t : Table) (children : ℕ → List ℕ) : Type 0 where
  pub youngest : (q : ℕ) → (t q).cptr ≡ first (children q)
  pub chain : (q : ℕ) → IsChain t (young q) (children q)
  pub parent : (q c : ℕ) → mem c (children q) ≡ true → (t c).parent ≡ some q
  pub once : (q : ℕ) → IsDistinct (children q)

-- The first child of a process has no younger sibling.
abbrev pub IsFamily : Table → (children : ℕ → List ℕ) → Type 0
IsFamily t children = IsFamilyFrom (λ _. none) t children

-- The same links at the processes of a list.
pub IsChain-same :
    (t u : Table) (young : Option ℕ) (l : List ℕ)
    → ((c : ℕ) → mem c l ≡ true → ((u c).yptr ≡ (t c).yptr) × ((u c).optr ≡ (t c).optr))
    → IsChain t young l
    → IsChain u young l
unfolding mem
IsChain-same t u young [] e a = a
IsChain-same t u young (p ∷ l) e (y, o, r) =
    let (ey, eo) = e p (rw (==_refl p) refl) in
    (ey ∙ y, eo ∙ o, IsChain-same t u (some p) l (λ c m. e c (ground (arith, m))) r)

-- Whether a link leads to a process.
abbrev pub points : Option ℕ → ℕ → Bool
points none x = false
points (some o) x = x == o

-- The links that `add_before` makes.
module _ (p q x : ℕ) (t : Table) where
  before-optr :
      (older : Option ℕ)
      → ((add_before older p q t) x).optr ≡ (if x == p then older else (t x).optr)
  unfolding add_before link_older
  before-optr none = ground arith
  before-optr (some o) = ground arith

  before-yptr :
      (older : Option ℕ)
      → ((add_before older p q t) x).yptr ≡ (if points older x then some p else (t x).yptr)
  unfolding add_before link_older
  before-yptr none = ground arith
  before-yptr (some o) = ground arith

  before-cptr :
      (older : Option ℕ)
      → ((add_before older p q t) x).cptr ≡ (if x == q then some p else (t x).cptr)
  unfolding add_before link_older
  before-cptr none = ground arith
  before-cptr (some o) = ground arith

  before-parent : (older : Option ℕ) → ((add_before older p q t) x).parent ≡ (t x).parent
  unfolding add_before link_older
  before-parent none = ground arith
  before-parent (some o) = ground arith

  before-state : (older : Option ℕ) → ((add_before older p q t) x).state ≡ (t x).state
  unfolding add_before link_older
  before-state none = ground arith
  before-state (some o) = ground arith

  unlinked_cptr : ((set_yptr p none t) x).cptr ≡ (t x).cptr
  unlinked_cptr = ground arith

-- The links that `add_child` makes.
module _ (p q x : ℕ) (t : Table) where
  pub add_child-optr : ((add_child p q t) x).optr ≡ (if x == p then (t q).cptr else (t x).optr)
  unfolding add_child
  add_child-optr =
      before-optr p q x (set_yptr p none t) ((set_yptr p none t) q).cptr
      ∙ rw (unlinked_cptr p q q t) (ground arith)

  unlinked : ((set_yptr p none t) x).yptr ≡ (if x == p then none else (t x).yptr)
  unlinked = ground arith

  pub add_child-yptr :
      ((add_child p q t) x).yptr
      ≡ (if points (t q).cptr x then some p else if x == p then none else (t x).yptr)
  unfolding add_child
  add_child-yptr =
      before-yptr p q x (set_yptr p none t) ((set_yptr p none t) q).cptr
      ∙ rw (unlinked_cptr p q q t) (ap (λ v. if points (t q).cptr x then some p else v) unlinked)

  pub add_child-cptr : ((add_child p q t) x).cptr ≡ (if x == q then some p else (t x).cptr)
  unfolding add_child
  add_child-cptr = before-cptr p q x (set_yptr p none t) ((set_yptr p none t) q).cptr ∙ ground arith

  pub add_child-parent : ((add_child p q t) x).parent ≡ (t x).parent
  unfolding add_child
  add_child-parent =
      before-parent p q x (set_yptr p none t) ((set_yptr p none t) q).cptr ∙ ground arith

  pub add_child-state : ((add_child p q t) x).state ≡ (t x).state
  unfolding add_child
  add_child-state =
      before-state p q x (set_yptr p none t) ((set_yptr p none t) q).cptr ∙ ground arith

pub points-first : (l : List ℕ) (c : ℕ) → points (first l) c ≡ true → mem c l ≡ true
unfolding mem
points-first [] c h = absurd (ground arith)
points-first (p ∷ l) c h = ground (arith, h)
