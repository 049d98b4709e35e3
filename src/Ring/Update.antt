-- ===== src/Ring/Update.antt =====
-- What the operations on lists do to the entries behind a head.
use mips.Base.{
  ℕ, ◌+◌, ◌<◌, ◌≤◌, ◌==◌, ◌≡◌, refl, sym, subst, false, List, [], ◌∷◌, ◌++◌, count, count-append,
  arith, Bool-cases, inl, inr, ==_refl, one_if,
}
use mathlib.Core.List.{append-nil}
use mips.Ring.{
  Links, insert_between, unlink_between, list_add_before, list_add_after, list_add, list_del,
}
use mips.Ring.Chain.{
  IsChain, IsDistinct, IsDistinct-head, apart, join, cut, frame, last-count, redirect, apart_lists,
  flip,
}

-- The entries of the list with head `head`, each of them once, and back to the head.
pub record IsRing (h : Links) (head : ℕ) (l : List ℕ) : Type 0 where
  pub chain : IsChain h head l head
  pub distinct : IsDistinct (head ∷ l)

IsDistinct-snoc :
    (head x : ℕ) (l : List ℕ)
    → IsDistinct (head ∷ l)
    → count x (head ∷ l) ≡ 0
    → IsDistinct (head ∷ (l ++ (x ∷ [])))
unfolding IsDistinct count
IsDistinct-snoc head x l d f z = elim (Bool-cases (z == x)) [
  | inl e ↦
      let same : z ≡ x = ground arith in
      let none_at : one_if (z == head) + count z l ≡ 0 = rw same f in
      omega (arith, count-append z l (x ∷ []), none_at, bound z)
  | inr e ↦
      let zero_at : one_if (z == x) ≡ 0 = rw e refl in
      omega (arith, count-append z l (x ∷ []), d z, zero_at)
]
  where
    bound : (y : ℕ) → one_if (y == x) ≤ 1
    bound y = elim (Bool-cases (y == x)) [ inl e ↦ rw e (omega arith) | inr e ↦ rw e (omega arith) ]

here : (x : ℕ) (l : List ℕ) → 0 < count x (x ∷ l)
unfolding count
here x l = rw (==_refl x) (omega arith)

-- `list_add_before` of an entry that is not in the list puts it at the end.
pub list_add_before-IsRing :
    (h : Links) (head x : ℕ) (l : List ℕ)
    → IsRing h head l
    → count x (head ∷ l) ≡ 0
    → IsRing (list_add_before head x h) head (l ++ (x ∷ []))
unfolding list_add_before insert_between IsChain count
list_add_before-IsRing h head x l r new =
    let p = h.prev head in
    let p_other : (p == x) ≡ false = apart x p (head ∷ l) new (last-count h head head l r.chain) in
    let h_other : (head == x) ≡ false = apart x head (head ∷ l) new (here head l) in
    record {
      chain =
          join (list_add_before head x h) head x head l []
            (redirect h (list_add_before head x h) head head x l r.distinct r.chain
              (rw p_other (rw (==_refl p) refl)) (rw (==_refl x) refl)
              (λ z i k. rw (apart x z (head ∷ l) new i) (rw k refl))
              (λ z i.
                rw (apart x z (head ∷ l) new (omega (arith, i)))
                  (rw (apart head z l (IsDistinct-head head l r.distinct) i) refl)))
            (rw (==_refl x) refl, rw h_other (rw (==_refl head) refl));
      distinct = IsDistinct-snoc head x l r.distinct new;
    }

-- An entry at the head or behind `y` is not `y`.
behind :
    (head y z : ℕ) (l k : List ℕ)
    → ((u : ℕ) → count u (head ∷ l) + count u (y ∷ k) ≤ 1)
    → 0 < count z (head ∷ k)
    → (z == y) ≡ false
unfolding count
behind head y z l k a i = elim (Bool-cases (z == head)) [
  | inl e ↦
      let same : z ≡ head = ground arith in
      rw same (apart_lists head y (head ∷ l) (y ∷ k) a (here head l) (here y k))
  | inr e ↦ elim (Bool-cases (z == y)) [
    | inr f ↦ f
    | inl f ↦
        let one : one_if (z == y) ≡ 1 = rw f refl in
        let none_at : one_if (z == head) ≡ 0 = rw e refl in
        absurd (omega (arith, a z, one, none_at))
  ]
]

-- `list_del` of an entry takes that entry away, and no other.
pub list_del-IsRing :
    (h : Links) (head x : ℕ) (l m : List ℕ)
    → IsRing h head (l ++ (x ∷ m))
    → IsRing (list_del x h) head (l ++ m)
unfolding list_del unlink_between IsChain IsDistinct count
list_del-IsRing h head x l m r =
    let (c, d) = cut h head x head l m r.chain in
    let parts = λ (z : ℕ). count-append z l (x ∷ m) in
    record {
      chain =
          closed m d c (tail_of r.distinct (λ z. omega (arith, parts z)))
            (λ z. omega (arith, r.distinct z, parts z));
      distinct = λ z. omega (arith, r.distinct z, parts z, count-append z l m);
    }
  where
    tail_of :
        IsDistinct (head ∷ (l ++ (x ∷ m)))
        → ((z : ℕ) → count z l ≤ count z (l ++ (x ∷ m)))
        → IsDistinct (head ∷ l)
    tail_of d e z = omega (arith, d z, e z)

    closed :
        (k : List ℕ)
        → IsChain h x k head
        → IsChain h head l x
        → IsDistinct (head ∷ l)
        → ((z : ℕ) → count z (head ∷ l) + count z k ≤ 1)
        → IsChain (list_del x h) head (l ++ k) head
    closed [] (n, p) c d a =
        subst (λ t. IsChain (list_del x h) head t head) (sym (append-nil l))
          (redirect h (list_del x h) head x head l d c (rw (==_refl (h.prev x)) n)
            (rw n (rw (==_refl head) refl)) (λ z i k. rw k refl)
            (λ z i. rw n (rw (apart head z l (IsDistinct-head head l d) i) refl)))
    closed (y ∷ k) (n, p, e) c d a =
        let end = last-count h head x l c in
        join (list_del x h) head y head l k
          (redirect h (list_del x h) head x y l d c (rw (==_refl (h.prev x)) n)
            (rw n (rw (==_refl y) refl)) (λ z i k. rw k refl)
            (λ z i. rw n (rw (apart_lists z y (head ∷ l) (y ∷ k) a (omega arith) (here y k)) refl)))
          (frame h (list_del x h) y head k
            (λ z i.
              rw (flip (h.prev x) z (apart_lists (h.prev x) z (head ∷ l) (y ∷ k) a end i)) refl)
            (λ z i. rw n (rw (behind head y z l k a i) refl)) e)

IsDistinct-cons :
    (head x : ℕ) (l : List ℕ)
    → IsDistinct (head ∷ l)
    → count x (head ∷ l) ≡ 0
    → IsDistinct (head ∷ x ∷ l)
unfolding IsDistinct count
IsDistinct-cons head x l d f z =
    omega (arith, count-append z l (x ∷ []), IsDistinct-snoc head x l d f z)

-- `list_add` of an entry that is not in the list puts it in front.
pub list_add-IsRing :
    (h : Links) (head x : ℕ) (l : List ℕ)
    → IsRing h head l
    → count x (head ∷ l) ≡ 0
    → IsRing (list_add head x h) head (x ∷ l)
unfolding list_add list_add_after insert_between IsChain IsDistinct count
list_add-IsRing h head x l r new = record {
  chain = closed l r.chain r.distinct new;
  distinct = IsDistinct-cons head x l r.distinct new;
}
  where
    closed :
        (k : List ℕ)
        → IsChain h head k head
        → IsDistinct (head ∷ k)
        → count x (head ∷ k) ≡ 0
        → IsChain (list_add head x h) head (x ∷ k) head
    closed [] (n, p) d f =
        let other : (head == x) ≡ false = apart x head (head ∷ []) f (here head []) in
        (
          rw other (rw (==_refl head) refl),
          rw (==_refl x) refl,
          (rw (==_refl x) n, rw (other, n) (rw (==_refl head) refl)),
        )
    closed (y ∷ k) (n, p, c) d f =
        let other : (head == x) ≡ false = apart x head (head ∷ y ∷ k) f (here head (y ∷ k)) in
        let y_other : (y == x) ≡ false = apart x y (y ∷ k) (omega (arith, f)) (here y k) in
        (
          rw other (rw (==_refl head) refl),
          rw (==_refl x) refl,
          (
            rw (==_refl x) n,
            rw (y_other, n) (rw (==_refl y) refl),
            frame h (list_add head x h) y head k
                (λ z i.
                  rw (apart x z (y ∷ k) (omega (arith, f)) i)
                    (rw (apart head z (y ∷ k) (IsDistinct-head head (y ∷ k) d) i) refl))
                (λ z i.
                  rw (apart x z (head ∷ k) (omega (arith, f)) i) (rw n (rw (not_first z i) refl)))
                c,
          ),
        )
      where
        not_first : (z : ℕ) → 0 < count z (head ∷ k) → (z == y) ≡ false
        not_first z i = behind head y z [] k (λ u. omega (arith, d u)) i
