-- ===== src/Paging/Hold.antt =====
-- A reference is taken and dropped: `page_ref_inc`, `page_ref_dec` and the free of an unused page.
use mips.Base.{
  ℕ, ◌+◌, ◌*◌, ◌%◌, ◌^◌, ◌<◌, ◌≤◌, ◌==◌, ◌≡◌, refl, ap, true, false, List, ◌∷◌, length, mem, count,
  one_if, arith, inl, inr, Bool-cases, sym, ◌∙◌, count-le_length,
}
use mips.Buddy.Blocks.{covers}
use mips.Buddy.Refs.{set_ref, set_ref-covers, set_ref-IsFramed, set_ref-IsBuddy}
use mips.Paging.{Memory, present, page_ref, page_ref_inc}
use mips.Paging.Entry.{page_of}
use mips.Paging.Uses.{uses-le, ne_of_mem}
use mips.Paging.Valid.{IsPaged, IsUsable, IsUsable-framed}

-- A page that an entry may name: in use, and neither a directory nor a page table.
pub record IsMappable (ds : List ℕ) (m : Memory) (p : ℕ) : Type 0 where
  pub taken : covers m.phys p ≡ 0
  pub usable : IsUsable p m.phys
  pub no_dir : mem p ds ≡ false
  pub no_table :
      (d i : ℕ)
      → mem d ds ≡ true
      → i < 1024
      → present (m.words d i) ≡ true
      → (page_of (m.words d i) == p) ≡ false

pub page_ref_inc-IsMappable :
    (ds : List ℕ) (m : Memory) (p q : ℕ) → IsMappable ds m q → IsMappable ds (page_ref_inc p m) q
unfolding page_ref_inc
page_ref_inc-IsMappable ds m p q a =
    let r = (page_ref p m + 1) % 2 ^ 32 in
    record {
      taken = set_ref-covers p r m.phys q ∙ a.taken;
      usable =
          IsUsable-framed q m.phys (set_ref p r m.phys) (set_ref-IsFramed p r m.phys) refl a.usable;
      no_dir = a.no_dir;
      no_table = a.no_table;
    }

pub ref_bound :
    (ds h : List ℕ) (m : Memory) (q : ℕ)
    → IsPaged ds h m
    → length h < 10
    → page_ref q m + 1 < 2 ^ 32
ref_bound ds h m q v l =
    omega (arith, v.counted q, uses-le m.words ds q, count-le_length q h, times (length ds) v.few)
  where
    times : (n : ℕ) → n < 2048 → n * (1024 * 1025) ≤ 2048 * (1024 * 1025)
    times n l = omega arith

pub page_ref_inc-IsPaged :
    (ds h : List ℕ) (m : Memory) (p : ℕ)
    → IsPaged ds h m
    → IsMappable ds m p
    → length h < 10
    → IsPaged ds (p ∷ h) (page_ref_inc p m)
unfolding page_ref_inc count
page_ref_inc-IsPaged ds h m p v a l =
    let r = (page_ref p m + 1) % 2 ^ 32 in
    let up : r ≡ page_ref p m + 1 = omega (arith, ref_bound ds h m p v l) in
    let ref : (q : ℕ) → page_ref q (page_ref_inc p m) ≡ page_ref q m + one_if (q == p) =
      λ q. ground (arith, up) in
    let other : (q : ℕ) → (q == p) ≡ false → page_ref q (page_ref_inc p m) ≡ page_ref q m =
      λ q n. ground (arith, n) in
    let frame = set_ref-IsFramed p r m.phys in
    record {
      buddy = set_ref-IsBuddy p r m.phys v.buddy;
      few = v.few;
      small = v.small;
      dirs = λ d here.
          let (once, out, none_there) = v.dirs d here in
          (
            once,
            set_ref-covers p r m.phys d ∙ out,
            other d (ne_of_mem d p ds here a.no_dir) ∙ none_there,
          );
      counted = λ q. omega (arith, ref q, v.counted q);
      alone = λ d i here k there.
          other (page_of (m.words d i)) (a.no_table d i here k there) ∙ v.alone d i here k there;
      usable = λ q pos. IsUsable-framed q m.phys (page_ref_inc p m).phys frame refl (usable q pos);
      quiet = λ q c. still q (rw (sym (set_ref-covers p r m.phys q)) c);
    }
  where
    usable : (q : ℕ) → 0 < page_ref q (page_ref_inc p m) → IsUsable q m.phys
    usable q pos = elim (Bool-cases (q == p)) [
      | inl e ↦ let same : q ≡ p = ground arith in rw same a.usable
      | inr n ↦ v.usable q (ground arith)
    ]

    still : (q : ℕ) → 0 < covers m.phys q → (page_ref q (page_ref_inc p m) ≡ 0) × (q < m.phys.npage)
    still q c = elim (Bool-cases (q == p)) [
      | inl e ↦
          let same : q ≡ p = ground arith in
          absurd (omega (arith, a.taken, ap (covers m.phys) same))
      | inr n ↦ ground (arith, v.quiet q c)
    ]
