-- ===== src/Paging/Unmap.antt =====
-- `page_remove`: an address loses its page.
use mips.Base.{
  ℕ, ◌+◌, ◌<◌, ◌==◌, ◌≡◌, refl, ap, true, false, List, length, mem, ◌&&◌, if◌then◌else◌, arith, inl,
  inr, Bool-cases, ==_refl, ◌∙◌, none, some,
}
use mips.Buddy.Blocks.{covers}
use mips.Paging.{Memory, present, page_ref, page_remove_pte, page_remove, get_pte, pdx, ptx}
use mips.Paging.Entry.{page_of}
use mips.Paging.Uses.{Words, IsTable, leaf_uses, put}
use mips.Paging.Valid.{IsPaged, pde-IsTable}
use mips.Paging.Table.{pte_at}
use mips.Paging.Walk.{get_pte-there, get_pte-absent}
use mips.Paging.Remove.{
  IsRemoved, page_remove_pte-IsRemoved, put-IsWritten, pte_at-table, absent_zero, leaf_uses-absent,
}

-- `page_remove` has taken the page of an address out of the page tables.
pub record IsUnmapped (ds h : List ℕ) (d la : ℕ) (m m' : Memory) : Type 0 where
  pub paged : IsPaged ds h m'
  pub gone : present (pte_at m'.words d (pdx la) (ptx la)) ≡ false
  pub others :
      (b k l : ℕ)
      → mem b ds ≡ true
      → k < 1024
      → (b == d && (k == pdx la && l == ptx la)) ≡ false
      → pte_at m'.words b k l ≡ pte_at m.words b k l
  pub refs :
      (q : ℕ) → page_ref q m' + leaf_uses (pte_at m.words d (pdx la) (ptx la)) q ≡ page_ref q m
  pub freed :
      (q : ℕ)
      → covers m'.phys q
        ≡ covers m.phys q
          + (if page_ref q m' == 0 then leaf_uses (pte_at m.words d (pdx la) (ptx la)) q else 0)

pub IsRemoved-IsUnmapped :
    (ds h : List ℕ) (m m' : Memory) (d la t : ℕ)
    → mem d ds ≡ true
    → IsTable m.words ds d (pdx la) t
    → IsRemoved ds h t (ptx la) m m'
    → IsUnmapped ds h d la m m'
IsRemoved-IsUnmapped ds h m m' d la t here a r =
    let old = pte_at-table m.words ds d (pdx la) t (ptx la) a in
    elim (Bool-cases (present (m.words t (ptx la)))) [
      | inl y ↦
          let words : m'.words ≡ put t (ptx la) 0 m.words = r.words ∙ rw y refl in
          let w = put-IsWritten ds m.words d (pdx la) t (ptx la) 0 a in
          record {
            paged = r.paged;
            gone = rw words (
                ap present (
                  w d (pdx la) (ptx la) here (omega arith)
                  ∙ rw (==_refl d, ==_refl (pdx la), ==_refl (ptx la)) refl)
                ∙ absent_zero);
            others = λ b k l mb lk n. rw words (w b k l mb lk ∙ rw n refl);
            refs = λ q. rw old (r.refs q);
            freed = λ q. rw old (r.freed q);
          }
      | inr n ↦
          let words : m'.words ≡ m.words = r.words ∙ rw n refl in
          record {
            paged = r.paged;
            gone = rw (words, old) n;
            others = λ b k l mb lk o. rw words refl;
            refs = λ q. rw old (r.refs q);
            freed = λ q. rw old (r.freed q);
          }
    ]

page_remove-there :
    (m m' : Memory) (d la t : ℕ)
    → get_pte d la false m ≡ some (some (t, ptx la), m)
    → page_remove_pte (t, ptx la) m ≡ some m'
    → page_remove d la m ≡ some m'
unfolding page_remove
page_remove-there m m' d la t e run = rw (page_remove, e, run) refl

page_remove-absent :
    (m : Memory) (d la : ℕ) → get_pte d la false m ≡ some (none, m) → page_remove d la m ≡ some m
unfolding page_remove
page_remove-absent m d la e = rw (page_remove, e) refl

pub pte_at-absent : (w : Words) (d i j : ℕ) → present (w d i) ≡ false → pte_at w d i j ≡ 0
unfolding pte_at
pte_at-absent w d i j n = rw n refl

-- Without a table there is nothing to do.
pub absent-IsUnmapped :
    (ds h : List ℕ) (m : Memory) (d la : ℕ)
    → IsPaged ds h m
    → present (m.words d (pdx la)) ≡ false
    → IsUnmapped ds h d la m m
absent-IsUnmapped ds h m d la v n =
    let none_there = pte_at-absent m.words d (pdx la) (ptx la) n in
    let unused : (q : ℕ) → leaf_uses (pte_at m.words d (pdx la) (ptx la)) q ≡ 0 = λ q.
      leaf_uses-absent (pte_at m.words d (pdx la) (ptx la)) q
        (ap present none_there ∙ absent_zero) in
    record {
      paged = v;
      gone = ap present none_there ∙ absent_zero;
      others = λ b k l _ _ _. refl;
      refs = λ q. omega (arith, unused q);
      freed = λ q. rw (unused q) (ground arith);
    }

-- With every reference counted, `page_remove` returns for every address. The address has no page
-- afterwards, the entries of all other addresses of all directories are as before, its page has one
-- reference less, and the pages that become free are its page, if that reference was the last one.
pub page_remove-IsUnmapped :
    (ds h : List ℕ) (m : Memory) (d la : ℕ)
    → IsPaged ds h m
    → mem d ds ≡ true
    → length h < 9
    → (m' : Memory) × (page_remove d la m ≡ some m') × IsUnmapped ds h d la m m'
page_remove-IsUnmapped ds h m d la v here few = elim (Bool-cases (present (m.words d (pdx la)))) [
  | inr n ↦
      (m, page_remove-absent m d la (get_pte-absent m d la n), absent-IsUnmapped ds h m d la v n)
  | inl y ↦
      let t = page_of (m.words d (pdx la)) in
      let a = pde-IsTable ds h m d (pdx la) v here (omega arith) y in
      let (m', run, r) =
        page_remove_pte-IsRemoved ds h m d (pdx la) t (ptx la) v here a (omega arith) few in
      (
        m',
        page_remove-there m m' d la t (get_pte-there ds h m d la false v here y) run,
        IsRemoved-IsUnmapped ds h m m' d la t here a r,
      )
]
