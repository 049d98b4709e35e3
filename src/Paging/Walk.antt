-- ===== src/Paging/Walk.antt =====
-- `get_pte`: the entry of an address, with a new page table where one is missing.
use mips.Base.{
  ℕ, ◌+◌, ◌<◌, ◌≡◌, refl, Bool, true, false, List, mem, one_if, arith, not, none, some, ltb,
}
use mips.Buddy.{buddy_nr_free_pages}
use mips.Paging.{
  Memory, present, page_ref, pa2page, pde2page, entry_of, get_pte, pdx, ptx, pte_addr,
}
use mips.Paging.Entry.{page_of}
use mips.Paging.Uses.{IsTable, IsKept}
use mips.Paging.Valid.{IsPaged, pde-IsTable}
use mips.Paging.Hold.{IsMappable}
use mips.Paging.Table.{pte_at}

-- The page of an entry that names one.
pub pa2page-some :
    (w : ℕ) (m : Memory) → page_of w < m.phys.npage → pa2page (pte_addr w) m ≡ some (page_of w)
unfolding pa2page
pa2page-some w m h =
    let inside : ltb (page_of w) m.phys.npage ≡ true = ground arith in rw inside refl

pub table_inside :
    (ds h : List ℕ) (m : Memory) (d i : ℕ)
    → IsPaged ds h m
    → mem d ds ≡ true
    → i < 1024
    → present (m.words d i) ≡ true
    → page_of (m.words d i) < m.phys.npage
table_inside ds h m d i v here l y =
    let one = v.alone d i here l y in (v.usable (page_of (m.words d i)) (omega (arith, one))).inside

pub entry_of-some :
    (d la : ℕ) (m : Memory)
    → page_of (m.words d (pdx la)) < m.phys.npage
    → entry_of d la m ≡ some (page_of (m.words d (pdx la)), ptx la)
unfolding entry_of pde2page
entry_of-some d la m h = rw (pa2page-some (m.words d (pdx la)) m h) refl

pub get_pte-there :
    (ds h : List ℕ) (m : Memory) (d la : ℕ) (create : Bool)
    → IsPaged ds h m
    → mem d ds ≡ true
    → present (m.words d (pdx la)) ≡ true
    → get_pte d la create m ≡ some (some (page_of (m.words d (pdx la)), ptx la), m)
unfolding get_pte
get_pte-there ds h m d la create v here y =
    rw (get_pte, y, entry_of-some d la m (table_inside ds h m d (pdx la) v here (omega arith) y))
      refl

pub get_pte-absent :
    (m : Memory) (d la : ℕ)
    → present (m.words d (pdx la)) ≡ false
    → get_pte d la false m ≡ some (none, m)
unfolding get_pte
get_pte-absent m d la n = rw (get_pte, n) refl

-- What `get_pte` leaves, with `t` the table of the address.
pub record IsWalked (ds h : List ℕ) (d la t : ℕ) (m m' : Memory) : Type 0 where
  pub paged : IsPaged ds h m'
  pub table : IsTable m'.words ds d (pdx la) t
  pub same : (b k j : ℕ) → mem b ds ≡ true → k < 1024 → pte_at m'.words b k j ≡ pte_at m.words b k j
  pub mappable : (q : ℕ) → IsMappable ds m q → IsMappable ds m' q
  pub refs : (q : ℕ) → IsMappable ds m q → page_ref q m' ≡ page_ref q m
  pub contents : (q : ℕ) → IsMappable ds m q → IsKept q m.words m'.words
  pub total :
      buddy_nr_free_pages m'.phys + one_if (not (present (m.words d (pdx la))))
      ≡ buddy_nr_free_pages m.phys

pub there-IsWalked :
    (ds h : List ℕ) (m : Memory) (d la : ℕ)
    → IsPaged ds h m
    → mem d ds ≡ true
    → present (m.words d (pdx la)) ≡ true
    → IsWalked ds h d la (page_of (m.words d (pdx la))) m m
there-IsWalked ds h m d la v here y = record {
  paged = v;
  table = pde-IsTable ds h m d (pdx la) v here (omega arith) y;
  same = λ b k j _ _. refl;
  mappable = λ q u. u;
  refs = λ q u. refl;
  contents = λ q u j. refl;
  total = rw y (omega arith);
}
