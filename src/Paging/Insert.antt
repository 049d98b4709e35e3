-- ===== src/Paging/Insert.antt =====
-- `page_insert` and `pgdir_alloc_page`: an address gets a page.
use mips.Base.{
  ℕ, ◌+◌, ◌^◌, ◌<◌, ◌==◌, ◌≡◌, refl, ap, true, false, List, [], mem, count, ◌&&◌, one_if,
  if◌then◌else◌, arith, inl, inr, ◌⊎◌, sym, ◌∙◌, fun_ext, Option, none, some,
}
use mips.Buddy.Blocks.{covers}
use mips.Paging.{
  Memory, Ptr, present, page_ref, page_ref_inc, store, get_pte, page_insert, replace_pte, pdx, ptx,
  e_no_mem,
}
use mips.Paging.Entry.{entry, page_of-entry, present-entry}
use mips.Paging.Uses.{leaf_uses, IsKept}
use mips.Paging.Valid.{IsPaged, IsPaged-write}
use mips.Paging.Hold.{IsMappable}
use mips.Paging.Table.{pte_at}
use mips.Paging.Walk.{IsWalked}
use mips.Paging.Grow.{IsFound, get_pte-IsFound}
use mips.Paging.Remove.{IsWritten, put-IsWritten, pte_at-table}
use mips.Paging.Replace.{IsReplaced, replace_pte-IsReplaced}

-- `page` stands at the address in `m'`, with the permissions.
pub record IsMapped (ds : List ℕ) (d page la perm : ℕ) (m m' : Memory) : Type 0 where
  pub paged : IsPaged ds [] m'
  pub entries : IsWritten ds d (pdx la) (ptx la) (entry page perm) m.words m'.words
  pub refs :
      (q : ℕ)
      → IsMappable ds m q
      → page_ref q m' + leaf_uses (pte_at m.words d (pdx la) (ptx la)) q
        ≡ page_ref q m + one_if (q == page)
  pub freed :
      (q : ℕ)
      → IsMappable ds m q
      → covers m'.phys q
        ≡ (if page_ref q m' == 0 then leaf_uses (pte_at m.words d (pdx la) (ptx la)) q else 0)
  pub contents : (q : ℕ) → IsMappable ds m q → IsKept q m.words m'.words

-- What `page_insert` gives.
abbrev pub IsInserted : (ds : List ℕ) (d page la perm : ℕ) → Memory → ℕ × Memory → Type 0
IsInserted ds d page la perm m (code, m') =
    ((code ≡ 0) × IsMapped ds d page la perm m m')
    ⊎ ((code ≡ e_no_mem)
        × (m' ≡ m)
        × (present (m.words d (pdx la)) ≡ false)
        × ((q : ℕ) → covers m.phys q ≡ 0))

insert_run-full :
    (m m1 : Memory) (d page la perm : ℕ)
    → get_pte d la true m ≡ some (none, m1)
    → page_insert d page la perm m ≡ some (e_no_mem, m1)
unfolding page_insert
insert_run-full m m1 d page la perm e = rw (page_insert, e) refl

insert_run-some :
    (m m1 m2 : Memory) (d page la perm t j : ℕ)
    → get_pte d la true m ≡ some (some (t, j), m1)
    → replace_pte (t, j) page (page_ref_inc page m1) ≡ some m2
    → page_insert d page la perm m ≡ some (0, store (t, j) (entry page perm) m2)
unfolding page_insert
insert_run-some m m1 m2 d page la perm t j e run = rw (page_insert, e, run) refl

store-IsMapped :
    (ds : List ℕ) (d page la perm t : ℕ) (m m1 m2 : Memory)
    → page < 2 ^ 19
    → perm < 4096
    → mem d ds ≡ true
    → IsWalked ds [] d la t m m1
    → IsReplaced ds d (pdx la) t (ptx la) page (entry page perm) m1 m2
    → IsMapped ds d page la perm m (store (t, ptx la) (entry page perm) m2)
unfolding count
store-IsMapped ds d page la perm t m m1 m2 h l here w r =
    let v = entry page perm in
    let old : pte_at m.words d (pdx la) (ptx la) ≡ m1.words t (ptx la) =
      sym (w.same d (pdx la) (ptx la) here (omega arith))
      ∙ pte_at-table m1.words ds d (pdx la) t (ptx la) w.table in
    record {
      paged =
          IsPaged-write ds r.held [] m2 d (pdx la) t (ptx la) v r.paged here r.table (omega arith)
            (λ q. omega (arith, r.balance q));
      entries = λ b k n mb lk.
          ap (λ x. pte_at x b k n) (fun_ext (λ q. fun_ext (λ i. r.words q i)))
          ∙ put-IsWritten ds m1.words d (pdx la) t (ptx la) v w.table b k n mb lk
          ∙ ap (λ x. if b == d && (k == pdx la && n == ptx la) then v else x) (w.same b k n mb lk);
      refs = λ q u. rw old (omega (arith, r.refs q, w.refs q u));
      freed = λ q u. rw old (r.freed q ∙ rw ((w.mappable q u).taken) (omega arith));
      contents = λ q u n. r.words q n ∙ rw (apart q (w.mappable q u)) (w.contents q u n);
    }
  where
    apart : (q : ℕ) → IsMappable ds m1 q → (q == t) ≡ false
    apart q u = ground (arith, u.no_table d (pdx la) here (omega arith) w.table.there, w.table.at)

-- With every reference counted, and a page that is in use and neither a directory nor a page table,
-- `page_insert` returns for every address and permissions below 4096. Either it gives 0: the entry
-- of the address is that of the page with the permissions, the entries of all other addresses of all
-- directories are as before, the page has one reference more, the page that stood there has one less
-- (none changes when they are the same), that page is free afterwards if it has no reference left, no other page in use
-- becomes free, and no such page changes its contents. Or it gives the number of E_NO_MEM and changes
-- nothing, and then the page table was missing and no page was free.
pub page_insert-IsInserted :
    (ds : List ℕ) (m : Memory) (d page la perm : ℕ)
    → IsPaged ds [] m
    → mem d ds ≡ true
    → IsMappable ds m page
    → perm < 4096
    → (r : ℕ × Memory) × (page_insert d page la perm m ≡ some r) × IsInserted ds d page la perm m r
page_insert-IsInserted ds m d page la perm v here u l =
    let (r, run, f) = get_pte-IsFound ds [] m d la v here (omega arith) in answer r run f
  where
    small : page < 2 ^ 19
    small = omega (arith, u.usable.inside, v.small)

    answer :
        (r : Option Ptr × Memory)
        → get_pte d la true m ≡ some r
        → IsFound ds [] d la m r
        → (r : ℕ × Memory) × (page_insert d page la perm m ≡ some r)
          × IsInserted ds d page la perm m r
    answer (none, m1) run f =
        ((e_no_mem, m1), insert_run-full m m1 d page la perm run, inr (refl, f.0, f.1, f.2))
    answer (some (t, j), m1) run (at, w) =
        let (m2, run2, r) =
          replace_pte-IsReplaced ds d (pdx la) t (ptx la) page (entry page perm) m1 w.paged here
            w.table (omega arith) (w.mappable page u) (present-entry page perm small l)
            (page_of-entry page perm small l) in
        (
          (0, store (t, ptx la) (entry page perm) m2),
          insert_run-some m m1 m2 d page la perm t (ptx la)
              (run ∙ ap (λ i. some (some (t, i), m1)) at) run2,
          inl (refl, store-IsMapped ds d page la perm t m m1 m2 small l here w r),
        )
