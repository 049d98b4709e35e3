-- ===== src/Paging/Valid.antt =====
-- The invariant of the page tables: the reference count of a page is the number of entries that name
-- it.
use mips.Base.{
  ℕ, ◌+◌, ◌^◌, ◌<◌, ◌≤◌, ◌==◌, ◌≡◌, refl, ap, true, false, List, length, mem, count, ◌&&◌, arith,
  inl, inr, Bool-cases, ==_refl, sym, ◌∙◌,
}
use mips.Buddy.{Buddy}
use mips.Buddy.Blocks.{covers, IsBuddy}
use mips.Buddy.Frame.{IsFramed}
use mips.Buddy.Sums.{le-sum_below}
use mips.Paging.{Memory, present, page_ref, store}
use mips.Paging.Entry.{page_of}
use mips.Paging.Grid.{le-grid, le-grid_two}
use mips.Paging.Uses.{
  Words, leaf_uses, table_uses, pde_uses, uses, IsTable, ne_of_mem, pde_uses-table, uses-put_leaf,
}

-- A page that can be given back to the allocator when it is not free.
pub record IsUsable (q : ℕ) (s : Buddy) : Type 0 where
  pub inside : q < s.npage
  pub clean : (s.pages q).reserved ≡ false
  pub above : s.mem_base (s.pages q).zone_num ≤ q

pub IsUsable-framed :
    (q : ℕ) (s s' : Buddy) → IsFramed s s' → s'.npage ≡ s.npage → IsUsable q s → IsUsable q s'
IsUsable-framed q s s' f e u = record {
  inside = rw e u.inside;
  clean = f.reserves q ∙ u.clean;
  above = rw (f.bases, f.zones q) u.above;
}

-- `held` are the pages that the code which runs holds a reference to.
pub record IsPaged (ds held : List ℕ) (m : Memory) : Type 0 where
  pub buddy : IsBuddy m.phys
  pub few : length ds < 2048
  pub small : m.phys.npage ≤ 2 ^ 19
  pub dirs :
      (d : ℕ) → mem d ds ≡ true → (count d ds ≡ 1) × (covers m.phys d ≡ 0) × (page_ref d m ≡ 0)
  pub counted : (q : ℕ) → page_ref q m ≡ uses m.words ds q + count q held
  pub alone :
      (d i : ℕ)
      → mem d ds ≡ true
      → i < 1024
      → present (m.words d i) ≡ true
      → page_ref (page_of (m.words d i)) m ≡ 1
  pub usable : (q : ℕ) → 0 < page_ref q m → IsUsable q m.phys
  pub quiet : (q : ℕ) → 0 < covers m.phys q → (page_ref q m ≡ 0) × (q < m.phys.npage)

leaf-le_table : (w : Words) (t j q : ℕ) → j < 1024 → leaf_uses (w t j) q ≤ table_uses w t q
unfolding table_uses
leaf-le_table w t j q h = le-sum_below 1024 j (λ k. leaf_uses (w t k) q) h

pde-le_uses :
    (w : Words) (ds : List ℕ) (d i q : ℕ)
    → mem d ds ≡ true
    → i < 1024
    → pde_uses w (w d i) q ≤ uses w ds q
unfolding uses
pde-le_uses w ds d i q m h = le-grid ds d i (λ b k. pde_uses w (w b k) q) m h

pub leaf-le_uses :
    (w : Words) (ds : List ℕ) (d i t j q : ℕ)
    → mem d ds ≡ true
    → IsTable w ds d i t
    → j < 1024
    → leaf_uses (w t j) q ≤ uses w ds q
leaf-le_uses w ds d i t j q here a l = omega (
  arith,
  leaf-le_table w t j q l,
  pde_uses-table w (w d i) t q a.there a.at,
  pde-le_uses w ds d i q here a.small,
)

two-le_uses :
    (w : Words) (ds : List ℕ) (d i b k q : ℕ)
    → count d ds ≡ 1
    → i < 1024
    → mem b ds ≡ true
    → k < 1024
    → (b == d && k == i) ≡ false
    → pde_uses w (w d i) q + pde_uses w (w b k) q ≤ uses w ds q
unfolding uses
two-le_uses w ds d i b k q c h m l n =
    le-grid_two ds d i b k (λ b k. pde_uses w (w b k) q) c h m l n

-- An entry of a directory is a use of its table.
pde_uses_pos : (w : Words) (pde t : ℕ) → present pde ≡ true → page_of pde ≡ t → 0 < pde_uses w pde t
unfolding pde_uses
pde_uses_pos w pde t p e = rw (p, e, ==_refl t) (omega arith)

-- A table has the reference of its directory.
pub table-uses_pos :
    (ds : List ℕ) (w : Words) (d i : ℕ)
    → mem d ds ≡ true
    → i < 1024
    → present (w d i) ≡ true
    → 0 < uses w ds (page_of (w d i))
table-uses_pos ds w d i here h p =
    let t = page_of (w d i) in
    omega (arith, pde-le_uses w ds d i t here h, pde_uses_pos w (w d i) t p refl)

pub pde-IsTable :
    (ds held : List ℕ) (m : Memory) (d i : ℕ)
    → IsPaged ds held m
    → mem d ds ≡ true
    → i < 1024
    → present (m.words d i) ≡ true
    → IsTable m.words ds d i (page_of (m.words d i))
pde-IsTable ds held m d i v here h p =
    let t = page_of (m.words d i) in
    let one = v.alone d i here h p in
    let total = v.counted t in
    record {
      once = (v.dirs d here).0;
      small = h;
      there = p;
      at = refl;
      only = λ b k mb l pb e. elim (Bool-cases (b == d && k == i)) [
        | inl same ↦ same
        | inr n ↦
            let two = two-le_uses m.words ds d i b k t (v.dirs d here).0 h mb l n in
            absurd (
              omega (
                arith,
                two,
                pde_uses_pos m.words (m.words d i) t p refl,
                pde_uses_pos m.words (m.words b k) t pb e,
                one,
                total,
              ))
      ];
      out = elim (Bool-cases (mem t ds)) [
        | inr n ↦ n
        | inl in_ds ↦ absurd (omega (arith, (v.dirs t in_ds).2, one))
      ];
    }

-- A word of a table is written: what the code held it now has in the table, and the other way round.
pub IsPaged-write :
    (ds h h' : List ℕ) (m : Memory) (d i t j v : ℕ)
    → IsPaged ds h m
    → mem d ds ≡ true
    → IsTable m.words ds d i t
    → j < 1024
    → ((q : ℕ) → leaf_uses v q + count q h' ≡ leaf_uses (m.words t j) q + count q h)
    → IsPaged ds h' (store (t, j) v m)
IsPaged-write ds h h' m d i t j v a here table l e = record {
  buddy = a.buddy;
  few = a.few;
  small = a.small;
  dirs = a.dirs;
  counted = λ q. omega (arith, a.counted q, uses-put_leaf m.words ds d i t j v q table l here, e q);
  alone = λ b k mb lk p.
      let keep : (store (t, j) v m).words b k ≡ m.words b k =
        rw (ne_of_mem b t ds mb table.out) refl in
      rw keep (a.alone b k mb lk (sym (ap present keep) ∙ p));
  usable = a.usable;
  quiet = a.quiet;
}
