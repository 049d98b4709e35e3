-- ===== src/Buddy/Count.antt =====
-- The number of free pages.
use mips.Base.{ℕ, zero, suc, ◌+◌, ◌-◌, ◌*◌, ◌^◌, ◌<◌, ◌≡◌, ◌==◌, refl, ap, false, arith, ==_refl}
use mips.Buddy.{Buddy, add_block, unlink_block, clear_property, nr_free_below, buddy_nr_free_pages}
use mips.Buddy.Sums.{sum_below, sum_below-change}
use mips.Buddy.Blocks.{remove_block}

nr_free_below-sum :
    (n : ℕ) (s : Buddy) → nr_free_below n s ≡ sum_below n (λ k. (s.free_area k).nr_free * 2 ^ k)
unfolding nr_free_below sum_below
nr_free_below-sum zero s = refl
nr_free_below-sum (suc n) s = omega (arith, nr_free_below-sum n s)

-- A change of one count.
total-change :
    (k : ℕ) (s s' : Buddy)
    → k < 11
    → ((j : ℕ) → (j == k) ≡ false → (s'.free_area j).nr_free ≡ (s.free_area j).nr_free)
    → buddy_nr_free_pages s' + (s.free_area k).nr_free * 2 ^ k
      ≡ buddy_nr_free_pages s + (s'.free_area k).nr_free * 2 ^ k
unfolding buddy_nr_free_pages
total-change k s s' h e = omega (
  arith,
  nr_free_below-sum 11 s,
  nr_free_below-sum 11 s',
  sum_below-change 11 k (λ j. (s.free_area j).nr_free * 2 ^ j)
      (λ j. (s'.free_area j).nr_free * 2 ^ j) h (λ j l d. rw (e j d) refl),
)

suc_times : (a b : ℕ) → (a + 1) * b ≡ a * b + b
suc_times a b = grind arith

pred_times : (a b : ℕ) → 0 < a → (a - 1) * b + b ≡ a * b
pred_times zero b h = absurd (omega arith)
pred_times (suc a) b h = grind arith

pub nr_free_pages-add_block :
    (k p : ℕ) (s : Buddy)
    → k < 11
    → buddy_nr_free_pages (add_block k p s) ≡ buddy_nr_free_pages s + 2 ^ k
unfolding add_block
nr_free_pages-add_block k p s h =
    let change = total-change k s (add_block k p s) h (λ j e. rw e refl) in
    let one : ((add_block k p s).free_area k).nr_free ≡ (s.free_area k).nr_free + 1 =
      rw (==_refl k) refl in
    omega (arith, change, ap (λ n. n * 2 ^ k) one, suc_times (s.free_area k).nr_free (2 ^ k))

pub nr_free_pages-remove_block :
    (k p : ℕ) (s : Buddy)
    → k < 11
    → 0 < (s.free_area k).nr_free
    → buddy_nr_free_pages (remove_block k p s) + 2 ^ k ≡ buddy_nr_free_pages s
unfolding unlink_block clear_property
nr_free_pages-remove_block k p s h c =
    let change = total-change k s (remove_block k p s) h (λ j e. rw e refl) in
    let one : ((remove_block k p s).free_area k).nr_free ≡ (s.free_area k).nr_free - 1 =
      rw (==_refl k) refl in
    omega (arith, change, ap (λ n. n * 2 ^ k) one, pred_times (s.free_area k).nr_free (2 ^ k) c)
