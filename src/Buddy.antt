-- ===== src/Buddy.antt =====
-- The buddy allocator: kern/mm/buddy_pmm.c. A page is its index in `pages` (page2ppn), so that a
-- pointer to a page and its page number are one. A free list is a list of pages, the first one behind
-- the head of the list first.
pub mod Bits
pub mod Sums
pub mod Blocks
pub mod Frame
pub mod Count
pub mod Alloc
pub mod Pair
pub mod Merge
pub mod Free
pub mod Range
pub mod Release
pub mod Order
pub mod Grant
pub mod Request
pub mod Fill
pub mod Zone
pub mod Single
pub mod Refs
mod Tests
use mips.Base.{
  ℕ, zero, suc, ◌+◌, ◌-◌, ◌*◌, ◌/◌, ◌%◌, ◌^◌, ◌==◌, Bool, true, false, Option, none, some, List, [],
  ◌∷◌, length, erase, ltb, leb, if◌then◌else◌, ◌&&◌, ◌||◌, not, ◌>>=◌, ◌>>◌, assert, bit_and,
  bit_xor,
}

-- MAX_ORDER
abbrev pub max_order : ℕ
max_order = 10

-- MAX_ZONE_NUM
abbrev pub max_zone_num : ℕ
max_zone_num = 10

-- `flags` as PG_reserved, PG_property and the others; the links of a page are its place in a list.
pub record Page : Type 0 where
  pub ref : ℕ
  pub reserved : Bool
  pub has_property : Bool
  pub other_flags : ℕ
  pub property : ℕ
  pub zone_num : ℕ

pub record FreeArea : Type 0 where
  pub free_list : List ℕ
  pub nr_free : ℕ

-- `next_zone` is the static variable of `buddy_init_memmap`.
pub record Buddy : Type 0 where
  pub pages : ℕ → Page
  pub free_area : ℕ → FreeArea
  pub mem_base : ℕ → ℕ
  pub next_zone : ℕ
  pub npage : ℕ

abbrev pub put_page : ℕ → Page → Buddy → Buddy
put_page p page s = record s { pages = λ q. if q == p then page else s.pages q }

abbrev pub put_area : ℕ → FreeArea → Buddy → Buddy
put_area k area s = record s { free_area = λ j. if j == k then area else s.free_area j }

-- `buddy_init`
pub buddy_init : Buddy → Buddy
buddy_init s = record s {
  free_area =
      λ k. if leb k max_order then record { free_list = []; nr_free = 0 } else s.free_area k;
}

-- A block becomes free: `property`, PG_property, the list and its count.
unfoldable pub add_block : (order page : ℕ) → Buddy → Buddy
add_block order page s =
    put_area order
      (record {
        free_list = page ∷ (s.free_area order).free_list;
        nr_free = (s.free_area order).nr_free + 1;
      })
      (put_page page (record (s.pages page) { property = order; has_property = true }) s)

-- `nr_free(order) --` and `list_del`
unfoldable pub unlink_block : (order page : ℕ) → Buddy → Buddy
unlink_block order page s =
    put_area order
      (record {
        free_list = erase page (s.free_area order).free_list;
        nr_free = (s.free_area order).nr_free - 1;
      })
      s

-- ClearPageProperty
unfoldable pub clear_property : ℕ → Buddy → Buddy
clear_property p s = put_page p (record (s.pages p) { has_property = false }) s

-- `getorder`; `none` is its panic.
unfoldable pub order_from : (left order n : ℕ) → Option ℕ
order_from zero order n = none
order_from (suc left) order n = elim (leb n (2 ^ order)) [
  | true ↦ some order
  | false ↦ order_from left (order + 1) n
]

unfoldable pub getorder : ℕ → Option ℕ
unfolding order_from
getorder n = order_from (max_order + 1) 0 n

-- The inner loop of `buddy_alloc_pages_sub`: `more` halves go back to the lists.
unfoldable pub split : (more order page : ℕ) → Buddy → Buddy
unfolding add_block
split zero order page s = s
split (suc more) order page s =
    split more order page (add_block (order + more) (page + 2 ^ (order + more)) s)

-- The first block of a list, if there is one: `list_empty` and `list_next`.
unfoldable pub first_block : List ℕ → Option ℕ
first_block [] = none
first_block (p ∷ l) = some p

-- Its outer loop, `left` orders from `cur_order` on.
unfoldable pub alloc_from : (left cur_order order : ℕ) → Buddy → Option ℕ × Buddy
unfolding unlink_block clear_property split first_block
alloc_from zero cur_order order s = (none, s)
alloc_from (suc left) cur_order order s = elim (first_block (s.free_area cur_order).free_list) [
  | none ↦ alloc_from left (cur_order + 1) order s
  | some page ↦ (
    some page,
    clear_property page (split (cur_order - order) order page (unlink_block cur_order page s)),
  )
]

unfoldable pub buddy_alloc_pages_sub : ℕ → Buddy → Option (Option ℕ × Buddy)
unfolding alloc_from
buddy_alloc_pages_sub order s = do
  assert (leb order max_order)
  some (alloc_from (max_order + 1 - order) order order s)

-- `page_is_buddy`
unfoldable pub page_is_buddy : (page order zone_num : ℕ) → Buddy → Bool
page_is_buddy page order zone_num s =
    let p = s.pages page in
    ltb page s.npage
    && (p.zone_num == zone_num && (not p.reserved && (p.has_property && p.property == order)))

-- `page2idx` and `idx2page`
unfoldable pub page2idx : ℕ → Buddy → ℕ
page2idx page s = page - s.mem_base (s.pages page).zone_num

unfoldable pub idx2page : (zone_num idx : ℕ) → Buddy → ℕ
idx2page zone_num idx s = s.mem_base zone_num + idx

-- The loop over the `n` pages of a block that is freed.
unfoldable pub reset_pages : (n page : ℕ) → Buddy → Option Buddy
reset_pages zero page s = some s
reset_pages (suc n) page s = do
  assert (not (s.pages page).reserved && not (s.pages page).has_property)
  reset_pages n (page + 1) (
      put_page page
        (record (s.pages page) { ref = 0; reserved = false; has_property = false; other_flags = 0 })
        s)

-- The loop of `buddy_free_pages_sub` that merges buddies, `left` times at most; at its end the block
-- is added.
unfoldable pub merge : (left order zone_num page_idx : ℕ) → Buddy → Buddy
merge zero order zone_num page_idx s = add_block order (idx2page zone_num page_idx s) s
merge (suc left) order zone_num page_idx s =
    let buddy_idx = bit_xor page_idx (2 ^ order) in
    let buddy = idx2page zone_num buddy_idx s in
    elim (page_is_buddy buddy order zone_num s) [
      | false ↦ add_block order (idx2page zone_num page_idx s) s
      | true ↦
          merge left (suc order) zone_num (bit_and page_idx buddy_idx)
            (clear_property buddy (unlink_block order buddy s))
    ]

unfoldable pub buddy_free_pages_sub : (base order : ℕ) → Buddy → Option Buddy
buddy_free_pages_sub base order s = do
  let page_idx = page2idx base s
  assert (bit_and page_idx (2 ^ order - 1) == 0)
  s1 ← reset_pages (2 ^ order) base s
  some (merge (max_order - order) order (s1.pages base).zone_num page_idx s1)

-- The first loop of `buddy_free_pages`, `left` rounds at most: blocks of growing orders. It gives
-- the rest of the range and its order.
unfoldable pub free_up : (left base n order : ℕ) → Buddy → Option (ℕ × ℕ × ℕ × Buddy)
free_up zero base n order s = none
free_up (suc left) base n order s = elim (leb (2 ^ order) n) [
  | false ↦ some (base, n, order, s)
  | true ↦ (do
    assert (leb order max_order)
    elim (bit_and (page2idx base s) (2 ^ order) == 0) [
      | true ↦ free_up left base n (order + 1) s
      | false ↦ (do
        s1 ← buddy_free_pages_sub base order s
        free_up left (base + 2 ^ order) (n - 2 ^ order) (order + 1) s1)
    ])
]

-- The innermost loop: down to an order that fits.
unfoldable pub fit_order : (order n : ℕ) → ℕ
fit_order zero n = zero
fit_order (suc order) n = if ltb n (2 ^ suc order) then fit_order order n else suc order

-- The second loop, on fuel: blocks of orders that do not grow.
unfoldable pub free_down : (fuel base n order : ℕ) → Buddy → Option Buddy
free_down zero base n order s = elim (n == 0) [ true ↦ some s | false ↦ none ]
free_down (suc fuel) base n order s = elim (n == 0) [
  | true ↦ some s
  | false ↦ (do
    s1 ← buddy_free_pages_sub base (fit_order order n) s
    free_down fuel (base + 2 ^ fit_order order n) (n - 2 ^ fit_order order n) (fit_order order n)
        s1)
]

-- `buddy_free_pages`; each round of the second loop frees one page at least.
unfoldable pub buddy_free_pages : (base n : ℕ) → Buddy → Option Buddy
buddy_free_pages base n s = do
  assert (ltb 0 n)
  elim (n == 1) [
    | true ↦ buddy_free_pages_sub base 0 s
    | false ↦ (do
      (base1, n1, order, s1) ← free_up (max_order + 2) base n 0 s
      free_down n1 base1 n1 order s1)
  ]

-- What `buddy_alloc_pages` does with the block: `exact` when the request is as large.
unfoldable pub give_rest : (exact : Bool) (n order page : ℕ) → Buddy → Option (Option ℕ × Buddy)
give_rest true n order page s = some (some page, s)
give_rest false n order page s = do
  s1 ← buddy_free_pages (page + n) (2 ^ order - n) s
  some (some page, s1)

-- `buddy_alloc_pages`
unfoldable pub buddy_alloc_pages : ℕ → Buddy → Option (Option ℕ × Buddy)
buddy_alloc_pages n s = do
  assert (ltb 0 n)
  order ← getorder n
  (got, s1) ← buddy_alloc_pages_sub order s
  elim got [ none ↦ some (none, s1) | some page ↦ give_rest (n == 2 ^ order) n order page s1 ]

-- The loop of `buddy_init_memmap` over the `n` pages of a new zone.
unfoldable pub claim_pages : (n page zone : ℕ) → Buddy → Option Buddy
claim_pages zero page zone s = some s
claim_pages (suc n) page zone s = do
  assert (s.pages page).reserved
  claim_pages n (page + 1) zone (
      put_page page
        (record {
          ref = 0;
          reserved = false;
          has_property = false;
          other_flags = 0;
          property = 0;
          zone_num = zone;
        })
        s)

-- Its loops over the blocks, on fuel: a block of the order, or an order less.
unfoldable pub add_blocks : (fuel page n order : ℕ) → Buddy → Option Buddy
add_blocks zero page n order s = none
add_blocks (suc fuel) page n order s = elim (n == 0) [
  | true ↦ some s
  | false ↦ elim (leb (2 ^ order) n) [
    | true ↦ add_blocks fuel (page + 2 ^ order) (n - 2 ^ order) order (add_block order page s)
    | false ↦ add_blocks fuel page n (order - 1) s
  ]
]

-- `buddy_init_memmap`; each round of the loops takes a page or an order.
unfoldable pub buddy_init_memmap : (base n : ℕ) → Buddy → Option Buddy
buddy_init_memmap base n s = do
  assert (ltb 0 n && ltb s.next_zone max_zone_num)
  s1 ← claim_pages n base s.next_zone s
  add_blocks (n + max_order + 1) base n max_order (record s1 {
    mem_base = λ z. if z == s.next_zone then base else s1.mem_base z;
    next_zone = s.next_zone + 1;
  })

-- `buddy_nr_free_pages`, the orders below `n`.
unfoldable pub nr_free_below : ℕ → Buddy → ℕ
nr_free_below zero s = 0
nr_free_below (suc order) s = nr_free_below order s + (s.free_area order).nr_free * 2 ^ order

unfoldable pub buddy_nr_free_pages : Buddy → ℕ
unfolding nr_free_below
buddy_nr_free_pages s = nr_free_below (max_order + 1) s
