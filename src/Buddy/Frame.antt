-- ===== src/Buddy/Frame.antt =====
-- What the changes of blocks leave as it was, and the places of the halves of a block.
use mips.Base.{ℕ, suc, ◌+◌, ◌*◌, ◌^◌, ◌≡◌, refl, arith, ◌∙◌}
use mips.Buddy.{Buddy, add_block, unlink_block, clear_property}
use mips.Buddy.Blocks.{
  in_block-halves, IsPlaced, remove_block, zone-add_block, zone-remove_block, reserved-add_block,
  reserved-remove_block,
}

-- Where the pages are, and which are reserved, as before.
pub record IsFramed (s s' : Buddy) : Type 0 where
  pub bases : s'.mem_base ≡ s.mem_base
  pub zones : (q : ℕ) → (s'.pages q).zone_num ≡ (s.pages q).zone_num
  pub reserves : (q : ℕ) → (s'.pages q).reserved ≡ (s.pages q).reserved

pub add_block-IsFramed : (k p : ℕ) (s : Buddy) → IsFramed s (add_block k p s)
unfolding add_block
add_block-IsFramed k p s = record {
  bases = refl;
  zones = λ q. zone-add_block k p q s;
  reserves = λ q. reserved-add_block k p q s;
}

pub remove_block-IsFramed : (k p : ℕ) (s : Buddy) → IsFramed s (remove_block k p s)
unfolding clear_property unlink_block
remove_block-IsFramed k p s = record {
  bases = refl;
  zones = λ q. zone-remove_block k p q s;
  reserves = λ q. reserved-remove_block k p q s;
}

pub IsFramed-trans : (s t u : Buddy) → IsFramed s t → IsFramed t u → IsFramed s u
IsFramed-trans s t u f g = record {
  bases = g.bases ∙ f.bases;
  zones = λ q. g.zones q ∙ f.zones q;
  reserves = λ q. g.reserves q ∙ f.reserves q;
}

lower_times : (m t : ℕ) → m * (t * 2) ≡ m * 2 * t
lower_times m t = grind arith

upper_times : (m t : ℕ) → m * (t * 2) + t ≡ (m * 2 + 1) * t
upper_times m t = grind arith

times_pow : (m k : ℕ) → m * 2 ^ suc k ≡ m * (2 ^ k * 2)
times_pow m k = grind arith

-- The halves of a block that is placed.
pub lower-IsPlaced : (k p : ℕ) (s : Buddy) → IsPlaced (suc k) p s → IsPlaced k p s
lower-IsPlaced k p s (z, m, at, zone) = (
  z,
  m * 2,
  omega (arith, at, times_pow m k, lower_times m (2 ^ k)),
  λ q i. zone q (omega (arith, in_block-halves k p q)),
)

pub upper-IsPlaced : (k p : ℕ) (s : Buddy) → IsPlaced (suc k) p s → IsPlaced k (p + 2 ^ k) s
upper-IsPlaced k p s (z, m, at, zone) = (
  z,
  m * 2 + 1,
  omega (arith, at, times_pow m k, upper_times m (2 ^ k)),
  λ q i. zone q (omega (arith, in_block-halves k p q)),
)
