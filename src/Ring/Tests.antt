-- ===== src/Ring/Tests.antt =====
-- A list of two entries behind its head, and the theorems at it.
use mips.Base.{◌==◌, refl, [], ◌∷◌, count, arith, if◌then◌else◌}
use mips.Ring.{Links, list_del}
use mips.Ring.Chain.{IsChain, IsDistinct}
use mips.Ring.Update.{IsRing, list_del-IsRing}

-- 10 is the head, 20 and 30 are behind it.
abbrev two_entries : Links
two_entries = record {
  next = λ p. if p == 10 then 20 else if p == 20 then 30 else 10;
  prev = λ p. if p == 10 then 30 else if p == 20 then 10 else 20;
}

two_entries-IsRing : IsRing two_entries 10 (20 ∷ 30 ∷ [])
unfolding IsChain IsDistinct count
two_entries-IsRing = record {
  chain = (refl, refl, (refl, refl, (refl, refl)));
  distinct = λ z. ground arith;
}

list_del-IsRing_example : IsRing (list_del 20 two_entries) 10 (30 ∷ [])
list_del-IsRing_example = list_del-IsRing two_entries 10 20 [] (30 ∷ []) two_entries-IsRing
