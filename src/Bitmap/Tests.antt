-- ===== src/Bitmap/Tests.antt =====
-- Bitmaps of 40 and of 2 indices, and the theorems at them.
use mips.Base.{ℕ, ◌==◌, ◌≡◌, Option, some}
use mips.Bitmap.{Bitmap, bitmap_alloc}
use mips.Bitmap.Alloc.{IsAllocated, bitmap_alloc-IsAllocated}

-- Index 0 is in use, index 1 is free.
abbrev two : Bitmap
two = record { nbits = 2; nwords = 1; map = λ i o. o == 1 }

bitmap_alloc-IsAllocated_example :
    (r : Option ℕ × Bitmap) × (bitmap_alloc two ≡ some r) × IsAllocated two r
bitmap_alloc-IsAllocated_example = bitmap_alloc-IsAllocated two
