-- ===== src/Iobuf/Move.antt =====
-- What a move through a buffer does to the memory and to the buffer.
use mips.Base.{
  ℕ, ◌+◌, ◌-◌, ◌%◌, ◌^◌, ◌<◌, ◌==◌, ◌≡◌, refl, Bool, true, some, ltb, leb, if◌then◌else◌, arith,
  min, Bool-cases, inl, inr,
}
use mips.Str.{Memory, memmove}
use mips.Str.Move.{in_block, memmove-block}
use mips.Iobuf.{Iobuf, e_no_mem, iobuf_skip, Moved, amount, iobuf_move}

-- The buffer moved on by `n` bytes of `len`: as many as there is room for, and 0 is returned exactly
-- if these are all.
pub record IsAdvanced (len : ℕ) (iob : Iobuf) (r : Moved) : Type 0 where
  pub copied : r.copied ≡ min len iob.io_resid
  pub base : r.iobuf.io_base ≡ iob.io_base + r.copied
  pub resid : r.iobuf.io_resid + r.copied ≡ iob.io_resid
  pub len_same : r.iobuf.io_len ≡ iob.io_len
  pub offset : r.iobuf.io_offset ≡ (iob.io_offset + r.copied) % 2 ^ 32
  pub code : r.code ≡ (if leb len iob.io_resid then 0 else e_no_mem)

-- `iobuf_move` with a 32-bit offset always returns. It moves as many bytes as are asked for and as
-- the buffer has room for, between the buffer and `buf`, in the direction of `m2b`, whether or not
-- they overlap, changes no other byte, moves the buffer on by as many, and returns 0 exactly if
-- these were all.
pub iobuf_move-IsAdvanced :
    (buf len : ℕ) (m2b : Bool) (iob : Iobuf) (m : Memory)
    → iob.io_offset < 2 ^ 32
    → (r : Moved) × (iobuf_move buf len m2b iob m ≡ some r)
      × IsAdvanced len iob r
      × ((a : ℕ)
          → r.memory a ≡ (
              let src = if m2b then buf else iob.io_base in
              let dst = if m2b then iob.io_base else buf in
              if in_block a dst r.copied then m (src + (a - dst)) else m a))
unfolding iobuf_move iobuf_skip
iobuf_move-IsAdvanced buf len m2b iob m h =
    let alen = amount len iob in
    let src = if m2b then buf else iob.io_base in
    let dst = if m2b then iob.io_base else buf in
    let fits : leb alen iob.io_resid ≡ true = ground arith in
    let iob' : Iobuf = record iob {
      io_base = iob.io_base + alen;
      io_offset = (iob.io_offset + alen) % 2 ^ 32;
      io_resid = iob.io_resid - alen;
    } in
    let out : Iobuf → Memory → Moved = λ i n. record {
      code = if len - alen == 0 then 0 else e_no_mem;
      copied = alen;
      iobuf = i;
      memory = n;
    } in
    elim (Bool-cases (ltb 0 alen)) [
      | inl e ↦ (
        out iob' (memmove m dst src alen),
        rw e (rw fits refl),
        record {
          copied = ground arith;
          base = refl;
          resid = ground arith;
          len_same = refl;
          offset = refl;
          code = ground arith;
        },
        λ a. memmove-block m dst src alen a,
      )
      | inr e ↦ (
        out iob m,
        rw e refl,
        record {
          copied = ground arith;
          base = ground arith;
          resid = ground arith;
          len_same = refl;
          offset = ground arith;
          code = ground arith;
        },
        λ a. ground arith,
      )
    ]
