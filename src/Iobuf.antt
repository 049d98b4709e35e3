-- ===== src/Iobuf.antt =====
-- The buffers of input and output: kern/fs/iobuf.c over the memory of Str. A buffer stands apart from
-- the bytes that it describes. A call that fails an assertion is `none`.
pub mod Move
use mips.Base.{
  ℕ, ◌+◌, ◌-◌, ◌%◌, ◌^◌, ◌==◌, Bool, Option, some, ltb, leb, if◌then◌else◌, ◌>>=◌, ◌>>◌, assert,
}
use mips.Str.{Memory, memmove, memset}

pub record Iobuf : Type 0 where
  pub io_base : ℕ
  pub io_offset : ℕ
  pub io_len : ℕ
  pub io_resid : ℕ

abbrev pub e_no_mem : ℕ
e_no_mem = 4

pub iobuf_init : (base len offset : ℕ) → Iobuf
iobuf_init base len offset = record {
  io_base = base;
  io_offset = offset;
  io_len = len;
  io_resid = len;
}

-- `iobuf_used`
pub iobuf_used : Iobuf → ℕ
iobuf_used iob = iob.io_len - iob.io_resid

pub iobuf_skip : ℕ → Iobuf → Option Iobuf
iobuf_skip n iob = do
  assert (leb n iob.io_resid)
  some (record iob {
    io_base = iob.io_base + n;
    io_offset = (iob.io_offset + n) % 2 ^ 32;
    io_resid = iob.io_resid - n;
  })

-- What a move gives: 0 or the number of an error, `*copiedp`, and what is in the buffer and memory.
pub record Moved : Type 0 where
  pub code : ℕ
  pub copied : ℕ
  pub iobuf : Iobuf
  pub memory : Memory

-- `alen`
abbrev pub amount : ℕ → Iobuf → ℕ
amount len iob = if ltb len iob.io_resid then len else iob.io_resid

abbrev outcome : (len alen : ℕ) → Iobuf → Memory → Moved
outcome len alen iob m = record {
  code = if len - alen == 0 then 0 else e_no_mem;
  copied = alen;
  iobuf = iob;
  memory = m;
}

-- `buf` is the parameter `data`.
pub iobuf_move : (buf len : ℕ) (m2b : Bool) → Iobuf → Memory → Option Moved
unfolding iobuf_skip
iobuf_move buf len m2b iob m =
    let alen = amount len iob in
    let src = if m2b then buf else iob.io_base in
    let dst = if m2b then iob.io_base else buf in
    if ltb 0 alen
    then (do iob' ← iobuf_skip alen iob; some (outcome len alen iob' (memmove m dst src alen)))
    else some (outcome len alen iob m)

pub iobuf_move_zeros : (len : ℕ) → Iobuf → Memory → Option Moved
unfolding iobuf_skip
iobuf_move_zeros len iob m =
    let alen = amount len iob in
    if ltb 0 alen
    then (do iob' ← iobuf_skip alen iob; some (outcome len alen iob' (memset m iob.io_base 0 alen)))
    else some (outcome len alen iob m)
