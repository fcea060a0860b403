-- ===== src/Lbuf.antt =====
-- lbuf.c: a byte buffer that Lua holds.
mod Tests
pub mod Parts
pub mod Reverse
pub mod Values
pub mod Fill
use chdkptp_jet_tx1_jet_nano.Common.{
  ℕ, zero, suc, ◌+◌, ◌-◌, ◌*◌, ◌/◌, ◌%◌, ◌^◌, Option, none, some, List, [], ◌||◌, ◌==◌, ltb, leb,
  if◌then◌else◌, u32, slice, Memory, load, store, ◌>>=◌,
}
use chdkptp_jet_tx1_jet_nano.Common.Results
use chdkptp_jet_tx1_jet_nano.Common.Results.{Result, ok, expect}

-- An optional index: `from_end k` is the negative number -k.
pub data Index : Type 0 where
  absent : Index
  index : ℕ → Index
  from_end : ℕ → Index

-- The sum is 32 bits wide and then taken for an `int`.
unfoldable pub get_index_arg : Memory → Index → ℕ → ℕ
get_index_arg buf absent default = default
get_index_arg buf (index n) default = n
get_index_arg buf (from_end k) default =
    let val = u32 (buf.size + (2 ^ 32 - k) + 1) in if leb (2 ^ 31) val then 0 else val

-- The bytes from `start` to `end`, as `lbuf_string` copies them: first the tests and
-- the clamping, then the offset.
unfoldable pub part : Memory → ℕ → ℕ → List ℕ
part buf start end =
    let last = if ltb buf.size end then buf.size else end in
    let first = if ltb 0 start then start - 1 else start in
    if (buf.size == 0) || ltb last start then [] else slice buf.cell first (last - first)

unfoldable pub lbuf_string : Memory → Index → Index → List ℕ
unfolding get_index_arg part
lbuf_string buf i j = part buf (get_index_arg buf i 1) (get_index_arg buf j buf.size)

-- The bytes of a new buffer of that size; `malloc` is the C library's, `none` its null pointer.
unfoldable pub lbuf_sub : (malloc : ℕ → Option Memory) → Memory → Index → Index → Result (List ℕ)
unfolding get_index_arg
lbuf_sub malloc buf i j =
    let start = get_index_arg buf i 1 in
    let end = get_index_arg buf j buf.size in
    let last = if ltb buf.size end then buf.size else end in
    let first = if ltb 0 start then start - 1 else start in
    if (buf.size == 0) || ltb last start
    then ok []
    else Results.◌>>=◌ (expect (malloc (last - first)) "malloc failed")
        λ block. ok (slice buf.cell first (last - first))

-- The last index defaults to the first one; an empty result is Lua's `nil`.
unfoldable pub lbuf_byte : Memory → Index → Index → List ℕ
unfolding get_index_arg part
lbuf_byte buf i j = part buf (get_index_arg buf i 1) (get_index_arg buf j (get_index_arg buf i 1))

-- `i+=2`, which overflows an `int` from 2 ^ 31 on.
unfoldable pub next_pair : ℕ → Option ℕ
next_pair i = if ltb (i + 2) (2 ^ 31) then some (i + 2) else none

-- The loop of `lbuf_reverse_bytes` at `i` with `n` rounds left; `none` is an access outside the
-- buffer, or an overflow.
unfoldable pub reverse_from : ℕ → ℕ → Memory → Option Memory
unfolding next_pair
reverse_from zero i buf = some buf
reverse_from (suc n) i buf = do
  t ← load buf (i + 1)
  b ← load buf i
  buf1 ← store buf (i + 1) b
  buf2 ← store buf1 i t
  i2 ← next_pair i
  reverse_from n i2 buf2

-- `i<buf->len-1` is a comparison of 32-bit numbers.
unfoldable pub lbuf_reverse_bytes : Memory → Option Memory
lbuf_reverse_bytes buf = reverse_from ((u32 (buf.size + (2 ^ 32 - 1)) + 1) / 2) 0 buf
