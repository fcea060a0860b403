-- ===== src/Lbuf/Fill.antt =====
-- lbuf.c: making buffers, and filling one with a pattern.
pub mod Pattern
use Prim.Native.String.{String}
use chdkptp_jet_tx1_jet_nano.Common.{
  ℕ, zero, suc, ◌+◌, ◌-◌, ◌*◌, ◌/◌, ◌%◌, ◌^◌, Option, none, some, Bool, true, false, List, [], ◌∷◌,
  ◌||◌, ◌==◌, ltb, leb, if◌then◌else◌, u32, length, get_or, Memory, load, store,
}
use chdkptp_jet_tx1_jet_nano.Common
use chdkptp_jet_tx1_jet_nano.Common.Results.{Result, ok, err, ◌>>=◌, ◌>>◌, raise_if, access, expect}

-- `lBuf_t`: the bytes, of which a null pointer has none, and whether they are freed with the buffer.
pub record Lbuf : Type 0 where
  pub bytes : Option Memory
  pub len : ℕ
  pub owned : Bool

unfoldable pub lbuf_create : Option Memory → ℕ → Bool → Lbuf
lbuf_create bytes len owned = record { bytes = bytes; len = len; owned = owned }

unfoldable pub lbuf_len : Lbuf → ℕ
lbuf_len buf = buf.len

unfoldable pub lbuf_gc : Lbuf → Lbuf
lbuf_gc buf = if buf.owned then record buf { bytes = none; len = 0 } else buf

-- The argument of `lbuf.new`.
pub data Source : Type 0 where
  text : List ℕ → Source
  size : ℕ → Source
  neither : Source

abbrev pub contents : Source → ℕ → ℕ
contents (text s) i = get_or s i 0
contents (size n) i = 0
contents neither i = 0

abbrev pub source_len : Source → Result ℕ
source_len (text s) = ok (length s)
source_len (size n) = ok n
source_len neither = err "invalid argument"

module _ (malloc : ℕ → Option Memory) where
  -- The block of a new buffer; `len` is cut to an `unsigned` in the buffer, not in the block.
  new_block : Source → ℕ → Result Lbuf
  unfolding lbuf_create
  new_block source len = do
    block ← expect (malloc len) "malloc failed"
    ok (lbuf_create (some (record { size = block.size; cell = contents source })) (u32 len) true)

  unfoldable pub lbuf_new : Source → Result Lbuf
  unfolding new_block lbuf_create
  lbuf_new source = do
    len ← source_len source
    if len == 0 then ok (lbuf_create none 0 false) else new_block source len

-- `memcpy(p,fill_val,n)` from index `i` of the pattern on, with `n` bytes left.
unfoldable pub copy_bytes : (ℕ → ℕ) → ℕ → ℕ → ℕ → Memory → Option Memory
copy_bytes val zero i p m = some m
copy_bytes val (suc n) i p m =
    Common.◌>>=◌ (store m p (val i)) λ m1. copy_bytes val n (i + 1) (p + 1) m1

-- `for(i=0;i<count;i++,p+=fill_len) memcpy(p,fill_val,fill_len)`, with `count` rounds left, and then the rest.
unfoldable pub copies : (ℕ → ℕ) → (fill_len rest : ℕ) → (count p : ℕ) → Memory → Option Memory
unfolding copy_bytes
copies val fill_len rest zero p m = copy_bytes val rest 0 p m
copies val fill_len rest (suc count) p m =
    Common.◌>>=◌ (copy_bytes val fill_len 0 p m)
      λ m1. copies val fill_len rest count (p + fill_len) m1

-- The bytes to fill: `count * fill_len` is cut to 32 bits, and clamped to the end of the buffer.
unfoldable pub fill_bytes_of : (len offset count fill_len : ℕ) → ℕ
fill_bytes_of len offset count fill_len =
    if ltb (len - offset) (u32 (count * fill_len)) then len - offset else u32 (count * fill_len)

abbrev pub given_or : Option ℕ → ℕ → ℕ
given_or none default = default
given_or (some n) default = n

-- Less than a full repetition is clamped.
unfoldable pub fill_with : Memory → Memory → (offset fill_bytes : ℕ) → Option (Memory × ℕ)
unfolding copies
fill_with buf pattern_block offset fill_bytes =
    let fill_len = if ltb fill_bytes pattern_block.size then fill_bytes else pattern_block.size in
    if fill_bytes == 0
    then some (buf, 0)
    else Common.◌>>=◌
        (copies pattern_block.cell fill_len (fill_bytes % fill_len) (fill_bytes / fill_len) offset
          buf)
        λ out. some (out, fill_bytes)

-- The pattern is not in the buffer itself; `memset` is the copying of one byte. The count is the
-- given one or as many as surely fill the buffer.
unfoldable pub lbuf_fill : Memory → Memory → ℕ → Option ℕ → Option (Memory × ℕ)
unfolding fill_bytes_of fill_with
lbuf_fill buf pattern_block offset count =
    if (pattern_block.size == 0) || leb buf.size offset
    then some (buf, 0)
    else fill_with buf pattern_block offset (
        fill_bytes_of buf.size offset (given_or count (u32 (buf.size / pattern_block.size + 1)))
          pattern_block.size)
