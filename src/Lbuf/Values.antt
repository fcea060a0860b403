-- ===== src/Lbuf/Values.antt =====
-- lbuf.c: numbers of 1, 2 or 4 bytes in a buffer.
pub mod RoundTrip
pub mod Outside
use chdkptp_jet_tx1_jet_nano.Common.{
  ℕ, zero, suc, ◌+◌, ◌-◌, ◌*◌, ◌/◌, ◌%◌, ◌^◌, Option, none, some, Bool, List, [], ◌∷◌, ◌||◌, ◌==◌,
  ltb, leb, if◌then◌else◌, u32, length, Memory, load, store,
}
use chdkptp_jet_tx1_jet_nano.Common
use chdkptp_jet_tx1_jet_nano.Common.Int.{ℤ, pos, negsuc, signed32, to_u32, ltb_ℤ, pos_part}
use chdkptp_jet_tx1_jet_nano.Common.Results.{Result, ok, ◌>>=◌, ◌>>◌, raise_if, access}

-- `memcpy(&v,p,sizeof(v))` for a little endian host: the number in `size` bytes.
unfoldable pub load_le : Memory → ℕ → ℕ → Option ℕ
load_le m p zero = some 0
load_le m p (suc size) =
    Common.◌>>=◌ (load m p) λ b. Common.◌>>=◌ (load_le m (p + 1) size) λ v. some (b + 256 * v)

unfoldable pub store_le : Memory → ℕ → ℕ → ℕ → Option Memory
store_le m p zero v = some m
store_le m p (suc size) v =
    Common.◌>>=◌ (store m p (v % 256)) λ m1. store_le m1 (p + 1) size (v / 256)

-- The number that a pattern of `bits` bits stands for: `get_vals_int32` and the like.
unfoldable pub signed : ℕ → ℕ → ℤ
signed bits v = if ltb v (2 ^ (bits - 1)) then pos v else negsuc (2 ^ bits - v - 1)

-- `for(i=0, p=...;i<count;i++, p+=size)`, with `n` rounds left.
unfoldable pub get_loop : Memory → ℕ → ℕ → ℕ → Option (List ℕ)
unfolding load_le
get_loop buf size zero p = some []
get_loop buf size (suc n) p =
    Common.◌>>=◌ (load_le buf p size)
      λ v. Common.◌>>=◌ (get_loop buf size n (p + size)) λ vs. some (v ∷ vs)

-- `off > buf->len - size` is a comparison of 32-bit numbers.
unfoldable pub past_last : Memory → ℕ → ℤ → Bool
past_last buf size off = ltb (u32 (buf.size + 2 ^ 32 - size)) (to_u32 off)

unfoldable pub values_that_fit : Memory → ℕ → ℤ → ℤ
values_that_fit buf size off = signed32 (u32 (buf.size + 2 ^ 32 - to_u32 off) / size)

unfoldable pub get_count : Memory → ℕ → ℤ → ℤ → ℤ
unfolding values_that_fit
get_count buf size off count =
    if ltb_ℤ count (pos 0) || ltb buf.size (u32 (to_u32 off + to_u32 count * size))
    then values_that_fit buf size off
    else count

-- The patterns of the numbers; `checkstack` is Lua's.
unfoldable pub get_vals : (checkstack : ℤ → Bool) → ℕ → Memory → ℤ → ℤ → Result (List ℕ)
unfolding past_last get_count get_loop
get_vals checkstack size buf off count = do
  raise_if (ltb_ℤ off (pos 0)) "negative offset not allowed"
  if past_last buf size off then ok [] else do
    raise_if (Common.not (checkstack (get_count buf size off count))) "insufficient stack space"
    access (get_loop buf size (pos_part (get_count buf size off count)) (pos_part off))

unfoldable pub set_loop : Memory → ℕ → ℕ → ℕ → List ℕ → Option Memory
unfolding store_le
set_loop buf size zero p vs = some buf
set_loop buf size (suc n) p [] = some buf
set_loop buf size (suc n) p (v ∷ vs) =
    Common.◌>>=◌ (store_le buf p size v) λ buf1. set_loop buf1 size n (p + size) vs

unfoldable pub set_count : Memory → ℕ → ℤ → ℕ → ℤ
unfolding values_that_fit
set_count buf size off count =
    if ltb (u32 (buf.size + 2 ^ 32 - to_u32 off)) (u32 (count * size))
    then values_that_fit buf size off
    else signed32 (u32 count)

-- The values are the patterns that the conversions of the numbers give. The result has the number
-- of values that were set.
unfoldable pub set_vals : (readonly : Bool) → ℕ → Memory → ℤ → List ℕ → Result (Memory × ℤ)
unfolding past_last set_count set_loop
set_vals readonly size buf off vals = do
  raise_if readonly "attempt to set readonly lbuf"
  raise_if (ltb_ℤ off (pos 0)) "negative offset not allowed"
  if past_last buf size off then ok (buf, pos 0) else do
    out ←
        access
          (set_loop buf size (pos_part (set_count buf size off (length vals))) (pos_part off) vals)
    ok (out, set_count buf size off (length vals))
