-- ===== src/Rawimg/Convert.antt =====
-- rawimg.c: `convert` makes a copy of an image in another format.
pub mod Laws
pub mod Copy
use chdkptp_jet_tx1_jet_nano.Common.{
  ℕ, zero, suc, ◌+◌, ◌-◌, ◌*◌, ◌/◌, ◌%◌, ◌^◌, Option, none, some, Bool, not, ◌&&◌, ◌==◌, ltb,
  if◌then◌else◌, u32, ◌<<◌, ◌>>◌, Memory,
}
use chdkptp_jet_tx1_jet_nano.Common
use chdkptp_jet_tx1_jet_nano.Common.Results.{Result, ok, err, ◌>>=◌, expect, access}
use chdkptp_jet_tx1_jet_nano.Rawimg.Format.{RawFormat, rawimg_find_format}
use chdkptp_jet_tx1_jet_nano.Rawimg.Image.{RawImage, image_get, image_set}

-- `int shift`: to the right, or to the left where it is negative.
pub data Shift : Type 0 where
  right : ℕ → Shift
  left : ℕ → Shift

-- The options; `valupmod` and `valdownmod` are indexes into their strings, 0 for "no" and 1 for
-- "shift". `dest` is the optional `lbuf`, which is not the image's own buffer.
pub record Options : Type 0 where
  pub bpp : ℕ
  pub endian : ℕ
  pub valupmod : ℕ
  pub valdownmod : ℕ
  pub dest : Option Memory

unfoldable pub shift_of : RawImage → Options → Shift
shift_of img o =
    if ltb o.bpp img.fmt.bpp
    then (if o.valdownmod == 1 then right (img.fmt.bpp - o.bpp) else right 0)
    else (if o.valupmod == 1 then left (o.bpp - img.fmt.bpp) else right 0)

abbrev pub shift_value : Shift → ℕ → ℕ
shift_value (right k) v = v >> k
shift_value (left k) v = v << k

-- `black_level >> shift`. C leaves a negative count undefined: `negative` is what the machine makes
-- of it.
abbrev pub shift_black : (ℕ → ℕ → ℕ) → Shift → ℕ → ℕ
shift_black negative (right k) black = black >> k
shift_black negative (left zero) black = black
shift_black negative (left (suc k)) black = negative black (suc k)

-- The body of the inner loop.
unfoldable pub convert_pixel : RawImage → Memory → RawImage → Shift → ℕ → ℕ → Memory → Option Memory
convert_pixel img m newimg s y x out =
    Common.◌>>=◌ (image_get img m x y) (λ v. image_set newimg out x y (shift_value s v))

-- The inner loop at `x` with `n` rounds left.
unfoldable pub convert_row :
    RawImage → Memory → RawImage → Shift → ℕ → ℕ → ℕ → Memory → Option Memory
convert_row img m newimg s y zero x out = some out
convert_row img m newimg s y (suc n) x out =
    Common.◌>>=◌ (convert_pixel img m newimg s y x out)
      (λ out'. convert_row img m newimg s y n (x + 1) out')

-- The outer loop at `y` with `n` rounds left.
unfoldable pub convert_rows : RawImage → Memory → RawImage → Shift → ℕ → ℕ → Memory → Option Memory
convert_rows img m newimg s zero y out = some out
convert_rows img m newimg s (suc n) y out =
    Common.◌>>=◌ (convert_row img m newimg s y img.width 0 out)
      (λ out'. convert_rows img m newimg s n (y + 1) out')

-- The buffer of the new image: the given one, or a new one; `malloc` is the C library's, `none` its
-- null pointer.
unfoldable pub destination : (malloc : ℕ → Option Memory) → Option Memory → ℕ → Result Memory
destination malloc none new_size = expect (malloc new_size) "malloc failed"
destination malloc (some lb) new_size =
    if lb.size == new_size then ok lb else err "lbuf size mismatched"

unfoldable pub rawimg_lua_convert :
    (negative : ℕ → ℕ → ℕ) (malloc : ℕ → Option Memory)
    → RawImage
    → Memory
    → Options
    → Result (RawImage × Memory)
unfolding shift_of destination
rawimg_lua_convert negative malloc img m o = do
  let new_size = u32 (u32 (img.width * img.height) * o.bpp) / 8
  let s = shift_of img o
  fmt ← expect (rawimg_find_format o.bpp o.endian) "unknown format"
  let newimg = record img {
    fmt = fmt;
    row_bytes = u32 (img.width * o.bpp) / 8;
    black_level = shift_black negative s img.black_level;
    base = 0;
  }
  dest ← destination malloc o.dest new_size
  out ← access (convert_rows img m newimg s img.height 0 dest)
  ok (newimg, out)
