-- ===== src/Liveimg/Frame.antt =====
-- live_view.h and liveimg.c: the header of a frame, the descriptions of its buffers, and the tests
-- that they must pass.
use Prim.Native.String.{String}
pub mod Checks
use chdkptp_jet_tx1_jet_nano.Common.{
  ℕ, ◌+◌, ◌-◌, ◌*◌, ◌^◌, Option, some, Bool, true, false, not, ◌&&◌, ltb, if◌then◌else◌, u32,
  Memory, load, none,
}
use chdkptp_jet_tx1_jet_nano.Common
use chdkptp_jet_tx1_jet_nano.Common.Int.{ℤ, pos, negsuc, ◌+ℤ◌, ◌*ℤ◌, div_ℤ, ltb_ℤ, signed32}
use chdkptp_jet_tx1_jet_nano.Common.Results.{Result, fault, err, ok, ◌>>=◌, ◌>>◌, raise_if, access}

-- A pointer into a frame is its distance from the frame's first byte, which a corrupt frame can make
-- negative.
unfoldable pub load_at : Memory → ℤ → Option ℕ
load_at m (pos i) = load m i
load_at m (negsuc i) = none

-- An `int` of a structure, in little endian order.
unfoldable pub load_int : Memory → ℤ → Option ℤ
unfolding load_at
load_int m p = Common.◌>>=◌ (load_at m p) λ a. Common.◌>>=◌ (load_at m (p +ℤ pos 1)) λ b.
    Common.◌>>=◌ (load_at m (p +ℤ pos 2)) λ c.
      Common.◌>>=◌ (load_at m (p +ℤ pos 3))
        λ d. some (signed32 (a + b * 2 ^ 8 + c * 2 ^ 16 + d * 2 ^ 24))

-- The `int` that an operation on `int`s gives; C leaves an overflow undefined.
unfoldable pub in_int : ℤ → Result ℤ
in_int v =
    if ltb_ℤ v (negsuc (2 ^ 31 - 1))
    then fault
    else if ltb_ℤ (pos (2 ^ 31 - 1)) v
    then fault
    else ok v

-- Equality of `int`s, and the conversion to `size_t`.
unfoldable pub eq_ℤ : ℤ → ℤ → Bool
eq_ℤ a b = not (ltb_ℤ a b) && not (ltb_ℤ b a)

unfoldable pub to_size : ℤ → ℕ
to_size (pos n) = n
to_size (negsuc n) = 2 ^ 64 - 1 - n

-- The fields of `lv_data_header`.
pub data HeaderField : Type 0 where
  version_major : HeaderField
  version_minor : HeaderField
  palette_type : HeaderField
  palette_data_start : HeaderField
  vp_desc_start : HeaderField
  bm_desc_start : HeaderField
  bmo_desc_start : HeaderField

unfoldable pub header_offset : HeaderField → ℕ
header_offset version_major = 0
header_offset version_minor = 4
header_offset palette_type = 12
header_offset palette_data_start = 16
header_offset vp_desc_start = 20
header_offset bm_desc_start = 24
header_offset bmo_desc_start = 28

unfoldable pub header : Memory → HeaderField → Result ℤ
unfolding header_offset load_int
header frame field = access (load_int frame (pos (header_offset field)))

-- `lv_framebuffer_desc`, without the margins, which this program does not read.
pub record FbDesc : Type 0 where
  pub fb_type : ℤ
  pub data_start : ℤ
  pub buffer_width : ℤ
  pub visible_width : ℤ
  pub visible_height : ℤ

abbrev pub lv_fb_yuv8 : ℤ
lv_fb_yuv8 = pos 0

abbrev pub lv_fb_pal8 : ℤ
lv_fb_pal8 = pos 1

abbrev pub lv_fb_yuv8b : ℤ
lv_fb_yuv8b = pos 2

abbrev pub lv_fb_yuv8c : ℤ
lv_fb_yuv8c = pos 3

abbrev pub lv_fb_opacity8 : ℤ
lv_fb_opacity8 = pos 4

unfoldable pub lv_proto_compatible : Memory → ℤ → ℤ → Result Bool
unfolding header eq_ℤ
lv_proto_compatible frame req_major req_minor = do
  major ← header frame version_major
  minor ← header frame version_minor
  ok (eq_ℤ req_major major && not (ltb_ℤ req_minor minor))

unfoldable pub get_fb_bpp : FbDesc → ℕ
unfolding eq_ℤ
get_fb_bpp desc =
    if eq_ℤ desc.fb_type lv_fb_yuv8
    then 12
    else if eq_ℤ desc.fb_type lv_fb_yuv8b
    then 16
    else if eq_ℤ desc.fb_type lv_fb_yuv8c
    then 16
    else 1

-- `data_len` is the length of the buffer, taken for an `int`.
unfoldable pub data_len : Memory → ℤ
data_len frame = signed32 (u32 frame.size)

unfoldable pub read_desc : Memory → ℤ → Result FbDesc
unfolding load_int
read_desc frame start = do
  fb_type ← access (load_int frame start)
  data_start ← access (load_int frame (start +ℤ pos 4))
  buffer_width ← access (load_int frame (start +ℤ pos 8))
  visible_width ← access (load_int frame (start +ℤ pos 12))
  visible_height ← access (load_int frame (start +ℤ pos 16))
  ok (record {
    fb_type = fb_type;
    data_start = data_start;
    buffer_width = buffer_width;
    visible_width = visible_width;
    visible_height = visible_height;
  })

-- A null result with a message is an error here: every caller raises the message.
unfoldable pub get_fb_desc : Memory → ℤ → Result FbDesc
unfolding to_size data_len read_desc
get_fb_desc frame start = do
  raise_if (not (ltb_ℤ (pos 0) start)) "no desc"
  raise_if (ltb (to_size (data_len frame)) (to_size start + 36)) "data < fb_desc"
  read_desc frame start

-- `desc->data_start + (desc->buffer_width*desc->visible_height*get_fb_bpp(desc))/8`.
unfoldable pub data_end : FbDesc → Result ℤ
unfolding in_int get_fb_bpp
data_end desc = do
  pixels ← in_int (desc.buffer_width *ℤ desc.visible_height)
  bits ← in_int (pixels *ℤ pos (get_fb_bpp desc))
  in_int (desc.data_start +ℤ div_ℤ bits 8)

-- The first test is skipped where there is no data.
unfoldable pub check_data : Memory → FbDesc → Result (Unit {0})
unfolding data_end data_len
check_data frame desc = do
  end ← data_end desc
  raise_if (ltb_ℤ (data_len frame) end) "data < buffer_width*height"

unfoldable pub check_fb_desc : Memory → FbDesc → Result FbDesc
unfolding check_data eq_ℤ
check_fb_desc frame desc = do
  if eq_ℤ desc.data_start (pos 0) then ok tt else check_data frame desc
  raise_if (ltb_ℤ desc.buffer_width desc.visible_width) "width  > buffer_width"
  ok desc

-- `if(!lv_proto_compatible(frame,2,2)) { *err=message; return NULL; }`.
unfoldable pub require_2_2 : Memory → String → Result (Unit {0})
unfolding lv_proto_compatible
require_2_2 frame message = do
  compatible ← lv_proto_compatible frame (pos 2) (pos 2)
  raise_if (not compatible) message

unfoldable pub vp_type_supported : Memory → FbDesc → Result (Unit {0})
unfolding eq_ℤ require_2_2
vp_type_supported frame desc =
    if eq_ℤ desc.fb_type lv_fb_yuv8
    then ok tt
    else if eq_ℤ desc.fb_type lv_fb_yuv8b
    then require_2_2 frame "viewport type not supported by protocol"
    else if eq_ℤ desc.fb_type lv_fb_yuv8c
    then require_2_2 frame "viewport type not supported by protocol"
    else err "viewport type not supported"

unfoldable pub get_vp_desc : Memory → Result FbDesc
unfolding header get_fb_desc vp_type_supported check_fb_desc
get_vp_desc frame = do
  start ← header frame vp_desc_start
  desc ← get_fb_desc frame start
  vp_type_supported frame desc
  check_fb_desc frame desc

unfoldable pub bm_type_supported : Memory → FbDesc → Result (Unit {0})
unfolding eq_ℤ require_2_2
bm_type_supported frame desc =
    if eq_ℤ desc.fb_type lv_fb_pal8
    then ok tt
    else if eq_ℤ desc.fb_type lv_fb_yuv8b
    then require_2_2 frame "bitmap type not supported by protocol"
    else err "overlay type not supported"

unfoldable pub get_bm_desc : Memory → Result FbDesc
unfolding header get_fb_desc bm_type_supported check_fb_desc
get_bm_desc frame = do
  start ← header frame bm_desc_start
  desc ← get_fb_desc frame start
  bm_type_supported frame desc
  check_fb_desc frame desc

unfoldable pub get_bmo_desc : Memory → Result FbDesc
unfolding header get_fb_desc require_2_2 check_fb_desc eq_ℤ
get_bmo_desc frame = do
  require_2_2 frame "opacity type not supported by protocol"
  start ← header frame bmo_desc_start
  desc ← get_fb_desc frame start
  raise_if (not (eq_ℤ desc.fb_type lv_fb_opacity8)) "opacity type not supported"
  check_fb_desc frame desc
