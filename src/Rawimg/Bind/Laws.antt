-- ===== src/Rawimg/Bind/Laws.antt =====
-- What an image that `bind_lbuf` returns may be relied on for.
use chdkptp_jet_tx1_jet_nano.Common.{
  ℕ, ◌+◌, ◌*◌, ◌/◌, ◌%◌, ◌^◌, ◌≤◌, ◌<◌, ◌≡◌, ap, some, arith, u32, Memory,
}
use chdkptp_jet_tx1_jet_nano.Common.Results.{ok}
use chdkptp_jet_tx1_jet_nano.Rawimg.Format.{rawimg_find_format}
use chdkptp_jet_tx1_jet_nano.Rawimg.Image.{RawImage}
use chdkptp_jet_tx1_jet_nano.Rawimg.Image.Access.{IsImage}
use chdkptp_jet_tx1_jet_nano.Rawimg.Laws.Formats.{
  rawimg_find_format-PixelLaws, rawimg_find_format-bpp,
}
use chdkptp_jet_tx1_jet_nano.Rawimg.Bind.{ImageSpec, rawimg_lua_bind_lbuf, or_default}

-- The sizes that `bind_lbuf` computes fit 32 bits.
pub record FitsWord (spec : ImageSpec) : Type 0 where
  pub row : spec.width * spec.bpp < 2 ^ 32
  pub total : or_default spec.data_offset 0 + spec.width * spec.bpp / 8 * spec.height < 2 ^ 32

-- What a successful call has found out.
pub record IsBound (spec : ImageSpec) (buf : Memory) (img : RawImage) : Type 0 where
  pub format : rawimg_find_format spec.bpp spec.endian ≡ some img.fmt
  pub whole_blocks : img.width % img.fmt.block_pixels ≡ 0
  pub row : img.row_bytes ≡ u32 (spec.width * img.fmt.bpp) / 8
  pub fits : u32 (img.base + u32 (img.row_bytes * img.height)) ≤ buf.size
  pub width : img.width ≡ spec.width
  pub height : img.height ≡ spec.height
  pub base : img.base ≡ or_default spec.data_offset 0
  pub area : (img.active_top ≤ img.active_bottom) × (img.active_bottom ≤ img.height)

bound :
    (spec : ImageSpec) (buf : Memory) {img : RawImage}
    → rawimg_lua_bind_lbuf spec buf ≡ ok img
    → IsBound spec buf img
unfolding rawimg_lua_bind_lbuf
bound spec buf e = ground arith

-- An image that `bind_lbuf` returns, with sizes that fit 32 bits and so does the buffer's, lies inside its buffer: its rows
-- are whole blocks, so no pixel of it is outside. Its active rows are rows of it.
pub bind_lbuf-IsImage :
    (spec : ImageSpec) (buf : Memory) {img : RawImage}
    → FitsWord spec
    → buf.size < 2 ^ 32
    → rawimg_lua_bind_lbuf spec buf ≡ ok img
    → IsImage img buf × (img.active_top ≤ img.active_bottom) × (img.active_bottom ≤ img.height)
bind_lbuf-IsImage spec buf {img} fw small e =
    let b : IsBound spec buf img = bound spec buf e in
    let laws = rawimg_find_format-PixelLaws spec.bpp spec.endian b.format in
    let bits = rawimg_find_format-bpp spec.bpp spec.endian b.format in
    let bytes = laws.grid.row_bytes img.width b.whole_blocks in
    let row : img.row_bytes ≡ spec.width * spec.bpp / 8 =
      omega (arith, ap (λ (t : ℕ). spec.width * t) bits) in
    (
      record {
        known = ((spec.bpp, spec.endian), b.format);
        whole_blocks = b.whole_blocks;
        row =
            omega
              (arith, ap (λ (t : ℕ). spec.width * t) bits, ap (λ (t : ℕ). t * img.fmt.bpp) b.width);
        fits = omega (
          arith,
          ap (λ (t : ℕ). t * img.height) row,
          ap (λ (t : ℕ). spec.width * spec.bpp / 8 * t) b.height,
        );
        small = small;
      },
      b.area.0,
      b.area.1,
    )
