-- ===== src/Liveimg/Convert/Packed.antt =====
-- The packed image of a buffer.
use chdkptp_jet_tx1_jet_nano.Common.{
  ℕ, suc, ◌+◌, ◌*◌, ◌≤◌, ◌<◌, ◌≡◌, Option, some, List, ap, ap₂, ◌∙◌, arith, Memory, u8, ◌>>=◌,
}
use chdkptp_jet_tx1_jet_nano.Common.Int.{ℤ, pos}
use chdkptp_jet_tx1_jet_nano.Liveimg.Colour.{Rgba}
use chdkptp_jet_tx1_jet_nano.Liveimg.Pixels.{rounds, write_packed}
use chdkptp_jet_tx1_jet_nano.Liveimg.Pixels.Streams.{index_parts, index_below}
use chdkptp_jet_tx1_jet_nano.Liveimg.Pixels.Writes.{channel, write_packed-IsPacked}
use chdkptp_jet_tx1_jet_nano.Liveimg.Pixels.Groups.{IsGroup, group_pixel}
use chdkptp_jet_tx1_jet_nano.Liveimg.Convert.{Shape, top_down}
use chdkptp_jet_tx1_jet_nano.Liveimg.Convert.Loops.{in_row, in_rows, top_down_lem}

-- The block `img` has the pixel `pixel r x` in row `r` and column `x`, for `h` rows of `w` pixels.
pub record HasPixels (img : Memory) (pixel : ℕ → ℕ → Rgba) (w h : ℕ) : Type 0 where
  pub has :
      (r x k : ℕ)
      → r < h
      → x < w
      → k < 4
      → img.cell (4 * (r * w + x) + k) ≡ u8 (channel (pixel r x) k)

module _ (m : Memory) (group : ℤ → Option (List Rgba)) (bytes c' : ℕ) (value : ℕ → ℕ → Rgba)
    (is_group : IsGroup m group bytes (suc c') value) (step row_inc start n : ℕ) (s : Shape)
    (whole : rounds s.width step ≡ n)
    (inside : (r : ℕ) → r < s.height → start + r * row_inc + n * bytes ≤ m.size) where
  pub to_packed_lem :
      (img : Memory)
      → 4 * (s.height * (n * suc c')) ≤ img.size
      → (img' : Memory) × ((top_down group step bytes row_inc s (pos start) >>= λ pixels.
            write_packed img 0 pixels)
          ≡ some img')
        × (img'.size ≡ img.size)
        × HasPixels img' (group_pixel value bytes (suc c') row_inc start) (n * suc c') s.height
  to_packed_lem img room =
      let f = in_rows m group bytes c' value is_group (λ r. start + r * row_inc) (n * suc c') in
      let (img', e, packed) =
        write_packed-IsPacked (s.height * (n * suc c')) img 0 f 0 (omega arith) in
      (
        img',
        ap (λ o. o >>= λ pixels. write_packed img 0 pixels)
              (top_down_lem m group bytes c' value is_group step row_inc start n s whole inside)
            ∙ e,
        packed.same_size,
        record {
          has = λ r x k hr hx hk.
              let parts = index_parts (n * suc c') r x hx in
              let at : 4 * (r * (n * suc c') + x) + k ≡ 0 + (4 * (r * (n * suc c') + x) + k) =
                omega arith in
              let first : 0 + (r * (n * suc c') + x) ≡ r * (n * suc c') + x = omega arith in
              ap img'.cell at
              ∙ packed.written (r * (n * suc c') + x) k
                  (index_below (n * suc c') r x s.height hr hx) hk
              ∙ ap (λ p. u8 (channel p k))
                  (ap f first
                    ∙ ap₂ (λ q y. in_row value bytes (suc c') (start + q * row_inc) y) parts.0
                        parts.1);
        },
      )
