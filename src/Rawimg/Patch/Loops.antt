-- ===== src/Rawimg/Patch/Loops.antt =====
-- The loops of `patch_pixels`: they stay inside the buffer and change bad active pixels only.
use native.Mathlib.Numerals.{add-one}
use native.Mathlib.Decide.{ℕ_discrete}
use chdkptp_jet_tx1_jet_nano.Common.{
  ℕ, zero, suc, ◌+◌, ◌-◌, ◌*◌, ◌≤◌, ◌<◌, ◌≡◌, ◌≢◌, ◌⊎◌, inl, inr, refl, ◌∙◌, ap₂, some, Option,
  true, leb, leb→le, u32, arith, Memory, IsBytes, Bool-cases,
}
use chdkptp_jet_tx1_jet_nano.Rawimg.Image.{RawImage, image_get}
use chdkptp_jet_tx1_jet_nano.Rawimg.Image.Access.{IsImage, pixel_at, image_get_lem}
use chdkptp_jet_tx1_jet_nano.Rawimg.Image.Write.{IsImage-same_size}
use chdkptp_jet_tx1_jet_nano.Rawimg.Patch.{
  patch_if_bad, patch_row, patch_rows, rawimg_lua_patch_pixels,
}
use chdkptp_jet_tx1_jet_nano.Rawimg.Patch.Laws.{patch_pixel-PatchesPixel}

module _ (img : RawImage) (m0 : Memory) (badval : ℕ)
    (inside : (img.active_right ≤ img.width) × (img.active_bottom ≤ img.height)) where
  -- The pixels that `patch_pixels` has no business with.
  abbrev pub Spared : ℕ → ℕ → Type 0
  Spared x y =
      (x < img.active_left)
      ⊎ (img.active_right ≤ x)
      ⊎ (y < img.active_top)
      ⊎ (img.active_bottom ≤ y)
      ⊎ (badval < pixel_at img m0 x y)

  -- The memory after some rounds.
  pub record IsPatched (m : Memory) : Type 0 where
    pub valid : IsImage img m
    pub same_size : m.size ≡ m0.size
    pub bytes : IsBytes m
    pub spared :
        (x y : ℕ)
        → x < img.width
        → y < img.height
        → Spared x y
        → pixel_at img m x y ≡ pixel_at img m0 x y

  -- A round, or some: they return, patch at most `n` pixels and keep the rest.
  pub record Rounds (n count : ℕ) (r : Option (Memory × ℕ)) : Type 0 where
    pub out : Memory
    pub total : ℕ
    pub returns : r ≡ some (out, total)
    pub counted : total ≤ count + n
    pub patched : IsPatched out

  patch_if_bad-Rounds :
      (m : Memory) (x y count : ℕ)
      → IsPatched m
      → img.active_left ≤ x
      → x < img.active_right
      → img.active_top ≤ y
      → y < img.active_bottom
      → Rounds 1 count (patch_if_bad img badval m x y count)
  patch_if_bad-Rounds m x y count p hl hr ht hb =
      elim (Bool-cases (leb (pixel_at img m x y) badval)) [
        | inl bad ↦
            let q =
              patch_pixel-PatchesPixel img m p.valid p.bytes x y (omega arith) (omega arith) in
            record {
              out = q.out;
              total = u32 (count + q.count);
              returns = unfold patch_if_bad in rw read (rw (bad, q.returns));
              counted = omega (arith, q.at_most_one);
              patched = record {
                valid = IsImage-same_size img m q.out q.same_size p.valid;
                same_size = q.same_size ∙ p.same_size;
                bytes = q.bytes;
                spared = λ x' y' hx' hy' s.
                    q.others x' y' hx' hy' (other bad x' y' hx' hy' s) ∙ p.spared x' y' hx' hy' s;
              };
            }
        | inr good ↦ record {
          out = m;
          total = count;
          returns = unfold patch_if_bad in rw read (rw good);
          counted = omega arith;
          patched = p;
        }
      ]
    where
      read : image_get img m x y ≡ some (pixel_at img m x y)
      read = image_get_lem img m p.valid p.bytes x y (omega arith) (omega arith)

      other :
          leb (pixel_at img m x y) badval ≡ true
          → (x' y' : ℕ) → x' < img.width
          → y' < img.height
          → Spared x' y'
          → (x ≢ x') ⊎ (y ≢ y')
      other bad x' y' hx' hy' s = elim (ℕ_discrete x x') [
        | yes e ↦ elim (ℕ_discrete y y') [
          | yes e' ↦ absurd (
              omega (
                arith,
                leb→le (pixel_at img m x y) badval bad,
                ap₂ (pixel_at img m) e e',
                p.spared x' y' hx' hy' s,
              ))
          | no ne ↦ inr ne
        ]
        | no ne ↦ inl ne
      ]

  patch_row-Rounds :
      (m : Memory) (n x y count : ℕ)
      → IsPatched m
      → img.active_left ≤ x
      → x + n ≤ img.active_right
      → img.active_top ≤ y
      → y < img.active_bottom
      → Rounds n count (patch_row img badval y n x m count)
  unfolding patch_row
  patch_row-Rounds m zero x y count p hl hr ht hb = record {
    out = m;
    total = count;
    returns = refl;
    counted = omega arith;
    patched = p;
  }
  patch_row-Rounds m (suc n) x y count p hl hr ht hb =
      let first = patch_if_bad-Rounds m x y count p hl (omega arith) ht hb in
      let rest =
        patch_row-Rounds first.out n (suc x) y first.total first.patched (omega arith) (omega arith)
          ht hb in
      record {
        out = rest.out;
        total = rest.total;
        returns = rw (first.returns, add-one) rest.returns;
        counted = omega (arith, first.counted, rest.counted);
        patched = rest.patched;
      }

  patch_rows-Rounds :
      (m : Memory) (n y count : ℕ)
      → IsPatched m
      → img.active_left ≤ img.active_right
      → img.active_top ≤ y
      → y + n ≤ img.active_bottom
      → Rounds (n * (img.active_right - img.active_left)) count (patch_rows img badval n y m count)
  unfolding patch_rows
  patch_rows-Rounds m zero y count p ordered ht hb = record {
    out = m;
    total = count;
    returns = refl;
    counted = omega arith;
    patched = p;
  }
  patch_rows-Rounds m (suc n) y count p ordered ht hb =
      let w = img.active_right - img.active_left in
      let first =
        patch_row-Rounds m w img.active_left y count p (omega arith) (omega arith) ht
          (omega arith) in
      let rest =
        patch_rows-Rounds first.out n (suc y) first.total first.patched ordered (omega arith)
          (omega arith) in
      record {
        out = rest.out;
        total = rest.total;
        returns = rw (first.returns, add-one) rest.returns;
        counted = omega (arith, first.counted, rest.counted);
        patched = rest.patched;
      }

-- On an image bound to a buffer of bytes, with an active area inside the image, `patch_pixels`
-- returns without leaving the buffer; it patches at most as many pixels as the area has, and keeps
-- the pixel (x, y) if it is outside the area or above `badval`.
pub patch_pixels-IsPatched :
    (img : RawImage) (m : Memory) (badval : ℕ)
    → IsImage img m
    → IsBytes m
    → img.active_left ≤ img.active_right
    → img.active_right ≤ img.width
    → img.active_top ≤ img.active_bottom
    → img.active_bottom ≤ img.height
    → (x y : ℕ) → x < img.width
    → y < img.height
    → (x < img.active_left)
      ⊎ (img.active_right ≤ x)
      ⊎ (y < img.active_top)
      ⊎ (img.active_bottom ≤ y)
      ⊎ (badval < pixel_at img m x y)
    → (m' : Memory) × (count : ℕ) × (rawimg_lua_patch_pixels img m badval ≡ some (m', count))
      × (count ≤ (img.active_bottom - img.active_top) * (img.active_right - img.active_left))
      × (m'.size ≡ m.size)
      × (pixel_at img m' x y ≡ pixel_at img m x y)
unfolding rawimg_lua_patch_pixels
patch_pixels-IsPatched img m badval iv b hl hr ht hb x y hx hy s =
    let start : IsPatched img m badval (hr, hb) m = record {
      valid = iv;
      same_size = refl;
      bytes = b;
      spared = λ x y hx hy s. refl;
    } in
    let r =
      patch_rows-Rounds img m badval (hr, hb) m (img.active_bottom - img.active_top) img.active_top
        0 start hl (omega arith) (omega arith) in
    (
      r.out,
      r.total,
      r.returns,
      omega (arith, r.counted),
      r.patched.same_size,
      r.patched.spared x y hx hy s,
    )
