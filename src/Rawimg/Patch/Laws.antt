-- ===== src/Rawimg/Patch/Laws.antt =====
-- Patching one pixel: it stays inside the buffer, and writes a value of the format.
use mathlib.Core.Path.{subst}
use native.Mathlib.Nat.{mod-lt, one-le-pow}
use native.Mathlib.Decide.{ℕ_discrete}
use chdkptp_jet_tx1_jet_nano.Common.{
  ℕ, suc, ◌+◌, ◌-◌, ◌*◌, ◌/◌, ◌^◌, ◌≤◌, ◌<◌, ◌≡◌, ◌≢◌, ◌⊎◌, inl, inr, refl, some, Option, List, [],
  ◌∷◌, ◌||◌, ◌==◌, ltb, leb, u32, arith, Memory, IsBytes, Bool-cases,
}
use chdkptp_jet_tx1_jet_nano.Rawimg.Image.{RawImage, cfa_color, cfa_green, rawimg_get_pixel_safe}
use chdkptp_jet_tx1_jet_nano.Rawimg.Image.Access.{IsImage, pixel_at, image_get_lem}
use chdkptp_jet_tx1_jet_nano.Rawimg.Image.Write.{image_set-WritesPixel}
use chdkptp_jet_tx1_jet_nano.Rawimg.Patch.{minus, neighbours, tally, rawimg_patch_pixel}

abbrev AllBelow : ℕ → List ℕ → Type 0
AllBelow b [] = Unit
AllBelow b (n ∷ ns) = (n < b) × AllBelow b ns

-- The sum of the neighbours is at most their number times the greatest value.
tally_bound :
    (black top : ℕ) (ns : List ℕ) (total count : ℕ)
    → AllBelow (suc top) ns
    → total ≤ count * top
    → (tally black ns total count).0 ≤ (tally black ns total count).1 * top
unfolding tally
tally_bound black top [] total count all h = h
tally_bound black top (n ∷ ns) total count all h = elim (Bool-cases (ltb black n)) [
  | inl above ↦
      rw (above, tally) (tally_bound black top ns (u32 (total + n)) (count + 1) all.1 (omega arith))
  | inr not_above ↦ rw (not_above, tally) (tally_bound black top ns total count all.1 h)
]

quotient_bound : (total count top : ℕ) → total ≤ count * top → count ≢ 0 → total / count ≤ top
quotient_bound total count top h ne = grind arith

module _ (img : RawImage) (m : Memory) (iv : IsImage img m) (b : IsBytes m) where
  pixel_lt : (x y : ℕ) → pixel_at img m x y < 2 ^ img.fmt.bpp
  pixel_lt x y = mod-lt _ (one-le-pow img.fmt.bpp 2 (omega arith))

  -- A safe read returns a value of the format.
  safe : (x y : ℕ) → (v : ℕ) × (rawimg_get_pixel_safe img m x y ≡ some v) × (v < 2 ^ img.fmt.bpp)
  unfolding rawimg_get_pixel_safe
  safe x y = elim (Bool-cases (leb img.width x || leb img.height y)) [
    | inl out ↦ (0, rw out, one-le-pow img.fmt.bpp 2 (omega arith))
    | inr in_range ↦
        (pixel_at img m x y, ground (arith, in_range, image_get_lem img m iv b x y), pixel_lt x y)
  ]

  four :
      (x y : ℕ) → (ns : List ℕ) × (neighbours img m x y ≡ some ns) × AllBelow (2 ^ img.fmt.bpp) ns
  unfolding neighbours
  four x y = elim (Bool-cases (cfa_color img x y == cfa_green)) [
    | inl green ↦
        let a = safe (minus x 1) (minus y 1) in
        let b = safe (u32 (x + 1)) (minus y 1) in
        let c = safe (minus x 1) (u32 (y + 1)) in
        let d = safe (u32 (x + 1)) (u32 (y + 1)) in
        (
          a.0 ∷ b.0 ∷ c.0 ∷ d.0 ∷ [],
          rw (green, a.1, b.1, c.1, d.1),
          assumption (a.2, b.2, c.2, d.2, tt),
        )
    | inr other ↦
        let a = safe (minus x 2) y in
        let b = safe (u32 (x + 2)) y in
        let c = safe x (minus y 2) in
        let d = safe x (u32 (y + 2)) in
        (
          a.0 ∷ b.0 ∷ c.0 ∷ d.0 ∷ [],
          rw (other, a.1, b.1, c.1, d.1),
          assumption (a.2, b.2, c.2, d.2, tt),
        )
  ]

  -- The mean of the neighbours is a value of the format.
  mean_lt :
      (black : ℕ) (ns : List ℕ)
      → AllBelow (2 ^ img.fmt.bpp) ns
      → (tally black ns 0 0).1 ≢ 0
      → (tally black ns 0 0).0 / (tally black ns 0 0).1 < 2 ^ img.fmt.bpp
  mean_lt black ns all ne =
      let top = 2 ^ img.fmt.bpp - 1 in
      let positive : 0 < 2 ^ img.fmt.bpp = one-le-pow img.fmt.bpp 2 (omega arith) in
      let all' : AllBelow (suc top) ns = subst (λ k. AllBelow k ns) (omega arith) all in
      omega (
        arith,
        quotient_bound (tally black ns 0 0).0 (tally black ns 0 0).1 top
            (tally_bound black top ns 0 0 all' (omega arith)) ne,
      )

  -- One pixel: either nothing is written, or the pixel alone, with a value of the format.
  pub record PatchesPixel (x y : ℕ) (r : Option (Memory × ℕ)) : Type 0 where
    pub out : Memory
    pub count : ℕ
    pub returns : r ≡ some (out, count)
    pub at_most_one : count ≤ 1
    pub same_size : out.size ≡ m.size
    pub bytes : IsBytes out
    pub others :
        (x' y' : ℕ)
        → x' < img.width
        → y' < img.height
        → (x ≢ x') ⊎ (y ≢ y')
        → pixel_at img out x' y' ≡ pixel_at img m x' y'

  pub patch_pixel-PatchesPixel :
      (x y : ℕ) → x < img.width → y < img.height → PatchesPixel x y (rawimg_patch_pixel img m x y)
  patch_pixel-PatchesPixel x y hx hy =
      let (ns, read, all) = four x y in
      elim (ℕ_discrete (tally img.black_level ns 0 0).1 0) [
        | yes none_left ↦ record {
          out = m;
          count = 0;
          returns = unfold rawimg_patch_pixel in rw read (ground (arith, none_left));
          at_most_one = omega arith;
          same_size = refl;
          bytes = b;
          others = λ x' y' hx' hy' ne. refl;
        }
        | no some_left ↦
            let v = (tally img.black_level ns 0 0).0 / (tally img.black_level ns 0 0).1 in
            let w =
              image_set-WritesPixel img m iv x y v hx hy b
                (mean_lt img.black_level ns all some_left) in
            record {
              out = w.out;
              count = 1;
              returns = unfold rawimg_patch_pixel in rw read (ground (arith, w.returns, some_left));
              at_most_one = omega arith;
              same_size = w.same_size;
              bytes = w.bytes;
              others = λ x' y' hx' hy' ne. ground (arith, w.pixel x' y' hx' hy');
            }
      ]
