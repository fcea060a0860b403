-- ===== src/Liveimg/Pixels/Groups.antt =====
-- The pixels of one group of bytes, described one by one.
use chdkptp_jet_tx1_jet_nano.Common.{
  ℕ, zero, suc, ◌+◌, ◌*◌, ◌/◌, ◌%◌, ◌≤◌, ◌≡◌, Option, some, true, false, List, arith, load_lem,
  Memory,
}
use chdkptp_jet_tx1_jet_nano.Common.Int.{ℤ, pos, ◌+ℤ◌, pos-add, signed8}
use chdkptp_jet_tx1_jet_nano.Liveimg.Colour.{Rgba, yuv_to_rgba}
use chdkptp_jet_tx1_jet_nano.Liveimg.Frame.{load_at}
use chdkptp_jet_tx1_jet_nano.Liveimg.Pixels.{yuv_group, uyvy_group, opacity_group}
use chdkptp_jet_tx1_jet_nano.Liveimg.Pixels.Streams.{tabulate}

-- A loop body reads the `bytes` bytes at an offset and gives `c` values, number `j` of which is
-- `value p j` for the group at `p`.
pub record IsGroup {A : Type 0} (m : Memory) (group : ℤ → Option (List A)) (bytes c : ℕ)
    (value : ℕ → ℕ → A) : Type 0 where
  pub gives : (p : ℕ) → p + bytes ≤ m.size → group (pos p) ≡ some (tabulate (value p) 0 c)

-- Pixel `x` of row `r` of a buffer at `start`.
abbrev pub group_pixel : {A : Type 0} → (ℕ → ℕ → A) → (bytes c row_inc start r x : ℕ) → A
group_pixel value bytes c row_inc start r x = value (start + r * row_inc + x / c * bytes) (x % c)

load_at_lem :
    (m : Memory) (p i : ℕ) → p + i + 1 ≤ m.size → load_at m (pos p +ℤ pos i) ≡ some (m.cell (p + i))
unfolding load_at
load_at_lem m p i h = rw (pos-add p i) (load_lem m (p + i) (omega arith))

load_at_zero : (m : Memory) (p : ℕ) → p + 1 ≤ m.size → load_at m (pos p) ≡ some (m.cell p)
unfolding load_at
load_at_zero m p h = load_lem m p (omega arith)

-- Where the brightness of pixel `j` stands: `U Y V Y Y Y`.
abbrev pub luma_place : ℕ → ℕ
luma_place zero = 1
luma_place (suc zero) = 3
luma_place (suc (suc j)) = 4 + j

-- Pixel `j` of the group at `p`.
abbrev pub yuv_pixel : Memory → ℕ → ℕ → Rgba
yuv_pixel m p j =
    yuv_to_rgba (m.cell (p + luma_place j)) (signed8 (m.cell p)) (signed8 (m.cell (p + 2))) 255

pub yuv_group-IsGroup_all : (m : Memory) → IsGroup m (yuv_group m false) 6 4 (yuv_pixel m)
unfolding yuv_group tabulate
yuv_group-IsGroup_all m = record {
  gives = λ p h. ground (
    arith,
    load_at_lem m p 1,
    load_at_lem m p 2,
    load_at_lem m p 3,
    load_at_lem m p 4,
    load_at_lem m p 5,
    load_at_zero m p,
  );
}

pub yuv_group-IsGroup_skip : (m : Memory) → IsGroup m (yuv_group m true) 6 2 (yuv_pixel m)
unfolding yuv_group tabulate
yuv_group-IsGroup_skip m = record {
  gives = λ p h.
      ground (arith, load_at_lem m p 1, load_at_lem m p 2, load_at_lem m p 3, load_at_zero m p);
}

-- `U Y V Y`, with the byte of a colour read by `chroma` and the alpha computed by `alpha`.
abbrev pub uyvy_pixel : (ℕ → ℤ) → (ℕ → ℕ → ℕ → ℕ → ℕ) → Memory → ℕ → ℕ → Rgba
uyvy_pixel chroma alpha m p j =
    yuv_to_rgba (m.cell (p + (1 + 2 * j))) (chroma (m.cell p)) (chroma (m.cell (p + 2)))
      (alpha (m.cell p) (m.cell (p + 1)) (m.cell (p + 2)) (m.cell (p + 3)))

module _ (chroma : ℕ → ℤ) (alpha : ℕ → ℕ → ℕ → ℕ → ℕ) (m : Memory) where
  pub uyvy_group-IsGroup_all :
      IsGroup m (uyvy_group chroma alpha m false) 4 2 (uyvy_pixel chroma alpha m)
  unfolding uyvy_group tabulate
  uyvy_group-IsGroup_all = record {
    gives = λ p h.
        ground (arith, load_at_lem m p 1, load_at_lem m p 2, load_at_lem m p 3, load_at_zero m p);
  }

  pub uyvy_group-IsGroup_skip :
      IsGroup m (uyvy_group chroma alpha m true) 4 1 (uyvy_pixel chroma alpha m)
  unfolding uyvy_group tabulate
  uyvy_group-IsGroup_skip = record {
    gives = λ p h.
        ground (arith, load_at_lem m p 1, load_at_lem m p 2, load_at_lem m p 3, load_at_zero m p);
  }

pub opacity_group-IsGroup_all :
    (m : Memory) → IsGroup m (opacity_group m false) 2 2 (λ p j. m.cell (p + j))
unfolding opacity_group tabulate
opacity_group-IsGroup_all m = record {
  gives = λ p h. ground (arith, load_at_lem m p 1, load_at_zero m p);
}
