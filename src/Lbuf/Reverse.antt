-- ===== src/Lbuf/Reverse.antt =====
-- What `reverse_bytes` does to a buffer.

use chdkptp_jet_tx1_jet_nano.Common.{
  ℕ, zero, suc, ◌+◌, ◌-◌, ◌*◌, ◌/◌, ◌%◌, ◌^◌, ◌≤◌, ◌<◌, ◌≡◌, refl, arith, ◌∙◌, ap, Option, some,
  ◌&&◌, ◌==◌, leb, ltb, if◌then◌else◌, u32, Memory, IsBytes, put, load_lem, store_lem, lt→ltb,
  size-put, cell-put, put-IsBytes,
}
use chdkptp_jet_tx1_jet_nano.Lbuf.{next_pair, reverse_from, lbuf_reverse_bytes}

-- The other byte of the pair.
abbrev pub partner : ℕ → ℕ
partner j = if j % 2 == 0 then j + 1 else j - 1

-- The pairs between two even offsets are swapped.
pub record IsSwapped (buf : Memory) (first last : ℕ) (r : Option Memory) : Type 0 where
  pub out : Memory
  pub returns : r ≡ some out
  pub same_size : out.size ≡ buf.size
  pub bytes : IsBytes out
  pub swapped :
      (j : ℕ)
      → out.cell j ≡ (if leb first j && ltb j last then buf.cell (partner j) else buf.cell j)

-- One pair swapped.
abbrev swapped_pair : Memory → ℕ → Memory
swapped_pair buf i = put (put buf (i + 1) (buf.cell i)) i (buf.cell (i + 1))

cell-swapped_pair :
    (buf : Memory) (i j : ℕ)
    → IsBytes buf
    → (swapped_pair buf i).cell j
      ≡ (if i == j then buf.cell (i + 1) else if (i + 1) == j then buf.cell i else buf.cell j)
cell-swapped_pair buf i j b = ground (
  arith,
  cell-put (put buf (i + 1) (buf.cell i)) i (buf.cell (i + 1)) j,
  cell-put buf (i + 1) (buf.cell i) j,
  b i,
  b (i + 1),
)

one_round :
    (n i : ℕ) (buf : Memory)
    → i + 2 ≤ buf.size
    → i + 2 < 2 ^ 31
    → reverse_from (suc n) i buf ≡ reverse_from n (i + 2) (swapped_pair buf i)
unfolding reverse_from next_pair
one_round n i buf inside counts =
    rw
      (
        load_lem buf (i + 1) (omega arith),
        load_lem buf i (omega arith),
        store_lem buf (i + 1) (buf.cell i) (omega arith),
        store_lem (put buf (i + 1) (buf.cell i)) i (buf.cell (i + 1))
            (omega (arith, size-put buf (i + 1) (buf.cell i))),
        lt→ltb (i + 2) (2 ^ 31) counts,
      )
      refl

reverse_from-IsSwapped :
    (n i : ℕ) (buf : Memory)
    → IsBytes buf
    → i % 2 ≡ 0
    → i + 2 * n ≤ buf.size
    → buf.size < 2 ^ 31
    → IsSwapped buf i (i + 2 * n) (reverse_from n i buf)
reverse_from-IsSwapped zero i buf b even inside small = record {
  out = buf;
  returns = unfold reverse_from in refl;
  same_size = refl;
  bytes = b;
  swapped = λ j. ground arith;
}
reverse_from-IsSwapped (suc n) i buf b even inside small =
    let first = put buf (i + 1) (buf.cell i) in
    let size = size-put first i (buf.cell (i + 1)) ∙ size-put buf (i + 1) (buf.cell i) in
    let r =
      reverse_from-IsSwapped n (i + 2) (swapped_pair buf i)
        (put-IsBytes first i (buf.cell (i + 1)) (put-IsBytes buf (i + 1) (buf.cell i) b))
        (omega arith) (omega (arith, size)) (omega (arith, size)) in
    record {
      out = r.out;
      returns = one_round n i buf (omega arith) (omega arith) ∙ r.returns;
      same_size = r.same_size ∙ size;
      bytes = r.bytes;
      swapped = λ j.
          ground (
            arith,
            r.swapped j,
            cell-swapped_pair buf i j b,
            cell-swapped_pair buf i (partner j) b,
          );
    }

-- On a buffer of bytes, of at least one and less than 2 ^ 31 of them, `reverse_bytes` stays inside it and swaps the bytes of each pair;
-- the last byte of an odd number of bytes stays, and so does the size.
pub lbuf_reverse_bytes-swaps :
    (buf : Memory)
    → IsBytes buf
    → 0 < buf.size
    → buf.size < 2 ^ 31
    → (out : Memory) × (lbuf_reverse_bytes buf ≡ some out)
      × (out.size ≡ buf.size)
      × ((j : ℕ)
          → out.cell j ≡ (if ltb j (2 * (buf.size / 2)) then buf.cell (partner j) else buf.cell j))
unfolding lbuf_reverse_bytes
lbuf_reverse_bytes-swaps buf b some_byte small =
    let rounds : (u32 (buf.size + (2 ^ 32 - 1)) + 1) / 2 ≡ buf.size / 2 = omega arith in
    let r = reverse_from-IsSwapped (buf.size / 2) 0 buf b refl (omega arith) small in
    (
      r.out,
      ap (λ n. reverse_from n 0 buf) rounds ∙ r.returns,
      r.same_size,
      λ j. ground (arith, r.swapped j),
    )
