-- ===== src/Liveimg/Pixels/Writes.antt =====
-- What the writes of a list of pixels leave.
use native.Mathlib.Decide.{dec_lt}
use chdkptp_jet_tx1_jet_nano.Common.{
  ℕ, zero, suc, ◌+◌, ◌*◌, ◌≤◌, ◌<◌, ◌≡◌, refl, some, none, ◌∙◌, arith, u8, Memory, put, store,
  cases4,
}
use chdkptp_jet_tx1_jet_nano.Liveimg.Colour.{Rgba}
use chdkptp_jet_tx1_jet_nano.Liveimg.Pixels.{write_packed}
use chdkptp_jet_tx1_jet_nano.Liveimg.Pixels.Streams.{tabulate}

-- The bytes of a packed pixel.
abbrev pub channel : Rgba → ℕ → ℕ
channel p zero = p.r
channel p (suc zero) = p.g
channel p (suc (suc zero)) = p.b
channel p (suc (suc (suc c))) = p.a

-- The block `img'` is `img` with pixels `i` to `i + n - 1` of `f` written from `at` on.
pub record IsPacked (img img' : Memory) (at : ℕ) (f : ℕ → Rgba) (i n : ℕ) : Type 0 where
  pub same_size : img'.size ≡ img.size
  pub before : (k : ℕ) → k < at → img'.cell k ≡ img.cell k
  pub written :
      (j c : ℕ) → j < n → c < 4 → img'.cell (at + (4 * j + c)) ≡ u8 (channel (f (i + j)) c)

-- Four bytes of one pixel.
put_pixel : Memory → ℕ → Rgba → Memory
put_pixel img at p = put (put (put (put img at p.r) (at + 1) p.g) (at + 2) p.b) (at + 3) p.a

put_pixel-channel :
    (img : Memory) (at : ℕ) (p : Rgba) (c : ℕ)
    → c < 4
    → (put_pixel img at p).cell (at + c) ≡ u8 (channel p c)
unfolding put_pixel put
put_pixel-channel img at p c =
    cases4 (λ k. (put_pixel img at p).cell (at + k) ≡ u8 (channel p k)) (ground arith)
      (ground arith) (ground arith) (ground arith) c

put_pixel-before :
    (img : Memory) (at : ℕ) (p : Rgba) (k : ℕ) → k < at → (put_pixel img at p).cell k ≡ img.cell k
unfolding put_pixel put
put_pixel-before img at p k h = ground arith

put_pixel-size : (img : Memory) (at : ℕ) (p : Rgba) → (put_pixel img at p).size ≡ img.size
unfolding put_pixel put
put_pixel-size img at p = ground arith

write_packed-step :
    (img : Memory) (at : ℕ) (f : ℕ → Rgba) (i n : ℕ)
    → at + 4 ≤ img.size
    → write_packed img at (tabulate f i (suc n))
      ≡ write_packed (put_pixel img at (f i)) (at + 4) (tabulate f (i + 1) n)
unfolding write_packed tabulate put_pixel put store
write_packed-step img at f i n h = ground arith

first_or_later :
    (img img1 img' : Memory) (at : ℕ) (f : ℕ → Rgba) (i n : ℕ)
    → img1 ≡ put_pixel img at (f i)
    → IsPacked img1 img' (at + 4) f (i + 1) n
    → (j c : ℕ) → j < suc n
    → c < 4
    → img'.cell (at + (4 * j + c)) ≡ u8 (channel (f (i + j)) c)
first_or_later img img1 img' at f i n e rest zero c h hc =
    let here : at + (4 * zero + c) ≡ at + c = omega arith in
    let same : i + zero ≡ i = omega arith in
    rw (here, same, rest.before (at + c) (omega arith), e) (put_pixel-channel img at (f i) c hc)
first_or_later img img1 img' at f i n e rest (suc j) c h hc =
    let there : at + (4 * suc j + c) ≡ at + 4 + (4 * j + c) = omega arith in
    let same : i + suc j ≡ i + 1 + j = omega arith in
    rw (there, same) (rest.written j c (omega arith) hc)

-- The pixels are written if the block has room for them.
pub write_packed-IsPacked :
    (n : ℕ) (img : Memory) (at : ℕ) (f : ℕ → Rgba) (i : ℕ)
    → at + 4 * n ≤ img.size
    → (img' : Memory) × (write_packed img at (tabulate f i n) ≡ some img')
      × IsPacked img img' at f i n
unfolding write_packed tabulate
write_packed-IsPacked zero img at f i h = (
  img,
  refl,
  record {
    same_size = ground arith;
    before = λ k b. ground arith;
    written = λ j c b hc. absurd (omega arith);
  },
)
write_packed-IsPacked (suc n) img at f i h =
    let img1 = put_pixel img at (f i) in
    let room : at + 4 + 4 * n ≤ img1.size = omega (arith, put_pixel-size img at (f i)) in
    let (img', e, rest) = write_packed-IsPacked n img1 (at + 4) f (i + 1) room in
    (
      img',
      write_packed-step img at f i n (omega arith) ∙ e,
      record {
        same_size = rest.same_size ∙ put_pixel-size img at (f i);
        before = λ k b. rest.before k (omega arith) ∙ put_pixel-before img at (f i) k b;
        written = first_or_later img img1 img' at f i n (λ _. img1) rest;
      },
    )

write_packed-full :
    (img : Memory) (at : ℕ) (f : ℕ → Rgba) (i n : ℕ)
    → img.size < at + 4
    → write_packed img at (tabulate f i (suc n)) ≡ none
unfolding write_packed tabulate put store
write_packed-full img at f i n h = ground arith

-- A pixel that does not fit is a write outside the block.
pub write_packed-overflow :
    (n : ℕ) (img : Memory) (at : ℕ) (f : ℕ → Rgba) (i : ℕ)
    → img.size < at + 4 * n
    → at ≤ img.size
    → write_packed img at (tabulate f i n) ≡ none
write_packed-overflow zero img at f i h b = absurd (omega arith)
write_packed-overflow (suc n) img at f i h b = elim (dec_lt img.size (at + 4)) [
  | yes full ↦ write_packed-full img at f i n full
  | no fits ↦
      let room : at + 4 ≤ img.size = omega arith in
      write_packed-step img at f i n room
      ∙ write_packed-overflow n (put_pixel img at (f i)) (at + 4) f (i + 1)
          (omega (arith, put_pixel-size img at (f i))) (omega (arith, put_pixel-size img at (f i)))
]
