-- ===== src/Ptp/Buffer/Laws.antt =====
-- What reading through the packet buffer keeps: the bytes, in their order.

use native.Mathlib.Decide.{dec_lt, ℕ_discrete}
use mathlib.Core.List.{append-nil}
use chdkptp_jet_tx1_jet_nano.Common.{
  ℕ, ◌^◌, false, zero, suc, ◌+◌, ◌-◌, ◌≤◌, ◌<◌, ◌≡◌, ◌≢◌, ◌⊎◌, inl, inr, refl, sym, ◌∙◌, ap, ap₂,
  List, [], ◌∷◌, ◌++◌, length, get_or, arith, slice,
}
use chdkptp_jet_tx1_jet_nano.Ptp.Buffer.{PacketBuffer, ptp_transport_read_from_buffer, negative}

-- The bytes that the buffer holds.
abbrev pub held : PacketBuffer → List ℕ
held b = slice b.data_at b.pos b.len

-- An empty buffer starts at its beginning.
abbrev pub IsPacketBuffer : PacketBuffer → Type 0
IsPacketBuffer b = (b.len ≢ 0) ⊎ (b.pos ≡ 0)

pub length-slice : (c : ℕ → ℕ) (i n : ℕ) → length (slice c i n) ≡ n
length-slice c i zero = refl
length-slice c i (suc n) = ap suc (length-slice c (suc i) n)

-- Taking the first bytes leaves the others.
pub slice-split : (c : ℕ → ℕ) (i n k : ℕ) → slice c i (n + k) ≡ slice c i n ++ slice c (i + n) k
slice-split c i zero k =
    let start : i ≡ i + 0 = omega arith in
    let count : 0 + k ≡ k = omega arith in ap₂ (λ t m. slice c t m) start count
slice-split c i (suc n) k =
    let start : suc i + n ≡ i + suc n = omega arith in
    let count : suc n + k ≡ suc (n + k) = omega arith in
    ap (λ m. slice c i m) count
    ∙ ap (λ (l : List ℕ). c i ∷ l)
        (slice-split c (suc i) n k ∙ ap (λ t. slice c (suc i) n ++ slice c t k) start)

shifted : (c : ℕ → ℕ) (i n : ℕ) → slice (λ j. c (suc j)) i n ≡ slice c (suc i) n
shifted c i zero = refl
shifted c i (suc n) = ap (λ (l : List ℕ). c (suc i) ∷ l) (shifted c (suc i) n)

pub slice-get_or : (bs : List ℕ) (c : ℕ → ℕ) → slice (λ i. get_or bs i (c i)) 0 (length bs) ≡ bs
slice-get_or [] c = refl
slice-get_or (x ∷ bs) c =
    ap (λ (l : List ℕ). x ∷ l)
      (sym (shifted (λ i. get_or (x ∷ bs) i (c i)) 0 (length bs))
        ∙ slice-get_or bs (λ i. c (suc i)))

-- Reading from the buffer takes its first bytes, as many as asked for or all.
pub record TakesFirst (b : PacketBuffer) (size : ℕ) (r : PacketBuffer × List ℕ) : Type 0 where
  pub order : held b ≡ r.1 ++ held r.0
  pub taken : (length r.1 ≡ size) ⊎ ((length r.1 < size) × (r.0.len ≡ 0))
  pub valid : IsPacketBuffer r.0

from_empty :
    (b : PacketBuffer) (size : ℕ) → b.len ≡ 0 → ptp_transport_read_from_buffer b size ≡ (b, [])
unfolding ptp_transport_read_from_buffer
from_empty b size e = ground (arith, e)

from_larger :
    (b : PacketBuffer) (size : ℕ)
    → size < b.len
    → ptp_transport_read_from_buffer b size
      ≡ (record b { len = b.len - size; pos = b.pos + size }, slice b.data_at b.pos size)
unfolding ptp_transport_read_from_buffer
from_larger b size h = ground (arith, h)

from_smaller :
    (b : PacketBuffer) (size : ℕ)
    → b.len ≤ size
    → b.len ≢ 0
    → ptp_transport_read_from_buffer b size
      ≡ (record b { len = 0; pos = 0 }, slice b.data_at b.pos b.len)
unfolding ptp_transport_read_from_buffer
from_smaller b size h ne = ground (arith, h)

pub read_from_buffer-TakesFirst :
    (b : PacketBuffer) (size : ℕ)
    → IsPacketBuffer b
    → TakesFirst b size (ptp_transport_read_from_buffer b size)
read_from_buffer-TakesFirst b size v = elim (ℕ_discrete b.len 0) [
  | yes nothing ↦
      rw (from_empty b size nothing)
        record { order = refl; taken = ground (arith, nothing); valid = v }
  | no something ↦ elim (dec_lt size b.len) [
    | yes more ↦ rw (from_larger b size more) record {
      order =
          let all : b.len ≡ size + (b.len - size) = omega arith in
          ap (λ n. slice b.data_at b.pos n) all ∙ slice-split b.data_at b.pos size (b.len - size);
      taken = inl (length-slice b.data_at b.pos size);
      valid = omega arith;
    }
    | no all ↦ rw (from_smaller b size (omega arith) something) record {
      order = sym (append-nil _);
      taken = omega (arith, length-slice b.data_at b.pos b.len);
      valid = inr refl;
    }
  ]
]

pub negative-small : (size : ℕ) → size < 2 ^ 31 → negative size ≡ false
negative-small size small = ground arith
