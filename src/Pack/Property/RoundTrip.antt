-- ===== src/Pack/Property/RoundTrip.antt =====
-- A packed property value is unpacked again.
use chdkptp_jet_tx1_jet_nano.Common.{
  ℕ, ◌/◌, ◌^◌, ◌≤◌, ◌<◌, ◌≡◌, refl, ap, arith, Option, none, some, Memory, load, store, put, ◌>>=◌,
}
use chdkptp_jet_tx1_jet_nano.Pack.Integers.{
  ByteOrder, le, be, dtoh8a, dtoh16a, dtoh32a, htod8a, htod16a, htod32a,
}
use chdkptp_jet_tx1_jet_nano.Pack.Property.{
  DataType, bits8, bits16, bits32, text, other, data_type, num, read_value, pack_num, ptp_pack_dpv,
  ptp_unpack_dpv,
}

pub round_trip8 :
    (m : Memory) (v : ℕ) → 1 ≤ m.size → v < 2 ^ 8 → (htod8a m 0 v >>= λ m'. dtoh8a m' 0) ≡ some v
unfolding htod8a dtoh8a store load put
round_trip8 m v room small = ground arith

round_trip16 :
    (o : ByteOrder) (m : Memory) (v : ℕ)
    → 2 ≤ m.size
    → v < 2 ^ 16
    → (htod16a o m 0 v >>= λ m'. dtoh16a o m' 0) ≡ some v
unfolding htod16a dtoh16a store load put
round_trip16 le m v room small = ground arith
round_trip16 be m v room small = ground arith

round_trip32 :
    (o : ByteOrder) (m : Memory) (v : ℕ)
    → 4 ≤ m.size
    → v < 2 ^ 32
    → (htod32a o m 0 v >>= λ m'. dtoh32a o m' 0) ≡ some v
unfolding htod32a dtoh32a store load put
round_trip32 le m v room small = ground arith
round_trip32 be m v room small = ground arith

-- The numbers that a type can hold.
abbrev pub width : DataType → ℕ
width bits8 = 8
width bits16 = 16
width bits32 = 32
width text = 0
width other = 0

bind_some :
    {A B : Type 0} (o : Option A) (k : A → Option B) (b : B)
    → (o >>= k) ≡ some b
    → (a : A) × (o ≡ some a) × (k a ≡ some b)
bind_some none k b e = cc
bind_some (some a) k b e = (a, refl, e)

-- A number that its type can hold.
num_round_trip :
    (o : ByteOrder) (fresh : ℕ → Memory) (type : DataType) (v : ℕ)
    → ((n : ℕ) → (fresh n).size ≡ n)
    → 0 < width type
    → v < 2 ^ width type
    → (m : Memory) × (pack_num o fresh v type ≡ some (some m, width type / 8))
      × (read_value o m type 0 ≡ some (some (num v, width type / 8)))
unfolding pack_num read_value
num_round_trip o fresh bits8 v exact some_width small =
    let (m, e, k) =
      bind_some (htod8a (fresh 1) 0 v) _ v
        (round_trip8 (fresh 1) v (omega (arith, exact 1)) small) in
    (m, ap (λ r. r >>= λ m. some (some m, 1)) e, ap (λ r. r >>= λ v. some (some (num v, 1))) k)
num_round_trip o fresh bits16 v exact some_width small =
    let (m, e, k) =
      bind_some (htod16a o (fresh 2) 0 v) _ v
        (round_trip16 o (fresh 2) v (omega (arith, exact 2)) small) in
    (m, ap (λ r. r >>= λ m. some (some m, 2)) e, ap (λ r. r >>= λ v. some (some (num v, 2))) k)
num_round_trip o fresh bits32 v exact some_width small =
    let (m, e, k) =
      bind_some (htod32a o (fresh 4) 0 v) _ v
        (round_trip32 o (fresh 4) v (omega (arith, exact 4)) small) in
    (m, ap (λ r. r >>= λ m. some (some m, 4)) e, ap (λ r. r >>= λ v. some (some (num v, 4))) k)
num_round_trip o fresh text v exact some_width small = absurd (omega arith)
num_round_trip o fresh other v exact some_width small = absurd (omega arith)

-- A number of 8, 16 or 32 bits, packed as a value of a data type of that width into a block of that
-- size, takes as many bytes and is unpacked again.
pub unpack_dpv-pack_dpv :
    (o : ByteOrder) (fresh : ℕ → Memory) (datatype v : ℕ)
    → ((n : ℕ) → (fresh n).size ≡ n)
    → 0 < width (data_type datatype)
    → v < 2 ^ width (data_type datatype)
    → (m : Memory) × (ptp_pack_dpv o fresh (num v) datatype
        ≡ some (some m, width (data_type datatype) / 8))
      × (ptp_unpack_dpv o m datatype ≡ some (some (num v)))
unfolding ptp_pack_dpv ptp_unpack_dpv
unpack_dpv-pack_dpv o fresh datatype v exact some_width small =
    let (m, e, k) = num_round_trip o fresh (data_type datatype) v exact some_width small in
    (m, e, ap (λ r. r >>= λ r. some (elim r [ none ↦ none | some (v, size) ↦ some v ])) k)
