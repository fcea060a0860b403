-- ===== src/Pack/Integers.antt =====
-- ptp-pack.c and libptp-endian.h: integers in a block of bytes, in the byte order of the device.
use chdkptp_jet_tx1_jet_nano.Common.{
  ℕ, zero, suc, ◌+◌, ◌*◌, ◌/◌, ◌%◌, ◌^◌, Option, some, List, [], ◌∷◌, u16, Memory, load, store,
  ◌>>=◌,
}

-- `params->byteorder`.
pub data ByteOrder : Type 0 where
  le : ByteOrder
  be : ByteOrder

-- `dtoh8a(&data[i])` and the wider ones.
unfoldable pub dtoh8a : Memory → ℕ → Option ℕ
dtoh8a m i = load m i

abbrev pub join16 : ByteOrder → ℕ → ℕ → ℕ
join16 le a b = a + b * 2 ^ 8
join16 be a b = a * 2 ^ 8 + b

unfoldable pub dtoh16a : ByteOrder → Memory → ℕ → Option ℕ
dtoh16a o m i = do a ← load m i; b ← load m (i + 1); some (join16 o a b)

abbrev pub join32 : ByteOrder → ℕ → ℕ → ℕ → ℕ → ℕ
join32 le a b c d = a + b * 2 ^ 8 + c * 2 ^ 16 + d * 2 ^ 24
join32 be a b c d = a * 2 ^ 24 + b * 2 ^ 16 + c * 2 ^ 8 + d

unfoldable pub dtoh32a : ByteOrder → Memory → ℕ → Option ℕ
dtoh32a o m i = do
  a ← load m i
  b ← load m (i + 1)
  c ← load m (i + 2)
  d ← load m (i + 3)
  some (join32 o a b c d)

-- `htod8a(&data[i], v)` and the wider ones; `v` is cut to the width.
unfoldable pub htod8a : Memory → ℕ → ℕ → Option Memory
htod8a m i v = store m i v

-- The bytes of a number in the order in which they are stored.
abbrev pub byte16 : ByteOrder → ℕ → ℕ → ℕ
byte16 le v zero = v % 2 ^ 8
byte16 le v (suc k) = v / 2 ^ 8 % 2 ^ 8
byte16 be v zero = v / 2 ^ 8 % 2 ^ 8
byte16 be v (suc k) = v % 2 ^ 8

unfoldable pub htod16a : ByteOrder → Memory → ℕ → ℕ → Option Memory
htod16a o m i v = do m1 ← store m i (byte16 o v 0); store m1 (i + 1) (byte16 o v 1)

abbrev pub byte32 : ByteOrder → ℕ → ℕ → ℕ
byte32 le v zero = v % 2 ^ 8
byte32 le v (suc zero) = v / 2 ^ 8 % 2 ^ 8
byte32 le v (suc (suc zero)) = v / 2 ^ 16 % 2 ^ 8
byte32 le v (suc (suc (suc k))) = v / 2 ^ 24 % 2 ^ 8
byte32 be v zero = v / 2 ^ 24 % 2 ^ 8
byte32 be v (suc zero) = v / 2 ^ 16 % 2 ^ 8
byte32 be v (suc (suc zero)) = v / 2 ^ 8 % 2 ^ 8
byte32 be v (suc (suc (suc k))) = v % 2 ^ 8

unfoldable pub htod32a : ByteOrder → Memory → ℕ → ℕ → Option Memory
htod32a o m i v = do
  m1 ← store m i (byte32 o v 0)
  m2 ← store m1 (i + 1) (byte32 o v 1)
  m3 ← store m2 (i + 2) (byte32 o v 2)
  store m3 (i + 3) (byte32 o v 3)

-- An array with its length in front: the loop with `n` rounds left at round `i`.
module _ (read : ℕ → Option ℕ) where
  unfoldable pub unpack_items : ℕ → ℕ → Option (List ℕ)
  unpack_items zero i = some []
  unpack_items (suc n) i = do v ← read i; vs ← unpack_items n (i + 1); some (v ∷ vs)

-- The offset is a `uint16_t`.
unfoldable pub ptp_unpack_uint32_t_array : ByteOrder → Memory → ℕ → Option (List ℕ)
unfolding dtoh32a unpack_items
ptp_unpack_uint32_t_array o m offset = do
  n ← dtoh32a o m (u16 offset)
  unpack_items (λ i. dtoh32a o m (u16 offset + 4 * (i + 1))) n 0

unfoldable pub ptp_unpack_uint16_t_array : ByteOrder → Memory → ℕ → Option (List ℕ)
unfolding dtoh32a dtoh16a unpack_items
ptp_unpack_uint16_t_array o m offset = do
  n ← dtoh32a o m (u16 offset)
  unpack_items (λ i. dtoh16a o m (u16 offset + 2 * (i + 2))) n 0
