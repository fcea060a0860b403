-- ===== src/Pack/Strings.antt =====
-- ptp-pack.c: strings, a count of characters with the closing zero, and 16 bits for each.
pub mod RoundTrip
use chdkptp_jet_tx1_jet_nano.Common.{
  ℕ, zero, suc, ◌+◌, ◌*◌, ◌%◌, ◌^◌, Option, none, some, List, [], ◌∷◌, ◌==◌, ltb, if◌then◌else◌, u8,
  u16, length, Memory, ◌>>=◌,
}
use chdkptp_jet_tx1_jet_nano.Pack.Integers.{ByteOrder, dtoh8a, dtoh16a, htod8a, htod16a}

abbrev pub ptp_maxstrlen : ℕ
ptp_maxstrlen = 255

-- What `ptp_unpack_string` returns: the block of characters, or a null pointer, and the count.
pub record Unpacked : Type 0 where
  pub string : Option (List ℕ)
  pub len : ℕ

-- The loop at character `i` with `n` rounds left.
unfoldable pub unpack_chars : ByteOrder → Memory → ℕ → ℕ → ℕ → Option (List ℕ)
unfolding dtoh16a
unpack_chars o m offset zero i = some []
unpack_chars o m offset (suc n) i = do
  c ← dtoh16a o m (offset + i * 2 + 1)
  cs ← unpack_chars o m offset n (i + 1)
  some (u8 c ∷ cs)

-- `string[*len-1]=0`.
unfoldable pub close : List ℕ → List ℕ
close [] = []
close (c ∷ []) = 0 ∷ []
close (c ∷ d ∷ cs) = c ∷ close (d ∷ cs)

-- A count is a byte, so that the limit of the loop, PTP_MAXSTRLEN, is never below it.
unfoldable pub ptp_unpack_string : ByteOrder → Memory → ℕ → Option Unpacked
unfolding dtoh8a unpack_chars close
ptp_unpack_string o m offset = do
  len ← dtoh8a m (u16 offset)
  cs ← unpack_chars o m (u16 offset) len 0
  some (record { string = if len == 0 then none else some (close cs); len = len })

-- The loop over the characters that are left; a `char` is unsigned on ARM.
unfoldable pub pack_chars : ByteOrder → Memory → ℕ → ℕ → List ℕ → ℕ → Option Memory
unfolding htod16a
pack_chars o m offset i cs zero = some m
pack_chars o m offset i [] (suc n) = some m
pack_chars o m offset i (c ∷ cs) (suc n) = do
  m1 ← htod16a o m (offset + i * 2 + 1) c
  pack_chars o m1 offset (i + 1) cs n

-- A C string is the list of its characters; the length is cut to a byte. The limit is never below
-- that.
unfoldable pub ptp_pack_string : ByteOrder → List ℕ → Memory → ℕ → Option Memory
unfolding htod8a pack_chars
ptp_pack_string o string m offset = do
  let len = u8 (length string)
  m1 ← htod8a m (u16 offset) (len + 1)
  pack_chars o m1 (u16 offset) 0 string len
