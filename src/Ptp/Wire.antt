-- ===== src/Ptp/Wire.antt =====
-- ptp-pack.c and libptp-endian.h: integers in the device's byte order, which chdkptp.c sets to
-- little endian (`PTP_DL_LE`), as bytes.
use chdkptp_jet_tx1_jet_nano.Common.{ℕ, ◌+◌, ◌*◌, ◌/◌, ◌%◌, List, [], ◌∷◌, get_or}

-- `htod16` and `htod32` as the bytes of the field.
abbrev pub htod16 : ℕ → List ℕ
htod16 v = v % 256 ∷ v / 256 % 256 ∷ []

abbrev pub htod32 : ℕ → List ℕ
htod32 v = v % 256 ∷ v / 256 % 256 ∷ v / 65536 % 256 ∷ v / 16777216 % 256 ∷ []

-- `dtoh16` and `dtoh32` of the field at an offset; a field beyond the bytes that were read holds
-- the zeros of `PTP_CNT_INIT`.
abbrev pub dtoh16 : List ℕ → ℕ → ℕ
dtoh16 bs i = get_or bs i 0 + get_or bs (i + 1) 0 * 256

abbrev pub dtoh32 : List ℕ → ℕ → ℕ
dtoh32 bs i =
    get_or bs i 0
    + get_or bs (i + 1) 0 * 256
    + get_or bs (i + 2) 0 * 65536
    + get_or bs (i + 3) 0 * 16777216
