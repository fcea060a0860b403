-- ===== src/Pack/Tests.antt =====
-- The theorems on packing at inputs that meet their conditions.
use chdkptp_jet_tx1_jet_nano.Common.{
  ℕ, zero, suc, ◌+◌, ◌/◌, ◌<◌, ◌≡◌, refl, arith, some, none, List, [], ◌∷◌, ◌++◌, length, Memory,
}
use chdkptp_jet_tx1_jet_nano.Pack.Integers.{le, be}
use chdkptp_jet_tx1_jet_nano.Pack.Strings.{ptp_pack_string, ptp_unpack_string}
use chdkptp_jet_tx1_jet_nano.Pack.Strings.RoundTrip.{
  AllBytes, unpack_string-pack_string, unpack_string-pack_string_255,
}
use chdkptp_jet_tx1_jet_nano.Pack.Property.{data_type, num, ptp_pack_dpv, ptp_unpack_dpv}
use chdkptp_jet_tx1_jet_nano.Pack.Property.RoundTrip.{width, unpack_dpv-pack_dpv}

abbrev block : ℕ → Memory
block n = record { size = n; cell = λ i. 1 }

-- "DCIM"
abbrev name : List ℕ
name = 68 ∷ 67 ∷ 73 ∷ 77 ∷ []

unpack_string_example :
    (m' : Memory) × (ptp_pack_string be name (block 20) 3 ≡ some m')
    × (m'.size ≡ 20)
    × ((j : ℕ) → j < 3 → m'.cell j ≡ 1)
    × (ptp_unpack_string be m' 3
        ≡ some (record { string = some (name ++ 0 ∷ []); len = length name + 1 }))
unpack_string_example =
    unpack_string-pack_string be name (block 20) 3 (omega arith) (omega arith) (omega arith)
      (omega arith)

abbrev repeat : ℕ → List ℕ
repeat zero = []
repeat (suc n) = 65 ∷ repeat n

repeat-bytes : (n : ℕ) → AllBytes (repeat n)
repeat-bytes zero = tt
repeat-bytes (suc n) = (omega arith, repeat-bytes n)

unpack_string_255_example :
    (m' : Memory) × (ptp_pack_string le (repeat 255) (block 600) 52 ≡ some m')
    × (ptp_unpack_string le m' 52 ≡ some (record { string = none; len = 0 }))
unpack_string_255_example =
    unpack_string-pack_string_255 le (repeat 255) (block 600) 52 (repeat-bytes 255) refl
      (omega arith) (omega arith)

unpack_dpv_example :
    (m : Memory) × (ptp_pack_dpv le block (num 70000) 6 ≡ some (some m, width (data_type 6) / 8))
    × (ptp_unpack_dpv le m 6 ≡ some (some (num 70000)))
unfolding data_type
unpack_dpv_example = unpack_dpv-pack_dpv le block 6 70000 (λ n. refl) (omega arith) (omega arith)
