-- ===== src/Pack/Property.antt =====
-- ptp-pack.c: the value of a device property, and its description.
pub mod RoundTrip
use chdkptp_jet_tx1_jet_nano.Common.{
  ℕ, zero, suc, ◌+◌, ◌*◌, ◌^◌, Option, none, some, Bool, List, [], ◌∷◌, ◌==◌, if◌then◌else◌, length,
  u8, Memory, ◌>>=◌,
}
use chdkptp_jet_tx1_jet_nano.Pack.Integers.{
  ByteOrder, dtoh8a, dtoh16a, dtoh32a, htod8a, htod16a, htod32a,
}
use chdkptp_jet_tx1_jet_nano.Pack.Strings.{Unpacked, ptp_unpack_string, ptp_pack_string}

-- The data types that are handled, `PTP_DTC_...`; a signed number is its bit pattern.
pub data DataType : Type 0 where
  bits8 : DataType
  bits16 : DataType
  bits32 : DataType
  text : DataType
  other : DataType

unfoldable pub data_type : ℕ → DataType
data_type code =
    if code == 0x0001
    then bits8
    else if code == 0x0002
    then bits8
    else if code == 0x0003
    then bits16
    else if code == 0x0004
    then bits16
    else if code == 0x0005
    then bits32
    else if code == 0x0006
    then bits32
    else if code == 0xffff
    then text
    else other

-- What a `void *` value points to; a null string is one of no characters at all.
pub data Value : Type 0 where
  num : ℕ → Value
  str : Option (List ℕ) → Value

-- A value at an offset, and the bytes that it takes; `none` inside is a type that is not handled.
unfoldable pub read_value : ByteOrder → Memory → DataType → ℕ → Option (Option (Value × ℕ))
unfolding dtoh8a dtoh16a dtoh32a ptp_unpack_string
read_value o m bits8 at = dtoh8a m at >>= λ v. some (some (num v, 1))
read_value o m bits16 at = dtoh16a o m at >>= λ v. some (some (num v, 2))
read_value o m bits32 at = dtoh32a o m at >>= λ v. some (some (num v, 4))
read_value o m text at = ptp_unpack_string o m at >>= λ s. some (some (str s.string, s.len * 2 + 1))
read_value o m other at = some none

-- Only the value; `value` stays as it was for a type that is not handled.
unfoldable pub ptp_unpack_dpv : ByteOrder → Memory → ℕ → Option (Option Value)
unfolding read_value data_type
ptp_unpack_dpv o m datatype = read_value o m (data_type datatype) 0 >>= λ r.
    some (elim r [ none ↦ none | some (v, size) ↦ some v ])

-- The bytes of a value, and their number; a type that is not handled gives a null pointer and 0.
-- A value that is not of the type would be read through a pointer of another type.
unfoldable pub pack_num : ByteOrder → (ℕ → Memory) → ℕ → DataType → Option (Option Memory × ℕ)
unfolding htod8a htod16a htod32a
pack_num o fresh v bits8 = htod8a (fresh 1) 0 v >>= λ m. some (some m, 1)
pack_num o fresh v bits16 = htod16a o (fresh 2) 0 v >>= λ m. some (some m, 2)
pack_num o fresh v bits32 = htod32a o (fresh 4) 0 v >>= λ m. some (some m, 4)
pack_num o fresh v text = none
pack_num o fresh v other = some (none, 0)

abbrev pub cleared : ℕ → Memory
cleared n = record { size = n; cell = λ i. 0 }

unfoldable pub pack_str : ByteOrder → Option (List ℕ) → DataType → Option (Option Memory × ℕ)
unfolding ptp_pack_string
pack_str o (some s) text =
    ptp_pack_string o s (cleared (length s * 2 + 3)) 0 >>= λ m. some (some m, length s * 2 + 3)
pack_str o none text = none
pack_str o s bits8 = none
pack_str o s bits16 = none
pack_str o s bits32 = none
pack_str o s other = some (none, 0)

unfoldable pub ptp_pack_dpv :
    ByteOrder → (fresh : ℕ → Memory) → Value → ℕ → Option (Option Memory × ℕ)
unfolding pack_num pack_str data_type
ptp_pack_dpv o fresh (num v) datatype = pack_num o fresh v (data_type datatype)
ptp_pack_dpv o fresh (str s) datatype = pack_str o s (data_type datatype)

-- The constraints on a property's values. A range of strings has its bounds unset.
pub data Form : Type 0 where
  no_form : Form
  unset_range : Form
  range : Value → Value → Value → Form
  enumeration : ℕ → List Value → Form

pub record PropDesc : Type 0 where
  pub device_property_code : ℕ
  pub type_code : ℕ
  pub get_set : ℕ
  pub factory_default_value : Option Value
  pub current_value : Option Value
  pub form_flag : ℕ
  pub form : Form

-- `CTVA` three times.
unfoldable pub unpack_range : ByteOrder → Memory → DataType → ℕ → Option Form
unfolding dtoh8a dtoh16a dtoh32a
unpack_range o m bits8 at = do
  low ← dtoh8a m at
  high ← dtoh8a m (at + 1)
  step ← dtoh8a m (at + 2)
  some (range (num low) (num high) (num step))
unpack_range o m bits16 at = do
  low ← dtoh16a o m at
  high ← dtoh16a o m (at + 2)
  step ← dtoh16a o m (at + 4)
  some (range (num low) (num high) (num step))
unpack_range o m bits32 at = do
  low ← dtoh32a o m at
  high ← dtoh32a o m (at + 4)
  step ← dtoh32a o m (at + 8)
  some (range (num low) (num high) (num step))
unpack_range o m text at = some unset_range
unpack_range o m other at = some unset_range

-- `MCTVA`, and the loop over strings, with `n` rounds left.
unfoldable pub unpack_values : ByteOrder → Memory → DataType → ℕ → ℕ → Option (List Value)
unfolding read_value
unpack_values o m type zero at = some []
unpack_values o m type (suc n) at = read_value o m type at >>= λ r. elim r [
  | none ↦ some []
  | some (v, size) ↦ unpack_values o m type n (at + size) >>= λ vs. some (v ∷ vs)
]

unfoldable pub unpack_enumeration : ByteOrder → Memory → DataType → ℕ → Option Form
unfolding dtoh16a unpack_values
unpack_enumeration o m type at = do
  n ← dtoh16a o m at
  values ← unpack_values o m type n (at + 2)
  some (enumeration n values)

unfoldable pub unpack_form : ByteOrder → Memory → DataType → ℕ → ℕ → Option Form
unfolding unpack_range unpack_enumeration
unpack_form o m type flag at =
    if flag == 0x01
    then unpack_range o m type at
    else if flag == 0x02
    then unpack_enumeration o m type at
    else some no_form

-- The two values, and the bytes that they take.
unfoldable pub unpack_two : ByteOrder → Memory → DataType → ℕ → Option (Option (Value × Value × ℕ))
unfolding read_value
unpack_two o m type at = read_value o m type at >>= λ r. elim r [
  | none ↦ some none
  | some (v, size) ↦ read_value o m type (at + size) >>= λ r'. elim r' [
    | none ↦ some none
    | some (v', size') ↦ some (some (v, v', size + size'))
  ]
]

-- Without values there is no form.
unfoldable pub ptp_unpack_dpd : ByteOrder → Memory → Option PropDesc
unfolding dtoh8a dtoh16a unpack_two unpack_form data_type
ptp_unpack_dpd o m = do
  code ← dtoh16a o m 0
  type ← dtoh16a o m 2
  get_set ← dtoh8a m 4
  two ← unpack_two o m (data_type type) 5
  elim two [
    | none ↦ some (record {
      device_property_code = code;
      type_code = type;
      get_set = get_set;
      factory_default_value = none;
      current_value = none;
      form_flag = 0;
      form = no_form;
    })
    | some (v, v', total) ↦ dtoh8a m (5 + total) >>= λ flag.
        unpack_form o m (data_type type) flag (5 + total + 1) >>= λ form. some (record {
          device_property_code = code;
          type_code = type;
          get_set = get_set;
          factory_default_value = some v;
          current_value = some v';
          form_flag = flag;
          form = form;
        })
  ]
