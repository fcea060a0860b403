-- ===== src/Pack/Device.antt =====
-- ptp-pack.c: what a device says of itself and of its stores.
use chdkptp_jet_tx1_jet_nano.Common.{ℕ, ◌+◌, ◌*◌, Option, some, List, length, Memory, ◌>>=◌}
use chdkptp_jet_tx1_jet_nano.Pack.Integers.{
  ByteOrder, dtoh16a, dtoh32a, ptp_unpack_uint16_t_array, ptp_unpack_uint32_t_array,
}
use chdkptp_jet_tx1_jet_nano.Pack.Strings.{Unpacked, ptp_unpack_string}

-- The lengths of the arrays are those of the lists.
pub record DeviceInfo : Type 0 where
  pub standard_version : ℕ
  pub vendor_extension_id : ℕ
  pub vendor_extension_version : ℕ
  pub vendor_extension_desc : Option (List ℕ)
  pub functional_mode : ℕ
  pub operations_supported : List ℕ
  pub events_supported : List ℕ
  pub device_properties_supported : List ℕ
  pub capture_formats : List ℕ
  pub image_formats : List ℕ
  pub manufacturer : Option (List ℕ)
  pub model : Option (List ℕ)
  pub device_version : Option (List ℕ)
  pub serial_number : Option (List ℕ)

-- The bytes of a string of `len` characters, and of an array of 16-bit numbers.
abbrev pub string_size : Unpacked → ℕ
string_size s = s.len * 2 + 1

abbrev pub array_size : List ℕ → ℕ
array_size xs = length xs * 2 + 4

unfoldable pub ptp_unpack_di : ByteOrder → Memory → Option DeviceInfo
unfolding dtoh16a dtoh32a ptp_unpack_string ptp_unpack_uint16_t_array
ptp_unpack_di o m = do
  standard_version ← dtoh16a o m 0
  vendor_extension_id ← dtoh32a o m 2
  vendor_extension_version ← dtoh16a o m 6
  desc ← ptp_unpack_string o m 8
  let total1 = string_size desc
  functional_mode ← dtoh16a o m (8 + total1)
  operations ← ptp_unpack_uint16_t_array o m (10 + total1)
  let total2 = total1 + array_size operations
  events ← ptp_unpack_uint16_t_array o m (10 + total2)
  let total3 = total2 + array_size events
  properties ← ptp_unpack_uint16_t_array o m (10 + total3)
  let total4 = total3 + array_size properties
  captures ← ptp_unpack_uint16_t_array o m (10 + total4)
  let total5 = total4 + array_size captures
  images ← ptp_unpack_uint16_t_array o m (10 + total5)
  let total6 = total5 + array_size images
  manufacturer ← ptp_unpack_string o m (10 + total6)
  let total7 = total6 + string_size manufacturer
  model ← ptp_unpack_string o m (10 + total7)
  let total8 = total7 + string_size model
  device_version ← ptp_unpack_string o m (10 + total8)
  let total9 = total8 + string_size device_version
  serial_number ← ptp_unpack_string o m (10 + total9)
  some (record {
    standard_version = standard_version;
    vendor_extension_id = vendor_extension_id;
    vendor_extension_version = vendor_extension_version;
    vendor_extension_desc = desc.string;
    functional_mode = functional_mode;
    operations_supported = operations;
    events_supported = events;
    device_properties_supported = properties;
    capture_formats = captures;
    image_formats = images;
    manufacturer = manufacturer.string;
    model = model.string;
    device_version = device_version.string;
    serial_number = serial_number.string;
  })

unfoldable pub ptp_unpack_oh : ByteOrder → Memory → Option (List ℕ)
unfolding ptp_unpack_uint32_t_array
ptp_unpack_oh o m = ptp_unpack_uint32_t_array o m 0

unfoldable pub ptp_unpack_sids : ByteOrder → Memory → Option (List ℕ)
unfolding ptp_unpack_uint32_t_array
ptp_unpack_sids o m = ptp_unpack_uint32_t_array o m 0

-- The two 64-bit capacities are not read.
pub record StorageInfo : Type 0 where
  pub storage_type : ℕ
  pub filesystem_type : ℕ
  pub access_capability : ℕ
  pub free_space_in_images : ℕ
  pub storage_description : Option (List ℕ)
  pub volume_label : Option (List ℕ)

unfoldable pub ptp_unpack_si : ByteOrder → Memory → Option StorageInfo
unfolding dtoh16a dtoh32a ptp_unpack_string
ptp_unpack_si o m = do
  storage_type ← dtoh16a o m 0
  filesystem_type ← dtoh16a o m 2
  access_capability ← dtoh16a o m 4
  free_space_in_images ← dtoh32a o m 22
  description ← ptp_unpack_string o m 26
  label ← ptp_unpack_string o m (26 + string_size description)
  some (record {
    storage_type = storage_type;
    filesystem_type = filesystem_type;
    access_capability = access_capability;
    free_space_in_images = free_space_in_images;
    storage_description = description.string;
    volume_label = label.string;
  })
