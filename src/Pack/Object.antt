-- ===== src/Pack/Object.antt =====
-- ptp-pack.c: the description of an object.
use chdkptp_jet_tx1_jet_nano.Common.{
  ℕ, ◌+◌, ◌*◌, Option, none, some, List, ltb, if◌then◌else◌, u8, length, take, drop, Memory, ◌>>=◌,
}
use chdkptp_jet_tx1_jet_nano.Pack.Integers.{ByteOrder, dtoh16a, dtoh32a, htod16a, htod32a}
use chdkptp_jet_tx1_jet_nano.Pack.Strings.{ptp_unpack_string, ptp_pack_string}

-- The numbers of `PTPObjectInfo`.
pub record ObjectNumbers : Type 0 where
  pub storage_id : ℕ
  pub object_format : ℕ
  pub protection_status : ℕ
  pub object_compressed_size : ℕ
  pub thumb_format : ℕ
  pub thumb_compressed_size : ℕ
  pub thumb_pix_width : ℕ
  pub thumb_pix_height : ℕ
  pub image_pix_width : ℕ
  pub image_pix_height : ℕ
  pub image_bit_depth : ℕ
  pub parent_object : ℕ
  pub association_type : ℕ
  pub association_desc : ℕ
  pub sequence_number : ℕ

-- The calls in the order of the code, for the 53 bytes before the name.
unfoldable pub pack_numbers : ByteOrder → ObjectNumbers → Memory → Option Memory
unfolding htod16a htod32a
pack_numbers o oi m = do
  m1 ← htod32a o m 0 oi.storage_id
  m2 ← htod16a o m1 4 oi.object_format
  m3 ← htod16a o m2 6 oi.protection_status
  m4 ← htod32a o m3 8 oi.object_compressed_size
  m5 ← htod16a o m4 12 oi.thumb_format
  m6 ← htod32a o m5 14 oi.thumb_compressed_size
  m7 ← htod32a o m6 18 oi.thumb_pix_width
  m8 ← htod32a o m7 22 oi.thumb_pix_height
  m9 ← htod32a o m8 26 oi.image_pix_width
  m10 ← htod32a o m9 30 oi.image_pix_height
  m11 ← htod32a o m10 34 oi.image_bit_depth
  m12 ← htod32a o m11 38 oi.parent_object
  m13 ← htod16a o m12 42 oi.association_type
  m14 ← htod32a o m13 44 oi.association_desc
  htod32a o m14 48 oi.sequence_number

unfoldable pub unpack_numbers : ByteOrder → Memory → Option ObjectNumbers
unfolding dtoh16a dtoh32a
unpack_numbers o m = do
  storage_id ← dtoh32a o m 0
  object_format ← dtoh16a o m 4
  protection_status ← dtoh16a o m 6
  object_compressed_size ← dtoh32a o m 8
  thumb_format ← dtoh16a o m 12
  thumb_compressed_size ← dtoh32a o m 14
  thumb_pix_width ← dtoh32a o m 18
  thumb_pix_height ← dtoh32a o m 22
  image_pix_width ← dtoh32a o m 26
  image_pix_height ← dtoh32a o m 30
  image_bit_depth ← dtoh32a o m 34
  parent_object ← dtoh32a o m 38
  association_type ← dtoh16a o m 42
  association_desc ← dtoh32a o m 44
  sequence_number ← dtoh32a o m 48
  some (record {
    storage_id = storage_id;
    object_format = object_format;
    protection_status = protection_status;
    object_compressed_size = object_compressed_size;
    thumb_format = thumb_format;
    thumb_compressed_size = thumb_compressed_size;
    thumb_pix_width = thumb_pix_width;
    thumb_pix_height = thumb_pix_height;
    image_pix_width = image_pix_width;
    image_pix_height = image_pix_height;
    image_bit_depth = image_bit_depth;
    parent_object = parent_object;
    association_type = association_type;
    association_desc = association_desc;
    sequence_number = sequence_number;
  })

-- The block is cleared, and the length of the dataset is returned with it. The date that would
-- follow is compiled out.
unfoldable pub ptp_pack_oi : ByteOrder → ObjectNumbers → List ℕ → Option (Memory × ℕ)
unfolding pack_numbers ptp_pack_string
ptp_pack_oi o oi filename = do
  let block : Memory = record { size = 53 + (length filename + 1) * 2 + 4; cell = λ i. 0 }
  m1 ← pack_numbers o oi block
  m2 ← ptp_pack_string o filename m1 52
  some (m2, 53 + (u8 (length filename) + 1) * 2 + 1 * 4)

-- The fields of `struct tm` that are set, as `atoi` gives them, before the shifts of year and month.
pub record Date : Type 0 where
  pub year : ℕ
  pub mon : ℕ
  pub mday : ℕ
  pub hour : ℕ
  pub min : ℕ
  pub sec : ℕ

pub record ObjectInfo : Type 0 where
  pub numbers : ObjectNumbers
  pub filename : Option (List ℕ)
  pub capture_date : Option ℕ
  pub modification_date : Option ℕ

-- `atoi` and `mktime` of the C library; the shifts by 1900 and by 1 are those of `mktime` here.
module _ (atoi : List ℕ → ℕ) (mktime : Date → ℕ) where
  unfoldable pub date_of : List ℕ → Date
  date_of s = record {
    year = atoi (take 4 s);
    mon = atoi (take 2 (drop 4 s));
    mday = atoi (take 2 (drop 6 s));
    hour = atoi (take 2 (drop 9 s));
    min = atoi (take 2 (drop 11 s));
    sec = atoi (take 2 (drop 13 s));
  }

  -- A time is set if there are more than 15 characters; else the field keeps its old value.
  abbrev pub time_of : Option (List ℕ) → ℕ → Option ℕ
  time_of none len = none
  time_of (some s) len = if ltb 15 len then some (mktime (date_of s)) else none

  unfoldable pub ptp_unpack_oi : ByteOrder → Memory → Option ObjectInfo
  unfolding unpack_numbers ptp_unpack_string date_of
  ptp_unpack_oi o m = do
    numbers ← unpack_numbers o m
    filename ← ptp_unpack_string o m 52
    capture ← ptp_unpack_string o m (52 + filename.len * 2 + 1)
    modification ← ptp_unpack_string o m (52 + filename.len * 2 + capture.len * 2 + 2)
    some (record {
      numbers = numbers;
      filename = filename.string;
      capture_date = time_of capture.string capture.len;
      modification_date = time_of modification.string modification.len;
    })
