-- ===== src/Pack/Event.antt =====
-- ptp-pack.c: events, and the folder entries of Canon cameras.
use chdkptp_jet_tx1_jet_nano.Common.{
  ℕ, zero, suc, ◌+◌, ◌*◌, Option, none, some, List, [], ◌∷◌, leb, if◌then◌else◌, Memory, ◌>>=◌,
}
use chdkptp_jet_tx1_jet_nano.Pack.Integers.{ByteOrder, dtoh8a, dtoh16a, dtoh32a}

-- `PTPUSBEventContainer`.
pub record EventContainer : Type 0 where
  pub length : ℕ
  pub type : ℕ
  pub code : ℕ
  pub trans_id : ℕ
  pub param1 : ℕ
  pub param2 : ℕ
  pub param3 : ℕ

-- A parameter that the length of the event covers, or 0.
unfoldable pub param_at : ByteOrder → Memory → (length at : ℕ) → Option ℕ
unfolding dtoh32a
param_at o m length at = if leb (at + 4) length then dtoh32a o m at else some 0

-- A null pointer leaves the event as it was.
unfoldable pub ptp_unpack_ec : ByteOrder → Option Memory → EventContainer → Option EventContainer
unfolding dtoh16a dtoh32a param_at
ptp_unpack_ec o none ec = some ec
ptp_unpack_ec o (some m) ec = do
  length ← dtoh32a o m 0
  type ← dtoh16a o m 4
  code ← dtoh16a o m 6
  trans_id ← dtoh32a o m 8
  param1 ← param_at o m length 12
  param2 ← param_at o m length 16
  param3 ← param_at o m length 20
  some (record {
    length = length;
    type = type;
    code = code;
    trans_id = trans_id;
    param1 = param1;
    param2 = param2;
    param3 = param3;
  })

pub record CanonFolderEntry : Type 0 where
  pub object_handle : ℕ
  pub object_format_code : ℕ
  pub flags : ℕ
  pub object_size : ℕ
  pub time : ℕ
  pub filename : List ℕ

-- The 13 characters of the name, with `n` rounds left.
unfoldable pub unpack_filename : Memory → ℕ → ℕ → Option (List ℕ)
unfolding dtoh8a
unpack_filename m zero i = some []
unpack_filename m (suc n) i = do
  c ← dtoh8a m (15 + i)
  cs ← unpack_filename m n (i + 1)
  some (c ∷ cs)

unfoldable pub ptp_unpack_canon_fe :
    ByteOrder → Option Memory → CanonFolderEntry → Option CanonFolderEntry
unfolding dtoh8a dtoh16a dtoh32a unpack_filename
ptp_unpack_canon_fe o none fe = some fe
ptp_unpack_canon_fe o (some m) fe = do
  object_handle ← dtoh32a o m 0
  object_format_code ← dtoh16a o m 4
  flags ← dtoh8a m 6
  object_size ← dtoh32a o m 7
  time ← dtoh32a o m 11
  filename ← unpack_filename m 13 0
  some (record {
    object_handle = object_handle;
    object_format_code = object_format_code;
    flags = flags;
    object_size = object_size;
    time = time;
    filename = filename;
  })

-- The events are cleared by `calloc`.
abbrev pub nikon_event : ℕ → ℕ → EventContainer
nikon_event code param = record {
  length = 0;
  type = 0;
  code = code;
  trans_id = 0;
  param1 = param;
  param2 = 0;
  param3 = 0;
}

unfoldable pub nikon_events : ByteOrder → Memory → ℕ → ℕ → Option (List EventContainer)
unfolding dtoh16a dtoh32a
nikon_events o m zero i = some []
nikon_events o m (suc n) i = do
  code ← dtoh16a o m (2 + 6 * i)
  param ← dtoh32a o m (4 + 6 * i)
  rest ← nikon_events o m n (i + 1)
  some (nikon_event code param ∷ rest)

unfoldable pub ptp_nikon_unpack_ec : ByteOrder → Memory → Option (List EventContainer)
unfolding dtoh16a nikon_events
ptp_nikon_unpack_ec o m = do n ← dtoh16a o m 0; nikon_events o m n 0
