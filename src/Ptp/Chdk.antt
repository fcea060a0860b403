-- ===== src/Ptp/Chdk.antt =====
-- ptp.c: CHDK's own operations, all under one operation code. An `int` comes in as the 32-bit number
-- that it is stored as; a C string as its bytes, without the zero.
use chdkptp_jet_tx1_jet_nano.Common.{
  ℕ, Option, none, some, List, [], ◌∷◌, ◌++◌, length, take, not, ◌==◌, if◌then◌else◌, bit_or, Bool,
  u32, ltb, ◌+◌, ◌>>=◌,
}
use chdkptp_jet_tx1_jet_nano.Ptp.Codes.{rc_ok, error_badparam, error_io, error_nomem}
use chdkptp_jet_tx1_jet_nano.Ptp.Container.{Container, cnt_init}
use chdkptp_jet_tx1_jet_nano.Ptp.Wire.{htod32}
use chdkptp_jet_tx1_jet_nano.Ptp.Transaction.{
  Session, Layer, no_data, send_data, get_data, ptp_transaction, ptp_getdata_transaction,
}

-- A container of the operation `PTP_OC_CHDK`, whose first parameter is the command.
abbrev pub chdk : ℕ → ℕ → Container
chdk command nparam = record cnt_init { code = 0x9999; param1 = command; nparam = nparam }

-- `ptp_chdk_rc_chunk`.
pub record RcChunk : Type 0 where
  pub bytes : List ℕ
  pub size : ℕ
  pub last : Bool
  pub offset : ℕ

-- `ptp_chdk_script_msg`.
pub record ScriptMsg : Type 0 where
  pub kind : ℕ
  pub subtype : ℕ
  pub script_id : ℕ
  pub size : ℕ
  pub bytes : List ℕ

module _ {S : Type 0} (layer : Layer S) where
  unfoldable pub ptp_chdk_get_memory : Session S → ℕ → ℕ → ℕ → Session S × ℕ × Option (List ℕ)
  ptp_chdk_get_memory params start num flags =
      let (p, reply) =
        ptp_transaction layer params
          (record (chdk 1 4) { param2 = start; param3 = num; param4 = flags }) get_data in
      (p, reply.ret, if reply.ret == rc_ok then some reply.bytes else none)

  unfoldable pub ptp_chdk_set_memory_long : Session S → ℕ → ℕ → Session S × ℕ
  ptp_chdk_set_memory_long params addr val =
      let (p, reply) =
        ptp_transaction layer params (record (chdk 2 3) { param2 = addr; param3 = 4 })
          (send_data (htod32 val)) in
      (p, reply.ret)

  -- The size of the block for an upload; the lengths and their sum are 32 bits wide.
  unfoldable pub upload_len : List ℕ → List ℕ → ℕ
  upload_len remote_fn contents = u32 (4 + u32 (length remote_fn) + u32 (length contents))

  -- The data phase of an upload: the length of the name, the name, and the file. `none` is a write
  -- over the end of the block.
  unfoldable pub upload_data : List ℕ → List ℕ → Option (List ℕ)
  unfolding upload_len
  upload_data remote_fn contents =
      let bytes =
        htod32 (u32 (length remote_fn))
        ++ take (u32 (length remote_fn)) remote_fn
        ++ take (u32 (length contents)) contents in
      if ltb (upload_len remote_fn contents) (length bytes) then none else some bytes

  -- The file is `none` if it cannot be opened; otherwise fread gets what ftell counted. `has_room` is
  -- whether malloc succeeds.
  unfoldable pub ptp_chdk_upload :
      (has_room : ℕ → Bool) → Session S → List ℕ → Option (List ℕ) → Option (Session S × ℕ)
  unfolding upload_len upload_data
  ptp_chdk_upload has_room params remote_fn none = some (params, error_io)
  ptp_chdk_upload has_room params remote_fn (some contents) =
      if not (has_room (upload_len remote_fn contents)) then some (params, error_nomem) else (do
        bytes ← upload_data remote_fn contents
        let (p, reply) = ptp_transaction layer params (chdk 5 1) (send_data bytes)
        some (p, reply.ret))

  -- `receive` is the data phase that writes to the file.
  unfoldable pub ptp_chdk_download :
      (Session S → Container → S × ℕ) → Session S → List ℕ → Session S × ℕ
  ptp_chdk_download receive params remote_fn =
      let (p, reply) = ptp_transaction layer params (chdk 4 2) (send_data remote_fn) in
      let (p', ret, ptp) = ptp_getdata_transaction layer receive p (chdk 6 1) in
      if not (reply.ret == rc_ok) then (p, reply.ret) else (p', ret)

  unfoldable pub ptp_chdk_rcisready : Session S → Session S × ℕ × ℕ × ℕ
  ptp_chdk_rcisready params =
      let (p, reply) = ptp_transaction layer params (chdk 13 1) no_data in
      (p, reply.ret, reply.ptp.param1, reply.ptp.param2)

  unfoldable pub ptp_chdk_rcgetchunk : Session S → ℕ → Session S × ℕ × RcChunk
  ptp_chdk_rcgetchunk params fmt =
      let (p, reply) =
        ptp_transaction layer params (record (chdk 14 2) { param2 = fmt }) get_data in
      (
        p,
        reply.ret,
        record {
          bytes = reply.bytes;
          size = reply.ptp.param1;
          last = reply.ptp.param2 == 0;
          offset = reply.ptp.param3;
        },
      )

  -- The script's identifier and status, 0 and 0 on failure. `PTP_CHDK_SL_LUA` is 0; the script goes
  -- out with its final zero.
  unfoldable pub ptp_chdk_exec_lua : Session S → List ℕ → ℕ → Session S × ℕ × ℕ × ℕ
  ptp_chdk_exec_lua params script flags =
      let (p, reply) =
        ptp_transaction layer params (record (chdk 7 2) { param2 = bit_or 0 flags })
          (send_data (script ++ (0 ∷ []))) in
      if not (reply.ret == rc_ok)
      then (p, reply.ret, 0, 0)
      else (p, reply.ret, reply.ptp.param1, reply.ptp.param2)

  unfoldable pub ptp_chdk_get_version : Session S → Session S × ℕ × ℕ × ℕ
  ptp_chdk_get_version params =
      let (p, reply) = ptp_transaction layer params (chdk 0 1) no_data in
      (p, reply.ret, reply.ptp.param1, reply.ptp.param2)

  unfoldable pub ptp_chdk_get_script_status : Session S → Session S × ℕ × ℕ
  ptp_chdk_get_script_status params =
      let (p, reply) = ptp_transaction layer params (chdk 8 1) no_data in
      (p, reply.ret, reply.ptp.param1)

  unfoldable pub ptp_chdk_get_script_support : Session S → Session S × ℕ × ℕ
  ptp_chdk_get_script_support params =
      let (p, reply) = ptp_transaction layer params (chdk 9 1) no_data in
      (p, reply.ret, reply.ptp.param1)

  unfoldable pub ptp_chdk_write_script_msg : Session S → List ℕ → ℕ → Session S × ℕ × ℕ
  ptp_chdk_write_script_msg params message target_script_id =
      let (p, reply) =
        ptp_transaction layer params (record (chdk 11 2) { param2 = target_script_id })
          (send_data message) in
      if length message == 0
      then (params, error_badparam, 0)
      else if not (reply.ret == rc_ok)
      then (p, reply.ret, 0)
      else (p, reply.ret, reply.ptp.param1)

  -- The bytes of the message are copied by the size that the response gives: `beyond` is what stands
  -- in memory after the data received.
  unfoldable pub ptp_chdk_read_script_msg : List ℕ → Session S → Session S × ℕ × Option ScriptMsg
  ptp_chdk_read_script_msg beyond params =
      let (p, reply) = ptp_transaction layer params (chdk 10 1) get_data in
      if not (reply.ret == rc_ok) then (p, reply.ret, none) else (
        p,
        reply.ret,
        some (record {
          kind = reply.ptp.param1;
          subtype = reply.ptp.param2;
          script_id = reply.ptp.param3;
          size = reply.ptp.param4;
          bytes = take reply.ptp.param4 (reply.bytes ++ beyond) ++ (0 ∷ []);
        }),
      )

  unfoldable pub ptp_chdk_get_live_data : Session S → ℕ → Session S × ℕ × Option (List ℕ × ℕ)
  ptp_chdk_get_live_data params flags =
      let (p, reply) =
        ptp_transaction layer params (record (chdk 12 2) { param2 = flags }) get_data in
      if not (reply.ret == rc_ok)
      then (p, reply.ret, none)
      else (p, reply.ret, some (reply.bytes, reply.ptp.param1))

  -- The result is `none` where the source leaves `*ret` alone.
  unfoldable pub ptp_chdk_call_function : Session S → List ℕ → Session S × ℕ × Option ℕ
  ptp_chdk_call_function params args =
      let (p, reply) = ptp_transaction layer params (chdk 3 1) (send_data args) in
      if not (reply.ret == rc_ok)
      then (p, reply.ret, none)
      else (p, reply.ret, some reply.ptp.param1)
