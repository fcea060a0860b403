-- ===== src/Ptp/Operations.antt =====
-- ptp.c: the operations of the PTP standard, each one transaction. The data that an operation
-- unpacks is passed on as the bytes received, `none` where the source does not unpack it.
pub mod Laws
use chdkptp_jet_tx1_jet_nano.Common.{ℕ, Option, none, some, List, [], ◌∷◌, ◌==◌, if◌then◌else◌}
use chdkptp_jet_tx1_jet_nano.Ptp.Codes.{rc_ok}
use chdkptp_jet_tx1_jet_nano.Ptp.Container.{Container, cnt_init}
use chdkptp_jet_tx1_jet_nano.Ptp.Transaction.{
  Session, Layer, Phase, no_data, send_data, get_data, Reply, ptp_transaction,
}

module _ {S : Type 0} (layer : Layer S) where
  unfoldable pub ptp_getdeviceinfo : Session S → Session S × ℕ × Option (List ℕ)
  ptp_getdeviceinfo params =
      let (p, reply) =
        ptp_transaction layer params (record cnt_init { code = 0x1001; nparam = 0 }) get_data in
      (p, reply.ret, if reply.ret == rc_ok then some reply.bytes else none)

  unfoldable pub ptp_closesession : Session S → Session S × ℕ
  ptp_closesession params =
      let (p, reply) =
        ptp_transaction layer params (record cnt_init { code = 0x1003; nparam = 0 }) no_data in
      (p, reply.ret)

  unfoldable pub ptp_getstorageids : Session S → Session S × ℕ × Option (List ℕ)
  ptp_getstorageids params =
      let (p, reply) =
        ptp_transaction layer params (record cnt_init { code = 0x1004; nparam = 0 }) get_data in
      (p, reply.ret, if reply.ret == rc_ok then some reply.bytes else none)

  unfoldable pub ptp_getstorageinfo : Session S → ℕ → Session S × ℕ × Option (List ℕ)
  ptp_getstorageinfo params storageid =
      let (p, reply) =
        ptp_transaction layer params
          (record cnt_init { code = 0x1005; param1 = storageid; nparam = 1 }) get_data in
      (p, reply.ret, if reply.ret == rc_ok then some reply.bytes else none)

  unfoldable pub ptp_getobjecthandles : Session S → ℕ → ℕ → ℕ → Session S × ℕ × Option (List ℕ)
  ptp_getobjecthandles params storage objectformatcode association =
      let (p, reply) =
        ptp_transaction layer params
          (record cnt_init {
            code = 0x1007;
            param1 = storage;
            param2 = objectformatcode;
            param3 = association;
            nparam = 3;
          })
          get_data in
      (p, reply.ret, if reply.ret == rc_ok then some reply.bytes else none)

  unfoldable pub ptp_getobjectinfo : Session S → ℕ → Session S × ℕ × Option (List ℕ)
  ptp_getobjectinfo params handle =
      let (p, reply) =
        ptp_transaction layer params
          (record cnt_init { code = 0x1008; param1 = handle; nparam = 1 }) get_data in
      (p, reply.ret, if reply.ret == rc_ok then some reply.bytes else none)

  unfoldable pub ptp_getobject : Session S → ℕ → Session S × ℕ × List ℕ
  ptp_getobject params handle =
      let (p, reply) =
        ptp_transaction layer params
          (record cnt_init { code = 0x1009; param1 = handle; nparam = 1 }) get_data in
      (p, reply.ret, reply.bytes)

  unfoldable pub ptp_getthumb : Session S → ℕ → Session S × ℕ × List ℕ
  ptp_getthumb params handle =
      let (p, reply) =
        ptp_transaction layer params
          (record cnt_init { code = 0x100a; param1 = handle; nparam = 1 }) get_data in
      (p, reply.ret, reply.bytes)

  unfoldable pub ptp_deleteobject : Session S → ℕ → ℕ → Session S × ℕ
  ptp_deleteobject params handle ofc =
      let (p, reply) =
        ptp_transaction layer params
          (record cnt_init { code = 0x100b; param1 = handle; param2 = ofc; nparam = 2 }) no_data in
      (p, reply.ret)

  unfoldable pub ptp_sendobject : Session S → List ℕ → Session S × ℕ
  ptp_sendobject params object =
      let (p, reply) =
        ptp_transaction layer params (record cnt_init { code = 0x100d; nparam = 0 })
          (send_data object) in
      (p, reply.ret)

  unfoldable pub ptp_initiatecapture : Session S → ℕ → ℕ → Session S × ℕ
  ptp_initiatecapture params storageid ofc =
      let (p, reply) =
        ptp_transaction layer params
          (record cnt_init { code = 0x100e; param1 = storageid; param2 = ofc; nparam = 2 })
          no_data in
      (p, reply.ret)

  unfoldable pub ptp_getdevicepropdesc : Session S → ℕ → Session S × ℕ × Option (List ℕ)
  ptp_getdevicepropdesc params propcode =
      let (p, reply) =
        ptp_transaction layer params
          (record cnt_init { code = 0x1014; param1 = propcode; nparam = 1 }) get_data in
      (p, reply.ret, if reply.ret == rc_ok then some reply.bytes else none)

  unfoldable pub ptp_getdevicepropvalue : Session S → ℕ → Session S × ℕ × Option (List ℕ)
  ptp_getdevicepropvalue params propcode =
      let (p, reply) =
        ptp_transaction layer params
          (record cnt_init { code = 0x1015; param1 = propcode; nparam = 1 }) get_data in
      (p, reply.ret, if reply.ret == rc_ok then some reply.bytes else none)

  unfoldable pub ptp_setdevicepropvalue : Session S → ℕ → List ℕ → Session S × ℕ
  ptp_setdevicepropvalue params propcode object =
      let (p, reply) =
        ptp_transaction layer params
          (record cnt_init { code = 0x1016; param1 = propcode; nparam = 1 }) (send_data object) in
      (p, reply.ret)

  -- The session is marked as open whatever the device answers.
  unfoldable pub ptp_opensession : Session S → ℕ → Session S × ℕ
  ptp_opensession params session =
      let (p, reply) =
        ptp_transaction layer (record params { session_id = 0; transaction_id = 0 })
          (record cnt_init { code = 0x1002; param1 = session; nparam = 1 }) no_data in
      (record p { session_id = session }, reply.ret)

  -- `oidata` is what `ptp_pack_OI` makes of the object's description. The three numbers are those of
  -- the container afterwards.
  unfoldable pub ptp_sendobjectinfo : Session S → ℕ → ℕ → List ℕ → Session S × ℕ × ℕ × ℕ × ℕ
  ptp_sendobjectinfo params store parenthandle oidata =
      let (p, reply) =
        ptp_transaction layer params
          (record cnt_init { code = 0x100c; param1 = store; param2 = parenthandle; nparam = 2 })
          (send_data oidata) in
      (p, reply.ret, reply.ptp.param1, reply.ptp.param2, reply.ptp.param3)

-- Whether the device lists an operation.
unfoldable pub ptp_operation_issupported : List ℕ → ℕ → ℕ
ptp_operation_issupported [] operation = 0
ptp_operation_issupported (x ∷ rest) operation =
    let later = ptp_operation_issupported rest operation in if x == operation then 1 else later
