-- ===== src/Ptp/Transaction.antt =====
-- ptp.c: a transaction, over the functions that `PTPParams` points to.
use chdkptp_jet_tx1_jet_nano.Common.{ℕ, ◌+◌, List, [], not, ◌==◌, if◌then◌else◌, u32}
use chdkptp_jet_tx1_jet_nano.Ptp.Codes.{rc_ok, error_badparam}
use chdkptp_jet_tx1_jet_nano.Ptp.Container.{Container}

-- What `PTPParams` keeps of a session, and the state of the connection.
pub record Session (S : Type 0) : Type 0 where
  pub session_id : ℕ
  pub transaction_id : ℕ
  pub state : S

-- `sendreq_func`, `senddata_func`, `getdata_func` and `getresp_func`. They get `PTPParams` by
-- reference, but neither those of USB nor those of IP assign its session or its counter, so that
-- their result is the state of the connection only. The third returns the data that
-- it received; the last one the response, or its argument where it fails.
pub record Layer (S : Type 0) : Type 0 where
  pub sendreq : Session S → Container → S × ℕ
  pub senddata : Session S → Container → List ℕ → S × ℕ
  pub getdata : Session S → Container → S × ℕ × List ℕ
  pub getresp : Session S → Container → S × ℕ × Container

-- `flags`, with the data that is sent.
pub data Phase : Type 0 where
  no_data : Phase
  send_data : List ℕ → Phase
  get_data : Phase
  unknown_phase : Phase

-- The code, the container that the caller's container has become, and the data received.
pub record Reply : Type 0 where
  pub ret : ℕ
  pub ptp : Container
  pub bytes : List ℕ

module _ {S : Type 0} (layer : Layer S) where
  -- The data phase: the state, the code and the data received.
  unfoldable pub data_phase : Session S → Container → Phase → S × ℕ × List ℕ
  data_phase params ptp no_data = (params.state, rc_ok, [])
  data_phase params ptp (send_data bytes) =
      let (s, ret) = layer.senddata params ptp bytes in (s, ret, [])
  data_phase params ptp get_data = layer.getdata params ptp
  data_phase params ptp unknown_phase = (params.state, error_badparam, [])

  -- A container with the session's next transaction, and the session after it.
  abbrev pub tagged : Session S → Container → Container
  tagged params ptp = record ptp {
    trans_id = params.transaction_id;
    session_id = params.session_id;
  }

  abbrev pub counted : Session S → S → Session S
  counted params s = record params { transaction_id = u32 (params.transaction_id + 1); state = s }

  unfoldable pub ptp_transaction : Session S → Container → Phase → Session S × Reply
  unfolding data_phase
  ptp_transaction params ptp phase =
      let req = tagged params ptp in
      let (s1, ret1) = layer.sendreq (counted params params.state) req in
      let (s2, ret2, bytes) = data_phase (counted params s1) req phase in
      let (s3, ret3, resp) = layer.getresp (counted params s2) req in
      if not (ret1 == rc_ok)
      then (counted params s1, record { ret = ret1; ptp = req; bytes = [] })
      else if not (ret2 == rc_ok)
      then (counted params s2, record { ret = ret2; ptp = req; bytes = bytes })
      else (counted params s3, record { ret = ret3; ptp = resp; bytes = bytes })

  -- `ptp_getdata_transaction`: `receive` is the data phase with the caller's handler.
  unfoldable pub ptp_getdata_transaction :
      (Session S → Container → S × ℕ) → Session S → Container → Session S × ℕ × Container
  ptp_getdata_transaction receive params ptp =
      let req = tagged params ptp in
      let (s1, ret1) = layer.sendreq (counted params params.state) req in
      let (s2, ret2) = receive (counted params s1) req in
      let (s3, ret3, resp) = layer.getresp (counted params s2) req in
      if not (ret1 == rc_ok)
      then (counted params s1, ret1, req)
      else if not (ret2 == rc_ok)
      then (counted params s2, ret2, req)
      else (counted params s3, ret3, resp)
