-- ===== src/Ptp/Container.antt =====
-- ptp.h: a request or a response of the protocol.
use chdkptp_jet_tx1_jet_nano.Common.{ℕ}

-- `PTPContainer`.
pub record Container : Type 0 where
  pub code : ℕ
  pub session_id : ℕ
  pub trans_id : ℕ
  pub param1 : ℕ
  pub param2 : ℕ
  pub param3 : ℕ
  pub param4 : ℕ
  pub param5 : ℕ
  pub nparam : ℕ

-- `PTP_CNT_INIT`.
abbrev pub cnt_init : Container
cnt_init = record {
  code = 0;
  session_id = 0;
  trans_id = 0;
  param1 = 0;
  param2 = 0;
  param3 = 0;
  param4 = 0;
  param5 = 0;
  nparam = 0;
}
