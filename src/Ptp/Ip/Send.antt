-- ===== src/Ptp/Ip/Send.antt =====
-- The packets that the IP transport writes.
use chdkptp_jet_tx1_jet_nano.Common.{◌+◌, ◌*◌, ◌^◌, ◌≤◌, ◌<◌, ◌≡◌, arith, length}
use chdkptp_jet_tx1_jet_nano.Ptp.Container.{Container}
use chdkptp_jet_tx1_jet_nano.Ptp.Wire.{dtoh16, dtoh32}
use chdkptp_jet_tx1_jet_nano.Ptp.Usb.{request_params}
use chdkptp_jet_tx1_jet_nano.Ptp.Ip.{tcp_request, ptpip_type_req}

-- A request of at most five parameters is as long as its length field says, and has its type, code
-- and transaction where the protocol has them.
pub tcp_request-fields :
    (ptp : Container)
    → ptp.nparam ≤ 5
    → ptp.code < 2 ^ 16
    → ptp.trans_id < 2 ^ 32
    → (length (tcp_request ptp) ≡ 18 + 4 * ptp.nparam)
      × (dtoh32 (tcp_request ptp) 0 ≡ length (tcp_request ptp))
      × (dtoh32 (tcp_request ptp) 4 ≡ ptpip_type_req)
      × (dtoh16 (tcp_request ptp) 12 ≡ ptp.code)
      × (dtoh32 (tcp_request ptp) 14 ≡ ptp.trans_id)
unfolding tcp_request request_params
tcp_request-fields ptp h c t = ground arith
