-- ===== src/Ptp/Usb/Frames.antt =====
-- What a request packet says.
use chdkptp_jet_tx1_jet_nano.Common.{◌^◌, ◌<◌, ◌≤◌, ◌≡◌, arith, length}
use chdkptp_jet_tx1_jet_nano.Ptp.Container.{Container}
use chdkptp_jet_tx1_jet_nano.Ptp.Wire.{dtoh16, dtoh32}
use chdkptp_jet_tx1_jet_nano.Ptp.Usb.{usb_request, request_params}

-- A request with at most five parameters, a 16-bit code and a 32-bit transaction number is a packet whose length field is its length, and its type,
-- code and transaction field are those that the request was made of.
pub usb_request-fields :
    (req : Container)
    → req.nparam ≤ 5
    → req.code < 2 ^ 16
    → req.trans_id < 2 ^ 32
    → (dtoh32 (usb_request req) 0 ≡ length (usb_request req))
      × (dtoh16 (usb_request req) 4 ≡ 1)
      × (dtoh16 (usb_request req) 6 ≡ req.code)
      × (dtoh32 (usb_request req) 8 ≡ req.trans_id)
unfolding usb_request request_params
usb_request-fields req n c t = ground arith
