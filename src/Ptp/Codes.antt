-- ===== src/Ptp/Codes.antt =====
-- ptp.h: the numbers of the protocol.
use Prim.Native.Nat.{ℕ}

abbrev pub rc_ok : ℕ
rc_ok = 0x2001

abbrev pub error_io : ℕ
error_io = 0x02ff

abbrev pub error_data_expected : ℕ
error_data_expected = 0x02fe

abbrev pub error_resp_expected : ℕ
error_resp_expected = 0x02fd

abbrev pub error_badparam : ℕ
error_badparam = 0x02fc

-- `PTP_PACKET_BUFFER_SIZE`, which is `PTP_USB_BULK_HS_MAX_PACKET_LEN`.
abbrev pub error_nomem : ℕ
error_nomem = 0x2FB

abbrev pub packet_buffer_size : ℕ
packet_buffer_size = 512

-- `PTP_USB_BULK_HDR_LEN`, `PTP_USB_BULK_PAYLOAD_LEN` and `PTP_USB_BULK_REQ_LEN`.
abbrev pub usb_bulk_hdr_len : ℕ
usb_bulk_hdr_len = 12

abbrev pub usb_bulk_payload_len : ℕ
usb_bulk_payload_len = 500

abbrev pub usb_bulk_req_len : ℕ
usb_bulk_req_len = 32

abbrev pub usb_container_command : ℕ
usb_container_command = 1

abbrev pub usb_container_data : ℕ
usb_container_data = 2

abbrev pub usb_container_response : ℕ
usb_container_response = 3
