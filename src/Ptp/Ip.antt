-- ===== src/Ptp/Ip.antt =====
-- ptp.c: the packets of the IP transport, on the same packet buffer. A packet is the list of its
-- bytes; fuel bounds the loops of reads, and `none` is a loop without an end, or memory accessed
-- outside a block.
pub mod Send
use chdkptp_jet_tx1_jet_nano.Common.{
  ℕ, ◌+◌, ◌-◌, ◌*◌, ◌/◌, ◌%◌, ◌^◌, Option, none, some, List, [], ◌∷◌, ◌++◌, Bool, length, not, ◌||◌,
  ◌==◌, ltb, if◌then◌else◌, u32, ◌>>=◌,
}
use chdkptp_jet_tx1_jet_nano.Ptp.Codes.{rc_ok, error_io, error_resp_expected, error_badparam}
use chdkptp_jet_tx1_jet_nano.Ptp.Link.{Link}
use chdkptp_jet_tx1_jet_nano.Ptp.Container.{Container}
use chdkptp_jet_tx1_jet_nano.Ptp.Wire.{htod16, htod32, dtoh16, dtoh32}
use chdkptp_jet_tx1_jet_nano.Ptp.Buffer.{
  Params, negative, ptp_transport_read_from_buffer, Fetched, fetched, read_failed, endless,
  read_until, ptp_control_read_buffered,
}
use chdkptp_jet_tx1_jet_nano.Ptp.Usb.{request_params}

-- `PTPIP_HEADER_LEN`, `PTPIP_CMD_PAYLOAD_LEN` and the packet types.
abbrev pub ptpip_header_len : ℕ
ptpip_header_len = 8

abbrev pub ptpip_cmd_payload_len : ℕ
ptpip_cmd_payload_len = 256

abbrev pub ptpip_type_init_cmd_ack : ℕ
ptpip_type_init_cmd_ack = 0x2

abbrev pub ptpip_type_init_fail : ℕ
ptpip_type_init_fail = 0x5

abbrev pub ptpip_type_req : ℕ
ptpip_type_req = 0x6

abbrev pub ptpip_type_resp : ℕ
ptpip_type_resp = 0x7

abbrev pub ptpip_type_start_data : ℕ
ptpip_type_start_data = 0x9

abbrev pub ptpip_type_data : ℕ
ptpip_type_data = 0xa

abbrev pub ptpip_type_end_data : ℕ
ptpip_type_end_data = 0xc

-- The packet of `ptp_tcp_sendreq`, for at most five parameters.
unfoldable pub tcp_request : Container → List ℕ
unfolding request_params
tcp_request ptp =
    htod32 (38 - 4 * (5 - ptp.nparam))
    ++ htod32 ptpip_type_req
    ++ htod32 0
    ++ htod16 ptp.code
    ++ htod32 ptp.trans_id
    ++ request_params ptp

-- The packets of `ptp_tcp_senddata` around the data: what they announce is `size` bytes. The packet
-- before the data leaves the transaction at 0.
unfoldable pub start_packet : Container → ℕ → List ℕ
start_packet ptp size =
    htod32 20 ++ htod32 ptpip_type_start_data ++ htod32 ptp.trans_id ++ htod32 size ++ htod32 0

unfoldable pub data_packet : ℕ → List ℕ
data_packet size = htod32 (u32 (12 + size)) ++ htod32 ptpip_type_data ++ htod32 0

unfoldable pub end_packet : Container → List ℕ
end_packet ptp = htod32 12 ++ htod32 ptpip_type_end_data ++ htod32 ptp.trans_id

-- The types whose packets are read whole.
unfoldable pub is_whole_type : ℕ → Bool
is_whole_type type =
    (type == ptpip_type_init_cmd_ack)
    || (type == ptpip_type_init_fail)
    || (type == ptpip_type_resp)
    || (type == ptpip_type_start_data)

module _ (link : Link) where
  -- The loop of reads after what the buffer held.
  abbrev pub tcp_read_end : Params link → link.State × Fetched → Option (Params link × ℕ × List ℕ)
  tcp_read_end params (s, fetched bytes) = some (record params { state = s }, rc_ok, bytes)
  tcp_read_end params (s, read_failed bytes) = some (record params { state = s }, error_io, bytes)
  tcp_read_end params (s, endless) = none

  -- A size of 2 ^ 31 or more is negative as an `int`: what the buffer holds cannot be copied, and the
  -- loop ends where a read fails, or never, or where the `int` that counts the bytes overflows.
  abbrev pub tcp_oversized : Params link → link.State × Fetched → Option (Params link × ℕ × List ℕ)
  tcp_oversized params (s, read_failed bytes) =
      if params.pkt_buf.len == 0
      then (if ltb (length bytes) (2 ^ 31)
          then some (record params { state = s }, error_io, bytes)
          else none)
      else none
  tcp_oversized params (s, fetched bytes) = none
  tcp_oversized params (s, endless) = none

  unfoldable pub ptp_tcp_read_data : ℕ → Params link → ℕ → Option (Params link × ℕ × List ℕ)
  ptp_tcp_read_data fuel params size =
      let (b, first) = ptp_transport_read_from_buffer params.pkt_buf size in
      let emptied = record params { pkt_buf = b } in
      if negative size
      then tcp_oversized params (read_until link fuel size size params.state [])
      else if ltb (length first) size
      then tcp_read_end emptied (read_until link fuel size size params.state first)
      else some (emptied, rc_ok, first)

  -- More of a control packet, after its header; the container has room for 256 bytes of it, and more
  -- than these, written over its end, are `none`.
  abbrev pub read_more : ℕ → Params link → List ℕ → ℕ → Option (Params link × ℕ × List ℕ)
  read_more fuel params header size = do
    (p, ret, more) ← ptp_control_read_buffered link fuel params size
    if ltb ptpip_cmd_payload_len (length more) then none else some (p, ret, header ++ more)

  -- The part of a packet that is not payload.
  unfoldable pub ptp_tcp_read_control : ℕ → Params link → Option (Params link × ℕ × List ℕ)
  unfolding is_whole_type
  ptp_tcp_read_control fuel params = do
    (p, ret, header) ← ptp_control_read_buffered link fuel params ptpip_header_len
    if not (ret == rc_ok)
        then some (p, ret, header)
        else if is_whole_type (dtoh32 header 4)
        then (if ltb ptpip_header_len (dtoh32 header 0)
            then read_more fuel p header (dtoh32 header 0 - ptpip_header_len)
            else some (p, rc_ok, header))
        else if (dtoh32 header 4 == ptpip_type_data) || (dtoh32 header 4 == ptpip_type_end_data)
        then read_more fuel p header 4
        else some (p, error_badparam, header)

  unfoldable pub ptp_tcp_sendreq : Params link → Container → Params link × ℕ
  unfolding tcp_request
  ptp_tcp_sendreq params ptp =
      let (s, ret) = link.write_func params.state (tcp_request ptp) in
      (record params { state = s }, if ret == rc_ok then rc_ok else error_io)

  -- Four writes; each one's result takes the place of the one before.
  unfoldable pub ptp_tcp_senddata : Params link → Container → List ℕ → Params link × ℕ
  unfolding start_packet data_packet end_packet
  ptp_tcp_senddata params ptp bytes =
      let size = length bytes in
      let (s1, ret1) = link.write_func params.state (start_packet ptp size) in
      let (s2, ret2) = link.write_func s1 (data_packet size) in
      let (s3, ret3) = link.write_func s2 bytes in
      let (s4, ret4) = link.write_func s3 (end_packet ptp) in
      (record params { state = s4 }, if ret4 == rc_ok then rc_ok else error_io)

  -- The code of a response, which is returned with the container also where it is an error.
  unfoldable pub tcp_response_code : List ℕ → Container → ℕ
  tcp_response_code pkt resp =
      if not (dtoh32 pkt 4 % 2 ^ 16 == ptpip_type_resp)
      then error_resp_expected
      else if dtoh16 pkt 8 == resp.code
      then rc_ok
      else dtoh16 pkt 8

  unfoldable pub tcp_response_container : Params link → List ℕ → Container
  tcp_response_container params pkt = record {
    code = dtoh16 pkt 8;
    session_id = params.session_id;
    trans_id = dtoh32 pkt 10;
    param1 = dtoh32 pkt 14;
    param2 = dtoh32 pkt 18;
    param3 = dtoh32 pkt 22;
    param4 = dtoh32 pkt 26;
    param5 = dtoh32 pkt 30;
    nparam = u32 (dtoh32 pkt 0 + (2 ^ 32 - 14)) / 4 % 256;
  }

  unfoldable pub ptp_tcp_getresp :
      ℕ → Params link → Container → Option (Params link × ℕ × Container)
  unfolding tcp_response_code tcp_response_container
  ptp_tcp_getresp fuel params resp = do
    (p, ret, pkt) ← ptp_tcp_read_control fuel params
    if not (ret == rc_ok)
        then some (p, ret, resp)
        else some (p, tcp_response_code pkt resp, tcp_response_container p pkt)
