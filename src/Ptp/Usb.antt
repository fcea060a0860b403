-- ===== src/Ptp/Usb.antt =====
-- ptp.c: the packets of the USB transport. A packet is the list of its bytes; fuel bounds the loops
-- of reads, and `none` is a loop without an end, or memory accessed outside a block.
pub mod Frames
pub mod Response
pub mod Data
pub mod Payload
pub mod Oversized
pub mod Blocks
use chdkptp_jet_tx1_jet_nano.Common.{
  ℕ, ◌+◌, ◌-◌, ◌*◌, ◌/◌, ◌%◌, ◌^◌, Option, none, some, List, [], ◌∷◌, ◌++◌, length, not, ◌&&◌, ◌==◌,
  ltb, if◌then◌else◌, u32, bit_and, ◌>>=◌, take, drop,
}
use chdkptp_jet_tx1_jet_nano.Ptp.Codes.{
  rc_ok, error_io, error_data_expected, error_resp_expected, error_badparam, usb_bulk_hdr_len,
  usb_bulk_payload_len, usb_bulk_req_len, usb_container_command, usb_container_data,
  usb_container_response,
}
use chdkptp_jet_tx1_jet_nano.Ptp.Link.{Link}
use chdkptp_jet_tx1_jet_nano.Ptp.Container.{Container}
use chdkptp_jet_tx1_jet_nano.Ptp.Wire.{htod16, htod32, dtoh16, dtoh32}
use chdkptp_jet_tx1_jet_nano.Ptp.Buffer.{Params, ptp_control_read_buffered}

-- The parameters of a request, as many as it has.
unfoldable pub request_params : Container → List ℕ
request_params c =
    if c.nparam == 0
    then []
    else if c.nparam == 1
    then htod32 c.param1
    else if c.nparam == 2
    then htod32 c.param1 ++ htod32 c.param2
    else if c.nparam == 3
    then htod32 c.param1 ++ htod32 c.param2 ++ htod32 c.param3
    else if c.nparam == 4
    then htod32 c.param1 ++ htod32 c.param2 ++ htod32 c.param3 ++ htod32 c.param4
    else htod32 c.param1 ++ htod32 c.param2 ++ htod32 c.param3 ++ htod32 c.param4 ++ htod32 c.param5

-- The bytes that `ptp_usb_sendreq` writes, for at most five parameters.
unfoldable pub usb_request : Container → List ℕ
unfolding request_params
usb_request req =
    htod32 (usb_bulk_req_len - 4 * (5 - req.nparam))
    ++ htod16 usb_container_command
    ++ htod16 req.code
    ++ htod32 req.trans_id
    ++ request_params req

module _ (link : Link) where
  unfoldable pub ptp_usb_sendreq : Params link → Container → Params link × ℕ
  unfolding usb_request
  ptp_usb_sendreq params req =
      let (s, ret) = link.write_func params.state (usb_request req) in
      (record params { state = s }, if ret == rc_ok then rc_ok else error_io)

  -- The part of a packet that is not payload. The container has room for 500 bytes after the header:
  -- more than these, written over its end, are `none`.
  unfoldable pub ptp_usb_read_control : ℕ → Params link → Option (Params link × ℕ × List ℕ)
  ptp_usb_read_control fuel params = do
    (p, ret, header) ← ptp_control_read_buffered link fuel params usb_bulk_hdr_len
    if not (ret == rc_ok)
        then some (p, ret, header)
        else if dtoh16 header 4 == usb_container_response
        then (if ltb usb_bulk_hdr_len (dtoh32 header 0)
            then (do
              (p', ret', payload) ←
                  ptp_control_read_buffered link fuel p (dtoh32 header 0 - usb_bulk_hdr_len)
              if ltb usb_bulk_payload_len (length payload)
                  then none
                  else some (p', ret', header ++ payload))
            else some (p, rc_ok, header))
        else if dtoh16 header 4 == usb_container_data
        then some (p, rc_ok, header)
        else some (p, error_badparam, header)

  -- The code that a response packet gives: a response code that is not the request's own code is
  -- the result, so success comes out as `rc_ok` itself.
  unfoldable pub response_code : List ℕ → Container → ℕ
  response_code pkt resp =
      if not (dtoh16 pkt 4 == usb_container_response)
      then error_resp_expected
      else if dtoh16 pkt 6 == resp.code
      then rc_ok
      else dtoh16 pkt 6

  -- `(dtoh32(length) - 12) / 4` is 32 bits wide and stored in 8.
  unfoldable pub response_container : Params link → List ℕ → Container
  response_container params pkt = record {
    code = dtoh16 pkt 6;
    session_id = params.session_id;
    trans_id = dtoh32 pkt 8;
    param1 = dtoh32 pkt 12;
    param2 = dtoh32 pkt 16;
    param3 = dtoh32 pkt 20;
    param4 = dtoh32 pkt 24;
    param5 = dtoh32 pkt 28;
    nparam = u32 (dtoh32 pkt 0 + (2 ^ 32 - 12)) / 4 % 256;
  }

  unfoldable pub ptp_usb_getresp :
      ℕ → Params link → Container → Option (Params link × ℕ × Container)
  ptp_usb_getresp fuel params resp = do
    (p, ret, pkt) ← ptp_usb_read_control fuel params
    if not (ret == rc_ok)
        then some (p, ret, resp)
        else if not (response_code pkt resp == rc_ok)
        then some (p, response_code pkt resp, resp)
        else some (p, rc_ok, response_container p pkt)

  -- The first packet holds the header and as much of the data as fits, the second write the rest; a
  -- packet of length 0 ends data that fills its last packet.
  unfoldable pub ptp_usb_senddata : Params link → Container → List ℕ → Params link × ℕ
  ptp_usb_senddata params ptp data_bytes =
      let size = length data_bytes in
      let packet_length = u32 (usb_bulk_hdr_len + size) in
      let pkt =
        htod32 packet_length
        ++ htod16 usb_container_data
        ++ htod16 ptp.code
        ++ htod32 ptp.trans_id
        ++ take usb_bulk_payload_len data_bytes in
      let (s1, ret1) = link.write_func params.state pkt in
      let (s2, ret2) = link.write_func s1 (drop usb_bulk_payload_len data_bytes) in
      let long = ltb usb_bulk_payload_len size in
      let s3 = if long then s2 else s1 in
      let s4 =
        if bit_and packet_length (params.max_packet_size - 1) == 0
        then (link.write_func s3 []).0
        else s3 in
      if not (ret1 == rc_ok)
      then (record params { state = s1 }, error_io)
      else if long && not (ret2 == rc_ok)
      then (record params { state = s2 }, error_io)
      else (record params { state = s4 }, rc_ok)
