-- ===== src/Ptp/Usb/Data.antt =====
-- ptp.c: the payload of a data packet, read past the packet buffer.
use chdkptp_jet_tx1_jet_nano.Common.{
  ℕ, zero, suc, ◌+◌, ◌-◌, ◌*◌, ◌%◌, ◌^◌, Bool, Option, none, some, List, [], ◌++◌, length, not,
  ◌||◌, ◌==◌, ltb, if◌then◌else◌, ◌>>=◌, u32,
}
use chdkptp_jet_tx1_jet_nano.Ptp.Codes.{
  rc_ok, error_io, error_data_expected, error_nomem, packet_buffer_size, usb_bulk_hdr_len,
  usb_container_data,
}
use chdkptp_jet_tx1_jet_nano.Ptp.Link.{Link}
use chdkptp_jet_tx1_jet_nano.Ptp.Container.{Container}
use chdkptp_jet_tx1_jet_nano.Ptp.Wire.{dtoh16, dtoh32}
use chdkptp_jet_tx1_jet_nano.Ptp.Buffer.{
  Params, negative, ptp_transport_read_from_buffer, Fetched, fetched, read_failed, endless,
  read_until, ptp_transport_read_to_buffer,
}
use chdkptp_jet_tx1_jet_nano.Ptp.Usb.{ptp_usb_read_control}

module _ (link : Link) where
  -- The end of `ptp_usb_read_data`: the last, partial packet goes through the buffer.
  abbrev pub rest_of_data :
      ℕ → ℕ → ℕ → Params link → link.State × Fetched → Option (Params link × ℕ × List ℕ)
  rest_of_data fuel size rest params (s, endless) = none
  rest_of_data fuel size rest params (s, read_failed bytes) =
      some (record params { state = s }, error_io, bytes)
  rest_of_data fuel size rest params (s, fetched bytes) = do
    (p, ret) ← ptp_transport_read_to_buffer link fuel (record params { state = s }) rest
    let (b, more) = ptp_transport_read_from_buffer p.pkt_buf rest
    if not (ret == rc_ok)
        then some (p, ret, bytes)
        else some (
          record p { pkt_buf = b },
          (if length (bytes ++ more) == size then rc_ok else error_io),
          bytes ++ more,
        )

  -- A size of 2 ^ 31 or more is negative as an `int`, and so are what is left to read and the bytes to
  -- read in whole packets. What the buffer holds cannot be copied then; if it holds nothing, one read
  -- goes into it, and after it memcpy gets a negative size, or 0, or is not called.
  unfoldable pub oversized : ℕ → Params link → ℕ → Option (Params link × ℕ × List ℕ)
  oversized fuel params size =
      if params.pkt_buf.len == 0
      then (do
        (p, ret) ← ptp_transport_read_to_buffer link fuel params 0
        if not (ret == rc_ok)
            then some (p, ret, [])
            else if (size % packet_buffer_size == 0) || (p.pkt_buf.len == 0)
            then some (p, error_io, [])
            else none)
      else none

  -- Exactly `size` bytes of payload: those in the buffer, then whole USB packets straight into the
  -- destination, then a partial packet.
  unfoldable pub ptp_usb_read_data : ℕ → Params link → ℕ → Option (Params link × ℕ × List ℕ)
  unfolding oversized
  ptp_usb_read_data fuel params size =
      let (b, first) = ptp_transport_read_from_buffer params.pkt_buf size in
      let emptied = record params { pkt_buf = b } in
      let rest = (size - length first) % packet_buffer_size in
      let bulktotal = size - rest in
      if negative size
      then oversized fuel params size
      else if ltb (length first) size
      then rest_of_data fuel size rest emptied (
          if ltb (length first) bulktotal
          then read_until link fuel bulktotal bulktotal params.state first
          else (params.state, fetched first))
      else some (emptied, rc_ok, first)

  -- The start of `ptp_usb_getdata`: the header, its tests, and the length of the payload.
  unfoldable pub data_header : ℕ → Params link → Container → Option (Params link × ℕ × Option ℕ)
  data_header fuel params ptp = do
    (p, ret, header) ← ptp_usb_read_control link fuel params
    if not (ret == rc_ok)
        then some (p, ret, none)
        else if not (dtoh16 header 4 == usb_container_data)
        then some (p, error_data_expected, none)
        else if not (dtoh16 header 6 == ptp.code)
        then some (p, dtoh16 header 6, none)
        else some (p, rc_ok, some (u32 (dtoh32 header 0 + (2 ^ 32 - usb_bulk_hdr_len))))

  -- Its branch without a handler: the payload in one block, which malloc may have no room for.
  unfoldable pub getdata_to_memory :
      (has_room : ℕ → Bool) → ℕ → Params link → Container → Option (Params link × ℕ × List ℕ)
  getdata_to_memory has_room fuel params ptp = do
    (p, ret, payload) ← data_header fuel params ptp
    elim payload [
      | none ↦ some (p, ret, [])
      | some total_len ↦
          if has_room total_len
          then ptp_usb_read_data fuel p total_len
          else some (p, error_nomem, [])
    ]

-- The size of the blocks that a handler gets.
unfoldable pub block_size_for : ℕ → ℕ
block_size_for wanted =
    if wanted == 0 then 1024 * 1024 * 2 else if ltb wanted 1024 then 1024 else wanted

module _ (link : Link) {H : Type 0} (handler : H → List ℕ → H × ℕ) (fuel : ℕ) where
  -- The loop over the blocks, with `rounds` rounds left; `h` is what the handler keeps.
  unfoldable pub read_blocks : ℕ → ℕ → ℕ → Params link → H → ℕ → Option (Params link × ℕ × H)
  read_blocks zero block_size to_read params h ret =
      if to_read == 0 then some (params, ret, h) else none
  read_blocks (suc rounds) block_size to_read params h ret =
      let read_size = if ltb block_size to_read then block_size else to_read in
      if to_read == 0 then some (params, ret, h) else (do
        (p, ret1, bytes) ← ptp_usb_read_data link fuel params read_size
        let (h', ret2) = handler h bytes
        if not (ret1 == rc_ok)
            then some (p, ret1, h)
            else if not (ret2 == rc_ok)
            then some (p, ret2, h')
            else read_blocks rounds block_size (to_read - read_size) p h' ret2)

  -- The branch of `ptp_usb_getdata` with a handler: one round for each byte is enough.
  unfoldable pub getdata_to_handler :
      (has_room : ℕ → Bool) → Params link → Container → ℕ → H → Option (Params link × ℕ × H)
  getdata_to_handler has_room params ptp wanted h = do
    (p, ret, payload) ← data_header link fuel params ptp
    elim payload [
      | none ↦ some (p, ret, h)
      | some total_len ↦
          if has_room (block_size_for wanted)
          then read_blocks total_len (block_size_for wanted) total_len p h ret
          else some (p, error_nomem, h)
    ]
