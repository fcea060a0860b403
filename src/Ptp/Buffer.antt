-- ===== src/Ptp/Buffer.antt =====
-- ptp.c: the packet buffer, which holds what a read got beyond what was asked for. The bytes that
-- the source puts at `dst` are returned. A loop of reads takes fuel; `none` is a loop without an
-- end, or memory accessed outside a block.
pub mod Laws
pub mod Reads
pub mod Control
use chdkptp_jet_tx1_jet_nano.Common.{
  ℕ, zero, suc, ◌+◌, ◌-◌, ◌%◌, ◌^◌, Option, none, some, List, [], ◌++◌, length, get_or, Bool, true,
  false, not, ◌||◌, ◌==◌, ltb, if◌then◌else◌, slice, ◌>>=◌,
}
use chdkptp_jet_tx1_jet_nano.Ptp.Codes.{rc_ok, error_io, error_badparam, packet_buffer_size}
use chdkptp_jet_tx1_jet_nano.Ptp.Link.{Link}

-- `PTPPacketBuffer`.
pub record PacketBuffer : Type 0 where
  pub data_at : ℕ → ℕ
  pub pos : ℕ
  pub len : ℕ

-- `PTPParams`, as far as the transport uses it.
pub record Params (link : Link) : Type 0 where
  pub pkt_buf : PacketBuffer
  pub session_id : ℕ
  pub transaction_id : ℕ
  pub max_packet_size : ℕ
  pub state : link.State

-- An `int` with these 32 bits is negative.
abbrev pub negative : ℕ → Bool
negative size = ltb (2 ^ 31 - 1) size

-- `max_size` is an `int` that is not negative.
unfoldable pub ptp_transport_read_from_buffer : PacketBuffer → ℕ → PacketBuffer × List ℕ
ptp_transport_read_from_buffer b max_size =
    let len = if ltb max_size b.len then max_size else b.len in
    if b.len == 0 then (b, []) else (
      record b { len = b.len - len; pos = if b.len - len == 0 then 0 else b.pos + len },
      slice b.data_at b.pos len,
    )

-- How a loop of reads ends, with all bytes that are there.
pub data Fetched : Type 0 where
  fetched : List ℕ → Fetched
  read_failed : List ℕ → Fetched
  endless : Fetched

module _ (link : Link) where
  -- A round of a loop of reads, with the rounds after it: `sofar` is in the block already.
  abbrev pub round :
      (link.State → List ℕ → link.State × Fetched)
      → ℕ
      → List ℕ
      → link.State × Option (List ℕ)
      → link.State × Fetched
  round again min_size sofar (s, none) = (s, read_failed sofar)
  round again min_size sofar (s, some bs) =
      if ltb (length (sofar ++ bs)) min_size
      then again s (sofar ++ bs)
      else (s, fetched (sofar ++ bs))

  -- `do { read } while(total < min_size)`, into a block with room for `room` bytes.
  unfoldable pub read_until : ℕ → ℕ → ℕ → link.State → List ℕ → link.State × Fetched
  read_until zero room min_size s sofar = (s, endless)
  read_until (suc fuel) room min_size s sofar =
      round (λ s' sofar'. read_until fuel room min_size s' sofar') min_size sofar
        (link.read_func s (room - length sofar))

  -- The buffer's data after a read of `bs`.
  abbrev pub filled : PacketBuffer → List ℕ → ℕ → PacketBuffer
  filled b bs len = record { data_at = λ i. get_or bs i (b.data_at i); pos = b.pos; len = len }

  abbrev pub with_fetched : Params link → link.State × Fetched → Option (Params link × ℕ)
  with_fetched params (s, fetched bs) =
      some (record params { pkt_buf = filled params.pkt_buf bs (length bs); state = s }, rc_ok)
  with_fetched params (s, read_failed bs) =
      some (
        record params { pkt_buf = filled params.pkt_buf bs params.pkt_buf.len; state = s },
        error_io,
      )
  with_fetched params (s, endless) = none

  unfoldable pub ptp_transport_read_to_buffer : ℕ → Params link → ℕ → Option (Params link × ℕ)
  ptp_transport_read_to_buffer fuel params min_size =
      if (not (params.pkt_buf.len == 0) || not (params.pkt_buf.pos == 0))
        || ltb packet_buffer_size min_size
      then some (params, error_badparam)
      else with_fetched params (read_until fuel packet_buffer_size min_size params.state [])

  -- The second half of `ptp_control_read_buffered`, after the read into the buffer.
  abbrev pub rest_from_buffer : Params link → ℕ → ℕ → List ℕ → Params link × ℕ × List ℕ
  rest_from_buffer params code missing bytes =
      let (b, more) = ptp_transport_read_from_buffer params.pkt_buf missing in
      if not (code == rc_ok) then (params, code, bytes) else (
        record params { pkt_buf = b },
        (if length more == missing then rc_ok else error_badparam),
        bytes ++ more,
      )

  -- `size` is an `int`, here the 32 bits of it. A negative size reads nothing from an empty buffer, and
  -- makes memcpy leave the block, which is `none` as well, if the buffer holds something.
  unfoldable pub ptp_control_read_buffered : ℕ → Params link → ℕ → Option (Params link × ℕ × List ℕ)
  ptp_control_read_buffered fuel params size =
      let (b, bytes) = ptp_transport_read_from_buffer params.pkt_buf size in
      let emptied = record params { pkt_buf = b } in
      if negative size
      then (if params.pkt_buf.len == 0 then some (params, rc_ok, []) else none)
      else if ltb (length bytes) size
      then (do
        (filled_params, code) ← ptp_transport_read_to_buffer fuel emptied (size - length bytes)
        some (rest_from_buffer filled_params code (size - length bytes) bytes))
      else some (emptied, rc_ok, bytes)
