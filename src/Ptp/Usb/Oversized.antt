-- ===== src/Ptp/Usb/Oversized.antt =====
-- Payloads whose size is negative as an `int`.
use chdkptp_jet_tx1_jet_nano.Common.{
  ℕ, ◌%◌, Option, none, some, List, [], not, ◌||◌, ◌==◌, if◌then◌else◌, ◌>>=◌,
}
use chdkptp_jet_tx1_jet_nano.Ptp.Codes.{rc_ok, error_io, packet_buffer_size}
use chdkptp_jet_tx1_jet_nano.Ptp.Link.{Link}
use chdkptp_jet_tx1_jet_nano.Ptp.Buffer.{Params}

module _ {link : Link} (size : ℕ) where
  -- What follows the read into the buffer.
  abbrev after_read : Option (Params link × ℕ) → Option (Params link × ℕ × List ℕ)
  after_read r = do
    (p, ret) ← r
    if not (ret == rc_ok)
        then some (p, ret, [])
        else if (size % packet_buffer_size == 0) || (p.pkt_buf.len == 0)
        then some (p, error_io, [])
        else none
