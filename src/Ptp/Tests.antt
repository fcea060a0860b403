-- ===== src/Ptp/Tests.antt =====
-- Runs of the transport over a link that hands out its bytes one at a time, and the theorems there.

use chdkptp_jet_tx1_jet_nano.Common.{
  ℕ, zero, suc, ◌+◌, ◌-◌, ◌*◌, ◌^◌, ◌≤◌, ◌<◌, ◌≡◌, ◌⊎◌, ◌↔◌, refl, ap, ap₂, arith, Option, none,
  some, some_value, List, [], ◌∷◌, ◌++◌, length, get_elem?, drop, Bool, true, false,
}
use chdkptp_jet_tx1_jet_nano.Ptp.Codes.{rc_ok, error_io}
use chdkptp_jet_tx1_jet_nano.Ptp.Container.{Container, cnt_init}
use chdkptp_jet_tx1_jet_nano.Ptp.Wire.{dtoh16, dtoh32}
use chdkptp_jet_tx1_jet_nano.Ptp.Link.{Link, IsStream}
use chdkptp_jet_tx1_jet_nano.Ptp.Buffer.{Params, ptp_control_read_buffered}
use chdkptp_jet_tx1_jet_nano.Ptp.Buffer.Laws.{IsPacketBuffer}
use chdkptp_jet_tx1_jet_nano.Ptp.Buffer.Control.{unread, control_read_buffered-unread}
use chdkptp_jet_tx1_jet_nano.Ptp.Usb.{usb_request, ptp_usb_getresp, response_container}
use chdkptp_jet_tx1_jet_nano.Ptp.Usb.Data.{ptp_usb_read_data, read_blocks}
use chdkptp_jet_tx1_jet_nano.Ptp.Usb.Payload.{ptp_usb_read_data-unread}
use chdkptp_jet_tx1_jet_nano.Ptp.Usb.Blocks.{Delivered, read_blocks-Delivered}
use chdkptp_jet_tx1_jet_nano.Ptp.Usb.Frames.{usb_request-fields}
use chdkptp_jet_tx1_jet_nano.Ptp.Usb.Response.{ptp_usb_getresp-packet}
use chdkptp_jet_tx1_jet_nano.Ptp.Ip.{tcp_request, ptpip_type_req}
use chdkptp_jet_tx1_jet_nano.Ptp.Ip.Send.{tcp_request-fields}
use chdkptp_jet_tx1_jet_nano.Ptp.Transaction.{Session, Layer}
use chdkptp_jet_tx1_jet_nano.Ptp.Operations.{ptp_opensession, ptp_operation_issupported}
use chdkptp_jet_tx1_jet_nano.Ptp.Operations.Laws.{ptp_opensession-sets, issupported-iff-listed}

-- The link may have an empty read first.
abbrev one_byte : Bool × List ℕ → ℕ → (Bool × List ℕ) × Option (List ℕ)
one_byte (true, xs) n = ((false, xs), some [])
one_byte (false, []) n = ((false, []), none)
one_byte (false, x ∷ xs) zero = ((false, x ∷ xs), some [])
one_byte (false, x ∷ xs) (suc n) = ((false, xs), some (x ∷ []))

abbrev slow_link : Link
slow_link = record {
  State = Bool × List ℕ;
  read_func = one_byte;
  write_func = λ s bytes. (s, rc_ok);
}

-- The bytes that were got, and the state.
got_bytes :
    {s' t : Bool × List ℕ} {bs cs : List ℕ}
    → ◌≡◌ {A = (Bool × List ℕ) × Option (List ℕ)} (t, some cs) (s', some bs)
    → (t ≡ s') × (cs ≡ bs)
got_bytes e = (ap (λ p. p.0) e, some_value (ap (λ p. p.1) e))

one_byte-in_order :
    (s : Bool × List ℕ) (n : ℕ) {s' : Bool × List ℕ} {bs : List ℕ}
    → one_byte s n ≡ (s', some bs)
    → s.1 ≡ bs ++ s'.1
one_byte-in_order (true, xs) n e =
    let (t, c) = got_bytes e in ap₂ (λ (b : List ℕ) (p : Bool × List ℕ). b ++ p.1) c t
one_byte-in_order (false, []) n e = absurd (cc)
one_byte-in_order (false, x ∷ xs) zero e =
    let (t, c) = got_bytes e in ap₂ (λ (b : List ℕ) (p : Bool × List ℕ). b ++ p.1) c t
one_byte-in_order (false, x ∷ xs) (suc n) e =
    let (t, c) = got_bytes e in ap₂ (λ (b : List ℕ) (p : Bool × List ℕ). b ++ p.1) c t

one_byte-at_most :
    (s : Bool × List ℕ) (n : ℕ) {s' : Bool × List ℕ} {bs : List ℕ}
    → one_byte s n ≡ (s', some bs)
    → length bs ≤ n
one_byte-at_most (true, xs) n e = omega (arith, ap length (got_bytes e).1)
one_byte-at_most (false, []) n e = absurd (cc)
one_byte-at_most (false, x ∷ xs) zero e = omega (arith, ap length (got_bytes e).1)
one_byte-at_most (false, x ∷ xs) (suc n) e = omega (arith, ap length (got_bytes e).1)

abbrev empty_first : Bool → ℕ
empty_first true = 1
empty_first false = 0

empty_first-small : (late : Bool) → empty_first late ≤ 1
empty_first-small true = omega arith
empty_first-small false = omega arith

one_byte-goes_on :
    (s : Bool × List ℕ) (n : ℕ) {s' : Bool × List ℕ} {bs : List ℕ}
    → one_byte s n ≡ (s', some bs)
    → 0 < n
    → empty_first s'.0 < empty_first s.0 + length bs
one_byte-goes_on (true, xs) n e some_room =
    omega (arith, ap (λ (p : Bool × List ℕ). empty_first p.0) (got_bytes e).0)
one_byte-goes_on (false, []) n e some_room = absurd (cc)
one_byte-goes_on (false, x ∷ xs) zero e some_room = absurd (omega arith)
one_byte-goes_on (false, x ∷ xs) (suc n) e some_room =
    omega (
      arith,
      ap (λ (p : Bool × List ℕ). empty_first p.0) (got_bytes e).0,
      ap length (got_bytes e).1,
    )

abbrev slow_link-IsStream : IsStream slow_link
slow_link-IsStream = record {
  pending = λ s. s.1;
  in_order = one_byte-in_order;
  at_most = one_byte-at_most;
  most_empty = 1;
  empty_reads = λ s. empty_first s.0;
  few_empty = λ s. empty_first-small s.0;
  goes_on = one_byte-goes_on;
}

-- A header of a response with one parameter, and its payload.
abbrev header : List ℕ
header = 16 ∷ 0 ∷ 0 ∷ 0 ∷ 3 ∷ 0 ∷ 1 ∷ 32 ∷ 7 ∷ 0 ∷ 0 ∷ 0 ∷ []

abbrev payload : List ℕ
payload = 42 ∷ 0 ∷ 0 ∷ 0 ∷ []

-- The buffer holds the first two bytes of it.
abbrev params : Params slow_link
params = record {
  pkt_buf = record { data_at = λ i. (6 - i) * 16; pos = 5; len = 2 };
  session_id = 1;
  transaction_id = 7;
  max_packet_size = 512;
  state = (true, drop 2 header ++ payload ++ (99 ∷ []));
}

control_read_buffered-unread_example :
    (params' : Params slow_link) × (code : ℕ) × (bytes : List ℕ) × (ptp_control_read_buffered
        slow_link 514 params 12
      ≡ some (params', code, bytes))
    × IsPacketBuffer params'.pkt_buf
    × (((code ≡ rc_ok)
          × (length bytes ≡ 12)
          × (unread slow_link slow_link-IsStream params
              ≡ bytes ++ unread slow_link slow_link-IsStream params'))
        ⊎ (code ≡ error_io))
control_read_buffered-unread_example =
    control_read_buffered-unread slow_link slow_link-IsStream 514 params 12 (omega arith)
      (omega arith) (omega arith)

ptp_usb_read_data-unread_example :
    (params' : Params slow_link) × (code : ℕ) × (bytes : List ℕ) × (ptp_usb_read_data slow_link 530
        params 16
      ≡ some (params', code, bytes))
    × (((code ≡ rc_ok)
          × (length bytes ≡ 16)
          × IsPacketBuffer params'.pkt_buf
          × (unread slow_link slow_link-IsStream params
              ≡ bytes ++ unread slow_link slow_link-IsStream params'))
        ⊎ (code ≡ error_io))
ptp_usb_read_data-unread_example =
    ptp_usb_read_data-unread slow_link slow_link-IsStream 530 params 16 (omega arith) (omega arith)
      (omega arith)

-- An empty buffer, and two bytes on the link.
abbrev waiting : Params slow_link
waiting = record params {
  pkt_buf = record { data_at = λ i. 0; pos = 0; len = 0 };
  state = (false, 5 ∷ 6 ∷ []);
}

-- A handler that keeps the bytes.
abbrev keep : List ℕ → List ℕ → List ℕ × ℕ
keep h bytes = (h ++ bytes, rc_ok)

read_blocks-Delivered_example :
    Delivered slow_link slow_link-IsStream keep
      (λ h. h)
      (λ h bytes. refl)
      1600
      1024
      params
      []
      16
      (read_blocks slow_link keep 1600 16 1024 16 params [] rc_ok)
read_blocks-Delivered_example =
    read_blocks-Delivered slow_link slow_link-IsStream keep (λ h. h) (λ h bytes. refl) 1600 1024 16
      16 params [] (omega arith) (omega arith) (omega arith) (omega arith) (omega arith)

abbrev request : Container
request = record cnt_init { code = 0x1002; trans_id = 7; param1 = 1; nparam = 1 }

usb_request-fields_example :
    (dtoh32 (usb_request request) 0 ≡ length (usb_request request))
    × (dtoh16 (usb_request request) 4 ≡ 1)
    × (dtoh16 (usb_request request) 6 ≡ 0x1002)
    × (dtoh32 (usb_request request) 8 ≡ 7)
usb_request-fields_example = usb_request-fields request (omega arith) (omega arith) (omega arith)

ptp_usb_getresp-packet_example :
    (after : Params slow_link) × (((ptp_usb_getresp slow_link 514 params request
          ≡ some (after, rc_ok, response_container slow_link after (header ++ payload)))
        × (unread slow_link slow_link-IsStream after ≡ 99 ∷ []))
      ⊎ (ptp_usb_getresp slow_link 514 params request ≡ some (after, error_io, request)))
ptp_usb_getresp-packet_example =
    ptp_usb_getresp-packet slow_link slow_link-IsStream 514 params request header payload (99 ∷ [])
      (omega arith) (omega arith) refl refl refl refl (omega arith) refl

-- A connection whose response repeats the request with another first parameter.
abbrev layer : Layer ℕ
layer = record {
  sendreq = λ p c. (p.state + 1, rc_ok);
  senddata = λ p c bytes. (p.state + length bytes, rc_ok);
  getdata = λ p c. (p.state, rc_ok, 1 ∷ 2 ∷ []);
  getresp = λ p c. (p.state, rc_ok, record c { param1 = 5 });
}

abbrev session : Session ℕ
session = record { session_id = 1; transaction_id = 2 ^ 32 - 1; state = 0 }

ptp_opensession-sets_example :
    ((ptp_opensession layer session 9).0.session_id ≡ 9)
    × ((ptp_opensession layer session 9).0.transaction_id ≡ 1)
ptp_opensession-sets_example = ptp_opensession-sets layer session 9

abbrev supported : List ℕ
supported = 0x1001 ∷ 0x9999 ∷ []

issupported-iff-listed_example :
    (ptp_operation_issupported supported 0x9999 ≡ 1)
    ↔ ((i : ℕ) × (get_elem? supported i ≡ some 0x9999))
issupported-iff-listed_example = issupported-iff-listed supported 0x9999

abbrev tcp_open : Container
tcp_open = record cnt_init { code = 0x1002; trans_id = 70000; param1 = 1; nparam = 1 }

tcp_request-fields_example :
    (length (tcp_request tcp_open) ≡ 18 + 4 * 1)
    × (dtoh32 (tcp_request tcp_open) 0 ≡ length (tcp_request tcp_open))
    × (dtoh32 (tcp_request tcp_open) 4 ≡ ptpip_type_req)
    × (dtoh16 (tcp_request tcp_open) 12 ≡ 0x1002)
    × (dtoh32 (tcp_request tcp_open) 14 ≡ 70000)
tcp_request-fields_example = tcp_request-fields tcp_open (omega arith) (omega arith) (omega arith)
