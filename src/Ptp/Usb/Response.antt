-- ===== src/Ptp/Usb/Response.antt =====
-- A response packet, read from the stream.
use mathlib.Core.List.{append-nil}
use chdkptp_jet_tx1_jet_nano.Common.{
  ℕ, zero, suc, ◌+◌, ◌-◌, ◌≤◌, ◌<◌, ◌≡◌, ◌⊎◌, inl, inr, refl, sym, ◌∙◌, arith, Option, some, List,
  [], ◌∷◌, ◌++◌, length, length-append, get_or, ap, ap₂, true, ltb, lt→ltb, ge→ltb,
}
use chdkptp_jet_tx1_jet_nano.Ptp.Codes.{rc_ok, error_io, packet_buffer_size, usb_bulk_payload_len}
use chdkptp_jet_tx1_jet_nano.Ptp.Link.{Link, IsStream}
use chdkptp_jet_tx1_jet_nano.Ptp.Container.{Container}
use chdkptp_jet_tx1_jet_nano.Ptp.Wire.{dtoh16, dtoh32}
use chdkptp_jet_tx1_jet_nano.Ptp.Buffer.{Params, ptp_control_read_buffered}
use chdkptp_jet_tx1_jet_nano.Ptp.Buffer.Laws.{IsPacketBuffer}
use chdkptp_jet_tx1_jet_nano.Ptp.Buffer.Control.{unread, control_read-Served}
use chdkptp_jet_tx1_jet_nano.Ptp.Usb.{
  ptp_usb_read_control, ptp_usb_getresp, response_code, response_container,
}

-- Two ways to split a list, the first one no later.
pub split_earlier :
    (xs ys zs ws : List ℕ)
    → xs ++ ys ≡ zs ++ ws
    → length xs ≤ length zs
    → (us : List ℕ) × (zs ≡ xs ++ us) × (ys ≡ us ++ ws)
split_earlier [] ys zs ws e small = (zs, refl, e)
split_earlier (x ∷ xs) ys [] ws e small = absurd (omega arith)
split_earlier (x ∷ xs) ys (z ∷ zs) ws e small =
    let (us, front, back) = split_earlier xs ys zs ws (ap tail e) (omega arith) in
    (us, ap₂ (λ (h : ℕ) (t : List ℕ). h ∷ t) (sym (ap (λ l. get_or l 0 0) e)) front, back)
  where
    tail : List ℕ → List ℕ
    tail [] = []
    tail (a ∷ l) = l

length_zero : (xs : List ℕ) → length xs ≡ 0 → xs ≡ []
length_zero [] e = refl
length_zero (x ∷ xs) e = absurd (omega arith)

-- The same bytes, split at the same length.
split_same :
    (xs ys zs ws : List ℕ) → xs ++ ys ≡ zs ++ ws → length xs ≡ length zs → (xs ≡ zs) × (ys ≡ ws)
split_same xs ys zs ws e same =
    let (us, front, back) = split_earlier xs ys zs ws e (omega arith) in
    let none_left : us ≡ [] =
      length_zero us (omega (arith, ap length front, length-append xs us)) in
    (sym (front ∙ ap (λ l. xs ++ l) none_left ∙ append-nil xs), back ∙ ap (λ l. l ++ ws) none_left)

module _ (link : Link) (stream : IsStream link) (fuel : ℕ)
    (enough : packet_buffer_size + stream.most_empty < fuel) where
  -- The read took exactly these bytes and left the rest.
  pub record Exactly (bytes rest : List ℕ) (r : Option (Params link × ℕ × List ℕ)) : Type 0 where
    pub after : Params link
    pub returns : r ≡ some (after, rc_ok, bytes)
    pub left : unread link stream after ≡ rest
    pub valid : IsPacketBuffer after.pkt_buf

  abbrev pub BrokeOff : ℕ → Option (Params link × ℕ × List ℕ) → Type 0
  BrokeOff size r =
      (after : Params link) × (bytes : List ℕ) × (r ≡ some (after, error_io, bytes))
      × (length bytes ≤ size)

  pub control_read-Exactly :
      (params : Params link) (bytes rest : List ℕ)
      → IsPacketBuffer params.pkt_buf
      → length bytes ≤ packet_buffer_size
      → unread link stream params ≡ bytes ++ rest
      → Exactly bytes rest (ptp_control_read_buffered link fuel params (length bytes))
        ⊎ BrokeOff (length bytes) (ptp_control_read_buffered link fuel params (length bytes))
  control_read-Exactly params bytes rest valid small next =
      elim (control_read-Served link stream fuel params (length bytes) valid small enough) [
        | inl s ↦
            let (same, left) =
              split_same s.bytes (unread link stream s.after) bytes rest (sym s.order ∙ next)
                s.complete in
            inl record {
              after = s.after;
              returns = s.returns ∙ ap (λ l. some (s.after, rc_ok, l)) same;
              left = left;
              valid = s.valid;
            }
        | inr b ↦ inr (b.after, b.bytes, b.returns, b.short)
      ]

  -- The branches of `ptp_usb_read_control`.
  module _ (params : Params link) {after : Params link} {header : List ℕ} where
    header_failed :
        ptp_control_read_buffered link fuel params 12 ≡ some (after, error_io, header)
        → ptp_usb_read_control link fuel params ≡ some (after, error_io, header)
    unfolding ptp_usb_read_control
    header_failed e = rw e refl

    header_alone :
        ptp_control_read_buffered link fuel params 12 ≡ some (after, rc_ok, header)
        → dtoh16 header 4 ≡ 3
        → dtoh32 header 0 ≡ 12
        → ptp_usb_read_control link fuel params ≡ some (after, rc_ok, header)
    unfolding ptp_usb_read_control
    header_alone e response field = rw e (rw (response, field) refl)

    header_and_payload :
        (n : ℕ) {last : Params link} {code : ℕ} {payload : List ℕ}
        → ptp_control_read_buffered link fuel params 12 ≡ some (after, rc_ok, header)
        → dtoh16 header 4 ≡ 3
        → dtoh32 header 0 ≡ 12 + suc n
        → ptp_control_read_buffered link fuel after (suc n) ≡ some (last, code, payload)
        → length payload ≤ usb_bulk_payload_len
        → ptp_usb_read_control link fuel params ≡ some (last, code, header ++ payload)
    unfolding ptp_usb_read_control
    header_and_payload n {payload} e response field e' room =
        let long : ltb 12 (12 + suc n) ≡ true = lt→ltb _ _ (omega arith) in
        let size : 12 + suc n - 12 ≡ suc n = omega arith in
        rw e (
          rw (response, field)
            (rw (long, size) (rw e' (rw (ge→ltb usb_bulk_payload_len (length payload) room) refl))))

  -- A whole response packet.
  pub read_control-Exactly :
      (params : Params link) (header payload rest : List ℕ)
      → IsPacketBuffer params.pkt_buf
      → length header ≡ 12
      → dtoh32 header 0 ≡ 12 + length payload
      → dtoh16 header 4 ≡ 3
      → length payload ≤ usb_bulk_payload_len
      → unread link stream params ≡ header ++ (payload ++ rest)
      → Exactly (header ++ payload) rest (ptp_usb_read_control link fuel params)
        ⊎ BrokeOff (length (header ++ payload)) (ptp_usb_read_control link fuel params)
  read_control-Exactly params header payload rest valid full field response small next =
      let at_twelve = ap (λ n. ptp_control_read_buffered link fuel params n) (sym full) in
      elim (control_read-Exactly params header (payload ++ rest) valid (omega arith) next) [
        | inl h ↦ go payload h small field (at_twelve ∙ h.returns)
        | inr (after, bytes, e, short) ↦ inr (
          after,
          bytes,
          header_failed params (at_twelve ∙ e),
          omega (arith, short, length-append header payload),
        )
      ]
    where
      go :
          (payload : List ℕ)
          (h : Exactly header
            (payload ++ rest)
            (ptp_control_read_buffered link fuel params (length header)))
          → length payload ≤ usb_bulk_payload_len
          → dtoh32 header 0 ≡ 12 + length payload
          → ptp_control_read_buffered link fuel params 12 ≡ some (h.after, rc_ok, header)
          → Exactly (header ++ payload) rest (ptp_usb_read_control link fuel params)
            ⊎ BrokeOff (length (header ++ payload)) (ptp_usb_read_control link fuel params)
      go [] h small field first = inl record {
        after = h.after;
        returns =
            header_alone params first response field
            ∙ ap (λ l. some (h.after, rc_ok, l)) (sym (append-nil header));
        left = h.left;
        valid = h.valid;
      }
      go (b ∷ bs) h small field first =
          elim (control_read-Exactly h.after (b ∷ bs) rest h.valid (omega arith) h.left) [
            | inl l ↦ inl record {
              after = l.after;
              returns = header_and_payload params (length bs) first response field l.returns small;
              left = l.left;
              valid = l.valid;
            }
            | inr (after, bytes, e, short) ↦ inr (
              after,
              header ++ bytes,
              header_and_payload params (length bs) first response field e (omega (arith, short)),
              omega (arith, short, length-append header bytes, length-append header (b ∷ bs)),
            )
          ]

  module _ (params : Params link) (req : Container) {after : Params link} {pkt : List ℕ} where
    response_failed :
        ptp_usb_read_control link fuel params ≡ some (after, error_io, pkt)
        → ptp_usb_getresp link fuel params req ≡ some (after, error_io, req)
    unfolding ptp_usb_getresp
    response_failed e = rw e refl

    response_fine :
        ptp_usb_read_control link fuel params ≡ some (after, rc_ok, pkt)
        → response_code link pkt req ≡ rc_ok
        → ptp_usb_getresp link fuel params req
          ≡ some (after, rc_ok, response_container link after pkt)
    unfolding ptp_usb_getresp
    response_fine e c = rw e (rw c refl)

get_or-append : (xs ys : List ℕ) (i : ℕ) → i < length xs → get_or (xs ++ ys) i 0 ≡ get_or xs i 0
get_or-append [] ys i small = absurd (omega arith)
get_or-append (x ∷ xs) ys zero small = refl
get_or-append (x ∷ xs) ys (suc i) small = get_or-append xs ys i (omega arith)

ok_code :
    (link : Link) (header payload : List ℕ)
    → length header ≡ 12
    → dtoh16 header 6 ≡ rc_ok
    → dtoh16 header 4 ≡ 3
    → (req : Container) → response_code link (header ++ payload) req ≡ rc_ok
unfolding response_code
ok_code link header payload full fine response req =
    rw
      (
        get_or-append header payload 4 (omega arith),
        get_or-append header payload 5 (omega arith),
        get_or-append header payload 6 (omega arith),
        get_or-append header payload 7 (omega arith),
      )
      (ground (arith, fine, response))

-- With the link a stream of bytes, a valid packet buffer and more fuel than its 512 bytes and the empty reads in a row: where the
-- unread bytes begin with a response packet whose code is OK, of at most 500 bytes after
-- its header and with a length field that is right, `getresp` either consumes exactly that packet
-- and returns OK and the container with the packet's fields, or fails with an input error.
pub ptp_usb_getresp-packet :
    (link : Link) (stream : IsStream link) (fuel : ℕ) (params : Params link) (req : Container)
    (header payload rest : List ℕ)
    → packet_buffer_size + stream.most_empty < fuel
    → IsPacketBuffer params.pkt_buf
    → length header ≡ 12
    → dtoh32 header 0 ≡ 12 + length payload
    → dtoh16 header 4 ≡ 3
    → dtoh16 header 6 ≡ rc_ok
    → length payload ≤ usb_bulk_payload_len
    → unread link stream params ≡ header ++ (payload ++ rest)
    → (after : Params link) × (((ptp_usb_getresp link fuel params req
            ≡ some (after, rc_ok, response_container link after (header ++ payload)))
          × (unread link stream after ≡ rest))
        ⊎ (ptp_usb_getresp link fuel params req ≡ some (after, error_io, req)))
ptp_usb_getresp-packet link stream fuel params req header payload rest enough valid full field
      response fine small next =
    elim (read_control-Exactly link stream fuel enough params header payload rest valid full field
      response small next) [
        | inl h ↦ (
          h.after,
          inl (
            response_fine link stream fuel enough params req h.returns
                (ok_code link header payload full fine response req),
            h.left,
          ),
        )
        | inr (after, bytes, e, short) ↦
            (after, inr (response_failed link stream fuel enough params req e))
      ]
