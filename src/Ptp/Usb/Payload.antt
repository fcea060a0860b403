-- ===== src/Ptp/Usb/Payload.antt =====
-- Reading a payload takes the next bytes, all of them and in their order.
use mathlib.Core.List.{append_assoc, append-nil}
use chdkptp_jet_tx1_jet_nano.Common.{
  ℕ, ◌+◌, ◌-◌, ◌%◌, ◌^◌, ◌≤◌, ◌<◌, ◌≡◌, ◌⊎◌, inl, inr, refl, sym, ◌∙◌, ap, Option, some, List, [],
  ◌++◌, length, length-append, ◌==◌, ==_iff, if◌then◌else◌, arith, slice, ge→ltb, lt→ltb,
}
use native.Mathlib.Decide.{dec_lt}
use chdkptp_jet_tx1_jet_nano.Ptp.Codes.{rc_ok, error_io, packet_buffer_size}
use chdkptp_jet_tx1_jet_nano.Ptp.Link.{Link, IsStream}
use chdkptp_jet_tx1_jet_nano.Ptp.Buffer.{
  PacketBuffer, Params, ptp_transport_read_from_buffer, Fetched, fetched, read_until, filled,
  with_fetched, ptp_transport_read_to_buffer,
}
use chdkptp_jet_tx1_jet_nano.Ptp.Buffer.Laws.{
  held, IsPacketBuffer, slice-get_or, read_from_buffer-TakesFirst, negative-small,
}
use chdkptp_jet_tx1_jet_nano.Ptp.Buffer.Reads.{read_until-GotBytes}
use chdkptp_jet_tx1_jet_nano.Ptp.Buffer.Control.{
  unread, read_to_buffer-loop, filled-TakesRest, TakesRest,
}
use chdkptp_jet_tx1_jet_nano.Ptp.Usb.Data.{rest_of_data, ptp_usb_read_data}

module _ (link : Link) (stream : IsStream link) (fuel size : ℕ) (counts : size < 2 ^ 31) where
  -- The bytes read so far, then some more, and what is unread then.
  pub record Completed (s : link.State) (bytes : List ℕ) (r : Option (Params link × ℕ × List ℕ))
      : Type 0 where
    pub after : Params link
    pub more : List ℕ
    pub returns : r ≡ some (after, rc_ok, bytes ++ more)
    pub complete : length (bytes ++ more) ≡ size
    pub order : stream.pending s ≡ more ++ unread link stream after
    pub valid : IsPacketBuffer after.pkt_buf

  abbrev pub GaveUp : Option (Params link × ℕ × List ℕ) → Type 0
  GaveUp r = (after : Params link) × (bytes : List ℕ) × (r ≡ some (after, error_io, bytes))

  module _ (params : Params link) (rest : ℕ) (s : link.State) (bytes : List ℕ) where
    abbrev here : Params link
    here = record params { state = s }

    rest_failed :
        {after : Params link}
        → ptp_transport_read_to_buffer link fuel here rest ≡ some (after, error_io)
        → rest_of_data link fuel size rest params (s, fetched bytes) ≡ some (after, error_io, bytes)
    rest_failed e = rw e refl

    rest_fine :
        {after : Params link} {got : List ℕ}
        → ptp_transport_read_to_buffer link fuel here rest ≡ some (after, rc_ok)
        → (t : TakesRest link stream rest after got) → length (bytes ++ t.rest) ≡ size
        → rest_of_data link fuel size rest params (s, fetched bytes)
          ≡ some (record after { pkt_buf = t.buffer }, rc_ok, bytes ++ t.rest)
    rest_fine {after} e t complete = rw e (ap finish t.taken ∙ rw ((==_iff _ _).1 complete) refl)
      where
        finish : PacketBuffer × List ℕ → Option (Params link × ℕ × List ℕ)
        finish r = some (
          record after { pkt_buf = r.0 },
          (if length (bytes ++ r.1) == size then rc_ok else error_io),
          bytes ++ r.1,
        )

    rest_of_data-Completed :
        params.pkt_buf.len ≡ 0
        → params.pkt_buf.pos ≡ 0
        → rest ≤ packet_buffer_size
        → packet_buffer_size + stream.most_empty < fuel
        → length bytes + rest ≡ size
        → Completed s bytes (rest_of_data link fuel size rest params (s, fetched bytes))
          ⊎ GaveUp (rest_of_data link fuel size rest params (s, fetched bytes))
    rest_of_data-Completed empty start small enough total =
        let few = stream.few_empty s in
        let loop = read_to_buffer-loop link stream fuel here rest empty start small in
        elim (read_until-GotBytes link stream fuel packet_buffer_size rest s [] (omega arith)
          (omega arith) small (omega arith)) [
            | inl g ↦
                let full : Params link = record here {
                  pkt_buf = filled link params.pkt_buf g.more (length g.more);
                  state = g.after;
                } in
                let holds : held full.pkt_buf ≡ g.more =
                  ap (λ i. slice full.pkt_buf.data_at i (length g.more)) start
                  ∙ slice-get_or g.more params.pkt_buf.data_at in
                let t = filled-TakesRest link stream full g.more rest holds (inr start) g.enough in
                let complete : length (bytes ++ t.rest) ≡ size =
                  omega (arith, length-append bytes t.rest, t.complete) in
                inl record {
                  after = record full { pkt_buf = t.buffer };
                  more = t.rest;
                  returns = rest_fine (loop ∙ ap (with_fetched link here) g.returns) t complete;
                  complete = complete;
                  order =
                      g.order
                      ∙ ap (λ l. l ++ stream.pending g.after) t.order
                      ∙ append_assoc t.rest (held t.buffer) (stream.pending g.after);
                  valid = t.valid;
                }
            | inr (after, got, e) ↦ inr (
              record here {
                pkt_buf = filled link params.pkt_buf got params.pkt_buf.len;
                state = after;
              },
              bytes,
              rest_failed (loop ∙ ap (with_fetched link here) e),
            )
          ]

  module _ (params : Params link) where
    abbrev first : PacketBuffer × List ℕ
    first = ptp_transport_read_from_buffer params.pkt_buf size

    abbrev emptied : Params link
    emptied = record params { pkt_buf = first.0 }

    abbrev last_part : ℕ
    last_part = (size - length first.1) % packet_buffer_size

    buffered :
        length first.1 ≡ size
        → ptp_usb_read_data link fuel params size ≡ some (emptied, rc_ok, first.1)
    unfolding ptp_usb_read_data
    buffered e = rw (negative-small size counts, ge→ltb (length first.1) size (omega arith)) refl

    without_bulk :
        length first.1 < size
        → size - last_part ≤ length first.1
        → ptp_usb_read_data link fuel params size
          ≡ rest_of_data link fuel size last_part emptied (params.state, fetched first.1)
    unfolding ptp_usb_read_data
    without_bulk short none_left =
        rw (negative-small size counts, lt→ltb (length first.1) size short)
          (rw (ge→ltb (length first.1) (size - last_part) none_left) refl)

    with_bulk :
        {r : link.State × Fetched}
        → length first.1 < size
        → length first.1 < size - last_part
        → read_until link fuel (size - last_part) (size - last_part) params.state first.1 ≡ r
        → ptp_usb_read_data link fuel params size ≡ rest_of_data link fuel size last_part emptied r
    unfolding ptp_usb_read_data
    with_bulk short some_left e =
        rw (negative-small size counts, lt→ltb (length first.1) size short)
          (rw (lt→ltb (length first.1) (size - last_part) some_left)
            (ap (λ r. rest_of_data link fuel size last_part emptied r) e))

  module _ (params : Params link) where
    abbrev Ends : Option (Params link × ℕ × List ℕ) → Type 0
    Ends r =
        (params' : Params link) × (code : ℕ) × (bytes : List ℕ) × (r ≡ some (params', code, bytes))
        × (((code ≡ rc_ok)
              × (length bytes ≡ size)
              × IsPacketBuffer params'.pkt_buf
              × (unread link stream params ≡ bytes ++ unread link stream params'))
            ⊎ (code ≡ error_io))

    Completed-Ends :
        (s : link.State) (bytes : List ℕ) {r r' : Option (Params link × ℕ × List ℕ)}
        → r ≡ r'
        → unread link stream params ≡ bytes ++ stream.pending s
        → Completed s bytes r' ⊎ GaveUp r'
        → Ends r
    Completed-Ends s bytes e before (inr (after, got, gave_up)) =
        (after, error_io, got, e ∙ gave_up, inr refl)
    Completed-Ends s bytes e before (inl c) = (
      c.after,
      rc_ok,
      bytes ++ c.more,
      e ∙ c.returns,
      inl (
        refl,
        c.complete,
        c.valid,
        before
            ∙ ap (λ l. bytes ++ l) c.order
            ∙ sym (append_assoc bytes c.more (unread link stream c.after)),
      ),
    )

    -- The buffer ran out before `size` bytes.
    short-Ends :
        (first params).0.len ≡ 0
        → (first params).0.pos ≡ 0
        → length (first params).1 < size
        → packet_buffer_size + size + stream.most_empty < fuel
        → held params.pkt_buf ≡ (first params).1
        → Ends (ptp_usb_read_data link fuel params size)
    short-Ends empty start short enough all =
        let f = first params in
        let rest = last_part params in
        let few = stream.few_empty params.state in
        let before = ap (λ l. l ++ stream.pending params.state) all in
        elim (dec_lt (length f.1) (size - rest)) [
          | no none_left ↦
              Completed-Ends params.state f.1 (without_bulk params short (omega arith)) before (
                rest_of_data-Completed (emptied params) rest params.state f.1 empty start
                  (omega arith) (omega arith) (omega arith))
          | yes some_left ↦
              elim (read_until-GotBytes link stream fuel (size - rest) (size - rest) params.state
                f.1 (omega arith) some_left (omega arith) (omega arith)) [
                  | inl g ↦
                      Completed-Ends g.after (f.1 ++ g.more)
                        (with_bulk params short some_left g.returns)
                        (before
                          ∙ ap (λ l. f.1 ++ l) g.order
                          ∙ sym (append_assoc f.1 g.more (stream.pending g.after)))
                        (rest_of_data-Completed (emptied params) rest g.after (f.1 ++ g.more) empty
                          start (omega arith) (omega arith) (omega (arith, g.enough, g.inside)))
                  | inr (after, got, e) ↦ (
                    record (emptied params) { state = after },
                    error_io,
                    got,
                    with_bulk params short some_left e,
                    inr refl,
                  )
                ]
        ]

-- With the link a stream of bytes, a valid packet buffer, a size below 2 ^ 31 and more fuel than 512
-- plus `size` and the empty reads in a row, reading a payload of `size` bytes ends. Either it succeeds, with exactly `size`
-- bytes and a valid buffer, and these and then the bytes unread afterwards are the bytes unread
-- before, in their order; or the result is an input error.
pub ptp_usb_read_data-unread :
    (link : Link) (stream : IsStream link) (fuel : ℕ) (params : Params link) (size : ℕ)
    → size < 2 ^ 31
    → IsPacketBuffer params.pkt_buf
    → packet_buffer_size + size + stream.most_empty < fuel
    → (params' : Params link) × (code : ℕ) × (bytes : List ℕ) × (ptp_usb_read_data link fuel params
          size
        ≡ some (params', code, bytes))
      × (((code ≡ rc_ok)
            × (length bytes ≡ size)
            × IsPacketBuffer params'.pkt_buf
            × (unread link stream params ≡ bytes ++ unread link stream params'))
          ⊎ (code ≡ error_io))
ptp_usb_read_data-unread link stream fuel params size counts valid enough =
    let f = first link stream fuel size counts params in
    let t = read_from_buffer-TakesFirst params.pkt_buf size valid in
    elim t.taken [
      | inl full ↦ (
        emptied link stream fuel size counts params,
        rc_ok,
        f.1,
        buffered link stream fuel size counts params full,
        inl (
          refl,
          full,
          t.valid,
          ap (λ l. l ++ stream.pending params.state) t.order
              ∙ append_assoc f.1 (held f.0) (stream.pending params.state),
        ),
      )
      | inr (short, empty) ↦
          short-Ends link stream fuel size counts params empty (omega (arith, t.valid)) short enough
            (t.order ∙ ap (λ n. f.1 ++ slice f.0.data_at f.0.pos n) empty ∙ append-nil f.1)
    ]
