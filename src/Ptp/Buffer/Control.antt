-- ===== src/Ptp/Buffer/Control.antt =====
-- Reads of a known size through the packet buffer.
use mathlib.Core.List.{append_assoc, append-nil}
use chdkptp_jet_tx1_jet_nano.Common.{
  ℕ, ◌+◌, ◌-◌, ◌^◌, ◌≤◌, ◌<◌, ◌≡◌, ◌⊎◌, inl, inr, refl, sym, ◌∙◌, ap, Option, some, List, [], ◌++◌,
  length, length-append, ◌==◌, ==_iff, if◌then◌else◌, arith, slice, ge→ltb, lt→ltb,
}
use chdkptp_jet_tx1_jet_nano.Ptp.Codes.{rc_ok, error_io, error_badparam, packet_buffer_size}
use chdkptp_jet_tx1_jet_nano.Ptp.Link.{Link, IsStream}
use chdkptp_jet_tx1_jet_nano.Ptp.Buffer.{
  PacketBuffer, Params, ptp_transport_read_from_buffer, read_until, filled, with_fetched,
  rest_from_buffer, ptp_transport_read_to_buffer, ptp_control_read_buffered,
}
use chdkptp_jet_tx1_jet_nano.Ptp.Buffer.Laws.{
  held, IsPacketBuffer, slice-get_or, read_from_buffer-TakesFirst, length-slice, TakesFirst,
  negative-small,
}
use chdkptp_jet_tx1_jet_nano.Ptp.Buffer.Reads.{read_until-GotBytes}

module _ (link : Link) (stream : IsStream link) where
  -- All bytes that the host has not consumed: those in the buffer, then those of the stream.
  abbrev pub unread : Params link → List ℕ
  unread params = held params.pkt_buf ++ stream.pending params.state

  -- Reading into an empty buffer runs the loop.
  pub read_to_buffer-loop :
      (fuel : ℕ) (params : Params link) (min_size : ℕ)
      → params.pkt_buf.len ≡ 0
      → params.pkt_buf.pos ≡ 0
      → min_size ≤ packet_buffer_size
      → ptp_transport_read_to_buffer link fuel params min_size
        ≡ with_fetched link params
            (read_until link fuel packet_buffer_size min_size params.state [])
  unfolding ptp_transport_read_to_buffer
  read_to_buffer-loop fuel params min_size empty start small =
      rw (empty, start, ge→ltb _ _ small) refl

  -- The rest that a read of a known size takes from the buffer after it was filled.
  pub record TakesRest (missing : ℕ) (params : Params link) (bytes : List ℕ) : Type 0 where
    pub buffer : PacketBuffer
    pub rest : List ℕ
    pub taken : ptp_transport_read_from_buffer params.pkt_buf missing ≡ (buffer, rest)
    pub complete : length rest ≡ missing
    pub order : bytes ≡ rest ++ held buffer
    pub valid : IsPacketBuffer buffer

  pub filled-TakesRest :
      (params : Params link) (bytes : List ℕ) (missing : ℕ)
      → held params.pkt_buf ≡ bytes
      → IsPacketBuffer params.pkt_buf
      → missing ≤ length bytes
      → TakesRest missing params bytes
  filled-TakesRest params bytes missing holds valid enough =
      let t : TakesFirst params.pkt_buf missing
          (ptp_transport_read_from_buffer params.pkt_buf missing) =
        read_from_buffer-TakesFirst params.pkt_buf missing valid in
      let r = ptp_transport_read_from_buffer params.pkt_buf missing in
      let total : length bytes ≡ length r.1 + length (held r.0) =
        ap length (sym holds ∙ t.order) ∙ length-append r.1 (held r.0) in
      record {
        buffer = r.0;
        rest = r.1;
        taken = refl;
        complete = omega (arith, t.taken, total, length-slice r.0.data_at r.0.pos r.0.len);
        order = sym holds ∙ t.order;
        valid = t.valid;
      }

  rest-TakesRest :
      (params : Params link) (bytes sofar : List ℕ) (missing : ℕ)
      (t : TakesRest missing params bytes)
      → rest_from_buffer link params rc_ok missing sofar
        ≡ (record params { pkt_buf = t.buffer }, rc_ok, sofar ++ t.rest)
  rest-TakesRest params bytes sofar missing t =
      ap (λ (r : PacketBuffer × List ℕ). the_rest r) t.taken ∙ rw ((==_iff _ _).1 t.complete) refl
    where
      the_rest : PacketBuffer × List ℕ → Params link × ℕ × List ℕ
      the_rest r = (
        record params { pkt_buf = r.0 },
        (if length r.1 == missing then rc_ok else error_badparam),
        sofar ++ r.1,
      )

  -- A read that returned the next `size` bytes.
  pub record Served (size : ℕ) (params : Params link) (r : Option (Params link × ℕ × List ℕ))
      : Type 0 where
    pub after : Params link
    pub bytes : List ℕ
    pub returns : r ≡ some (after, rc_ok, bytes)
    pub complete : length bytes ≡ size
    pub order : unread params ≡ bytes ++ unread after
    pub valid : IsPacketBuffer after.pkt_buf

  -- A read that gave up because the connection did.
  pub record Broken (size : ℕ) (r : Option (Params link × ℕ × List ℕ)) : Type 0 where
    pub after : Params link
    pub bytes : List ℕ
    pub returns : r ≡ some (after, error_io, bytes)
    pub short : length bytes ≤ size
    pub valid : IsPacketBuffer after.pkt_buf

  -- The two branches of `ptp_control_read_buffered`.
  module _ (fuel : ℕ) (params : Params link) (size : ℕ) where
    abbrev first : PacketBuffer × List ℕ
    first = ptp_transport_read_from_buffer params.pkt_buf size

    abbrev emptied : Params link
    emptied = record params { pkt_buf = first.0 }

    from_buffer :
        length first.1 ≡ size
        → size < 2 ^ 31
        → ptp_control_read_buffered link fuel params size ≡ some (emptied, rc_ok, first.1)
    unfolding ptp_control_read_buffered
    from_buffer e small =
        rw (negative-small size small, ge→ltb (length first.1) size (omega arith)) refl

    from_link :
        {filled_params : Params link} {code : ℕ}
        → length first.1 < size
        → size < 2 ^ 31
        → ptp_transport_read_to_buffer link fuel emptied (size - length first.1)
          ≡ some (filled_params, code)
        → ptp_control_read_buffered link fuel params size
          ≡ some (rest_from_buffer link filled_params code (size - length first.1) first.1)
    unfolding ptp_control_read_buffered
    from_link short small e =
        rw (negative-small size small, lt→ltb (length first.1) size short, e) refl

    control_read_short :
        first.0.len ≡ 0
        → first.0.pos ≡ 0
        → length first.1 < size
        → size ≤ packet_buffer_size
        → packet_buffer_size + stream.most_empty < fuel
        → held params.pkt_buf ≡ first.1
        → Served size params (ptp_control_read_buffered link fuel params size)
          ⊎ Broken size (ptp_control_read_buffered link fuel params size)
    control_read_short empty start short small enough all =
        let missing = size - length first.1 in
        let few = stream.few_empty params.state in
        let loop = read_to_buffer-loop fuel emptied missing empty start (omega arith) in
        elim (read_until-GotBytes link stream fuel packet_buffer_size missing params.state []
          (omega arith) (omega arith) (omega arith) (omega arith)) [
            | inl g ↦
                let full : Params link = record emptied {
                  pkt_buf = filled link first.0 g.more (length g.more);
                  state = g.after;
                } in
                let holds : held full.pkt_buf ≡ g.more =
                  ap (λ i. slice full.pkt_buf.data_at i (length g.more)) start
                  ∙ slice-get_or g.more first.0.data_at in
                let t = filled-TakesRest full g.more missing holds (inr start) g.enough in
                inl record {
                  after = record full { pkt_buf = t.buffer };
                  bytes = first.1 ++ t.rest;
                  returns =
                      from_link short (omega arith)
                        (loop ∙ ap (with_fetched link emptied) g.returns)
                      ∙ ap some (rest-TakesRest full g.more first.1 missing t);
                  complete = omega (arith, length-append first.1 t.rest, t.complete);
                  order =
                      ap (λ l. l ++ stream.pending params.state) all
                      ∙ ap (λ l. first.1 ++ l)
                          (g.order
                            ∙ ap (λ l. l ++ stream.pending g.after) t.order
                            ∙ append_assoc t.rest (held t.buffer) (stream.pending g.after))
                      ∙ sym (append_assoc first.1 t.rest (held t.buffer ++ stream.pending g.after));
                  valid = t.valid;
                }
            | inr (after, bytes, e) ↦ inr record {
              after = record emptied {
                pkt_buf = filled link first.0 bytes first.0.len;
                state = after;
              };
              bytes = first.1;
              returns = from_link short (omega arith) (loop ∙ ap (with_fetched link emptied) e);
              short = omega arith;
              valid = inr start;
            }
          ]

    pub control_read-Served :
        IsPacketBuffer params.pkt_buf
        → size ≤ packet_buffer_size
        → packet_buffer_size + stream.most_empty < fuel
        → Served size params (ptp_control_read_buffered link fuel params size)
          ⊎ Broken size (ptp_control_read_buffered link fuel params size)
    control_read-Served valid small enough =
        let t = read_from_buffer-TakesFirst params.pkt_buf size valid in
        elim t.taken [
          | inl full ↦ inl record {
            after = emptied;
            bytes = first.1;
            returns = from_buffer full (omega arith);
            complete = full;
            order =
                ap (λ l. l ++ stream.pending params.state) t.order
                ∙ append_assoc first.1 (held first.0) (stream.pending params.state);
            valid = t.valid;
          }
          | inr (short, empty) ↦
              control_read_short empty (omega (arith, t.valid)) short small enough (
                t.order
                ∙ ap (λ n. first.1 ++ slice first.0.data_at first.0.pos n) empty
                ∙ append-nil first.1)
        ]

-- With the link a stream of bytes, a valid packet buffer, a size within it and more fuel than its 512
-- bytes and the empty reads in a row, reading `size` bytes through the buffer ends with a valid buffer, in one of two ways.
-- Either it succeeds, and the bytes read and then those left unread, in the buffer and on the link,
-- are the bytes that were unread before, in their order, with exactly `size` of them read; or a read
-- of the link failed, and the result is an input error.
pub control_read_buffered-unread :
    (link : Link) (stream : IsStream link) (fuel : ℕ) (params : Params link) (size : ℕ)
    → IsPacketBuffer params.pkt_buf
    → size ≤ packet_buffer_size
    → packet_buffer_size + stream.most_empty < fuel
    → (params' : Params link) × (code : ℕ) × (bytes : List ℕ) × (ptp_control_read_buffered link fuel
          params size
        ≡ some (params', code, bytes))
      × IsPacketBuffer params'.pkt_buf
      × (((code ≡ rc_ok)
            × (length bytes ≡ size)
            × (unread link stream params ≡ bytes ++ unread link stream params'))
          ⊎ (code ≡ error_io))
control_read_buffered-unread link stream fuel params size valid small enough =
    elim (control_read-Served link stream fuel params size valid small enough) [
      | inl s ↦ (s.after, rc_ok, s.bytes, s.returns, s.valid, inl (refl, s.complete, s.order))
      | inr b ↦ (b.after, error_io, b.bytes, b.returns, b.valid, inr refl)
    ]
