-- ===== src/Ptp/Usb/Blocks.antt =====
-- The blocks of a payload, as a handler gets them.
use mathlib.Core.List.{append_assoc, append-nil}
use chdkptp_jet_tx1_jet_nano.Common.{
  ℕ, zero, suc, ◌+◌, ◌-◌, ◌^◌, ◌≤◌, ◌<◌, ◌≡◌, ◌≢◌, ◌⊎◌, inl, inr, refl, sym, ◌∙◌, ap, arith, Option,
  some, List, [], ◌++◌, length, length-append, Bool-cases, false, not, ◌==◌, ==_iff, ltb,
  if◌then◌else◌, ◌>>=◌,
}
use chdkptp_jet_tx1_jet_nano.Ptp.Codes.{rc_ok, error_io, packet_buffer_size}
use chdkptp_jet_tx1_jet_nano.Ptp.Link.{Link, IsStream}
use chdkptp_jet_tx1_jet_nano.Ptp.Buffer.{Params}
use chdkptp_jet_tx1_jet_nano.Ptp.Buffer.Laws.{IsPacketBuffer}
use chdkptp_jet_tx1_jet_nano.Ptp.Buffer.Control.{unread}
use chdkptp_jet_tx1_jet_nano.Ptp.Usb.Data.{ptp_usb_read_data, read_blocks}
use chdkptp_jet_tx1_jet_nano.Ptp.Usb.Payload.{ptp_usb_read_data-unread}

module _ (link : Link) (stream : IsStream link) {H : Type 0} (handler : H → List ℕ → H × ℕ)
    (seen : H → List ℕ)
    (keeps : (h : H) (bytes : List ℕ) → seen (handler h bytes).0 ≡ seen h ++ bytes)
    (fuel block_size : ℕ) where
  -- The loop ended: with success after all bytes in their order went to the handler, or with a failure.
  abbrev pub Delivered : Params link → H → ℕ → Option (Params link × ℕ × H) → Type 0
  Delivered params h to_read r =
      (params' : Params link) × (code : ℕ) × (h' : H) × (r ≡ some (params', code, h'))
      × (((code ≡ rc_ok)
            × ((bytes : List ℕ) × (length bytes ≡ to_read)
                × (unread link stream params ≡ bytes ++ unread link stream params')
                × (seen h' ≡ seen h ++ bytes)))
          ⊎ (code ≢ rc_ok))

  -- A round after its read.
  abbrev after_read : ℕ → ℕ → H → Params link → ℕ → List ℕ → Option (Params link × ℕ × H)
  after_read rounds left h p ret bytes =
      let (h', ret2) = handler h bytes in
      if not (ret == rc_ok)
      then some (p, ret, h)
      else if not (ret2 == rc_ok)
      then some (p, ret2, h')
      else read_blocks link handler fuel rounds block_size left p h' ret2

  abbrev read_size : ℕ → ℕ
  read_size to_read = if ltb block_size to_read then block_size else to_read

  round_step :
      (rounds to_read : ℕ) (params : Params link) (h : H) {p : Params link} {ret : ℕ}
      {bytes : List ℕ}
      → 0 < to_read
      → ptp_usb_read_data link fuel params (read_size to_read) ≡ some (p, ret, bytes)
      → read_blocks link handler fuel (suc rounds) block_size to_read params h rc_ok
        ≡ after_read rounds (to_read - read_size to_read) h p ret bytes
  unfolding read_blocks
  round_step rounds to_read params h some_left e =
      let left : (to_read == 0) ≡ false = ground arith in
      rw (left) (
        ap
          (λ r. do
            (p, ret1, bytes) ← r
            after_read rounds (to_read - read_size to_read) h p ret1 bytes)
          e)

  nothing_left :
      (rounds to_read : ℕ) (params : Params link) (h : H)
      → to_read ≡ 0
      → Delivered params h to_read
          (read_blocks link handler fuel rounds block_size to_read params h rc_ok)
  unfolding read_blocks
  nothing_left zero to_read params h e =
      (params, rc_ok, h, rw e refl, inl (refl, ([], sym e, refl, sym (append-nil (seen h)))))
  nothing_left (suc rounds) to_read params h e =
      (params, rc_ok, h, rw e refl, inl (refl, ([], sym e, refl, sym (append-nil (seen h)))))

  -- A block that was read, and what the rounds after it make of the rest.
  more_blocks :
      (rounds left to_read : ℕ) (params p : Params link) (h : H) (bytes : List ℕ)
      → length bytes + left ≡ to_read
      → unread link stream params ≡ bytes ++ unread link stream p
      → Delivered p
          (handler h bytes).0
          left
          (read_blocks link handler fuel rounds block_size left p (handler h bytes).0 rc_ok)
      → Delivered params h to_read (after_read rounds left h p rc_ok bytes)
  more_blocks rounds left to_read params p h bytes total order d =
      let (p', code, h', e, outcome) = d in
      elim (Bool-cases ((handler h bytes).1 == rc_ok)) [
        | inl accepted ↦ (
          p',
          code,
          h',
          rw accepted (
              ap
                (λ (c : ℕ).
                  read_blocks link handler fuel rounds block_size left p (handler h bytes).0 c)
                ((==_iff _ _).0 accepted)
              ∙ e),
          elim outcome [
            | inl (fine, (more, len, next, saw)) ↦ inl (
              fine,
              (
                bytes ++ more,
                omega (arith, length-append bytes more, len, total),
                order
                    ∙ ap (λ l. bytes ++ l) next
                    ∙ sym (append_assoc bytes more (unread link stream p')),
                saw ∙ ap (λ l. l ++ more) (keeps h bytes) ∙ append_assoc (seen h) bytes more,
              ),
            )
            | inr failed ↦ inr failed
          ],
        )
        | inr refused ↦ (
          p,
          (handler h bytes).1,
          (handler h bytes).0,
          rw refused refl,
          inr (λ same. cc (refused, (==_iff _ _).1 same)),
        )
      ]

  -- A round: its read fails, or the handler gets the block and the rounds after it the rest.
  one_block :
      (rounds to_read : ℕ) (params : Params link) (h : H) {p : Params link} {ret : ℕ}
      {bytes : List ℕ}
      → 0 < to_read
      → ptp_usb_read_data link fuel params (read_size to_read) ≡ some (p, ret, bytes)
      → ((ret ≡ rc_ok)
          × (length bytes ≡ read_size to_read)
          × (unread link stream params ≡ bytes ++ unread link stream p)
          × Delivered p (handler h bytes).0 (to_read - read_size to_read) (
              read_blocks link handler fuel rounds block_size
                (to_read - read_size to_read)
                p
                (handler h bytes).0
                rc_ok))
        ⊎ (ret ≡ error_io)
      → Delivered params h to_read
          (read_blocks link handler fuel (suc rounds) block_size to_read params h rc_ok)
  one_block rounds to_read params h {p} {ret} {bytes} some_left e (inl (fine, len, order, rest)) =
      let left = to_read - read_size to_read in
      let in_rest : read_size to_read ≤ to_read = ground arith in
      let (p', code, h', e', outcome) =
        more_blocks rounds left to_read params p h bytes (omega (arith, len)) order rest in
      (
        p',
        code,
        h',
        round_step rounds to_read params h some_left e
            ∙ ap (λ (c : ℕ). after_read rounds left h p c bytes) fine
            ∙ e',
        outcome,
      )
  one_block rounds to_read params h {p} {ret} {bytes} some_left e (inr failed) = (
    p,
    error_io,
    h,
    round_step rounds to_read params h some_left e
        ∙ ap (λ (c : ℕ). after_read rounds (to_read - read_size to_read) h p c bytes) failed,
    inr (λ same. omega (arith, same)),
  )

  -- With the link a stream of bytes, a valid packet buffer, a block size from 1 to 2 ^ 31 - 1, a handler
  -- whose state tells the bytes it got, more fuel than 512 plus the block size and the empty reads in
  -- a row, and at least one round for each byte, the loop over the blocks of `to_read` bytes ends.
  -- Either it succeeds, and the handler got exactly that many bytes, which and then the bytes unread
  -- afterwards are the bytes unread before, in their order; or the result is not a success.
  pub read_blocks-Delivered :
      (rounds to_read : ℕ) (params : Params link) (h : H)
      → 0 < block_size
      → block_size < 2 ^ 31
      → packet_buffer_size + block_size + stream.most_empty < fuel
      → IsPacketBuffer params.pkt_buf
      → to_read ≤ rounds
      → Delivered params h to_read
          (read_blocks link handler fuel rounds block_size to_read params h rc_ok)
  read_blocks-Delivered zero to_read params h some_block small enough valid le =
      nothing_left zero to_read params h (omega arith)
  read_blocks-Delivered (suc rounds) to_read params h some_block small enough valid le =
      elim (Bool-cases (to_read == 0)) [
        | inl done ↦ nothing_left (suc rounds) to_read params h ((==_iff _ _).0 done)
        | inr more ↦
            let some_left : 0 < to_read = ground (arith, more) in
            let in_block : read_size to_read ≤ block_size = ground arith in
            let some_size : 0 < read_size to_read = ground arith in
            let (p, ret, bytes, e, outcome) =
              ptp_usb_read_data-unread link stream fuel params (read_size to_read) (omega arith)
                valid (omega arith) in
            one_block rounds to_read params h some_left e (elim outcome [
              | inl (fine, len, valid', order) ↦ inl (
                fine,
                len,
                order,
                read_blocks-Delivered rounds (to_read - read_size to_read) p (handler h bytes).0
                    some_block small enough valid' (omega arith),
              )
              | inr failed ↦ inr failed
            ])
      ]
