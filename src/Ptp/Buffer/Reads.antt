-- ===== src/Ptp/Buffer/Reads.antt =====
-- The loops of reads and the reads through the buffer that stand on them: they end, and keep the
-- bytes of the stream in their order.
use native.Mathlib.Decide.{dec_lt}
use mathlib.Core.List.{append_assoc}
use mathlib.Core.Path.{subst}
use chdkptp_jet_tx1_jet_nano.Common.{
  ℕ, zero, suc, ◌+◌, ◌-◌, ◌≤◌, ◌<◌, ◌≡◌, ◌⊎◌, inl, inr, refl, sym, ◌∙◌, ap, Option, none, some,
  List, ◌++◌, length, length-append, arith, ge→ltb, lt→ltb,
}
use chdkptp_jet_tx1_jet_nano.Ptp.Link.{Link, IsStream}
use chdkptp_jet_tx1_jet_nano.Ptp.Buffer.{Fetched, fetched, read_failed, round, read_until}

module _ (link : Link) (stream : IsStream link) where
  -- The loop got enough, and what it got is next in the stream.
  pub record GotBytes (room min_size : ℕ) (s : link.State) (sofar : List ℕ)
      (r : link.State × Fetched) : Type 0 where
    pub more : List ℕ
    pub after : link.State
    pub returns : r ≡ (after, fetched (sofar ++ more))
    pub order : stream.pending s ≡ more ++ stream.pending after
    pub enough : min_size ≤ length (sofar ++ more)
    pub inside : length (sofar ++ more) ≤ room

  -- A read failed.
  abbrev pub Failed : link.State × Fetched → Type 0
  Failed r = (after : link.State) × (bytes : List ℕ) × (r ≡ (after, read_failed bytes))

  -- One round of the loop.
  module _ (fuel room min_size : ℕ) (s : link.State) (sofar : List ℕ) {s' : link.State} where
    round_failed :
        link.read_func s (room - length sofar) ≡ (s', none)
        → read_until link (suc fuel) room min_size s sofar ≡ (s', read_failed sofar)
    unfolding read_until
    round_failed e =
        ap (λ r. round link (λ s1 l. read_until link fuel room min_size s1 l) min_size sofar r) e

    round_short :
        {bs : List ℕ}
        → link.read_func s (room - length sofar) ≡ (s', some bs)
        → length (sofar ++ bs) < min_size
        → read_until link (suc fuel) room min_size s sofar
          ≡ read_until link fuel room min_size s' (sofar ++ bs)
    unfolding read_until
    round_short e short =
        ap (λ r. round link (λ s1 l. read_until link fuel room min_size s1 l) min_size sofar r) e
        ∙ (rw (lt→ltb _ _ short) refl)

    round_enough :
        {bs : List ℕ}
        → link.read_func s (room - length sofar) ≡ (s', some bs)
        → min_size ≤ length (sofar ++ bs)
        → read_until link (suc fuel) room min_size s sofar ≡ (s', fetched (sofar ++ bs))
    unfolding read_until
    round_enough e enough =
        ap (λ r. round link (λ s1 l. read_until link fuel room min_size s1 l) min_size sofar r) e
        ∙ (rw (ge→ltb _ _ enough) refl)

  pub read_until-GotBytes :
      (fuel room min_size : ℕ) (s : link.State) (sofar : List ℕ)
      → min_size + stream.empty_reads s < fuel + length sofar
      → length sofar < room
      → min_size ≤ room
      → 0 < fuel
      → GotBytes room min_size s sofar (read_until link fuel room min_size s sofar)
        ⊎ Failed (read_until link fuel room min_size s sofar)
  read_until-GotBytes zero room min_size s sofar enough free small some_fuel = absurd (omega arith)
  read_until-GotBytes (suc fuel) room min_size s sofar enough free small some_fuel =
      go
        (λ s1 sofar1 enough1 free1 some_fuel1.
          read_until-GotBytes fuel room min_size s1 sofar1 enough1 free1 small some_fuel1)
        (link.read_func s (room - length sofar)) refl
    where
      go :
          ((s1 : link.State) (sofar1 : List ℕ)
            → min_size + stream.empty_reads s1 < fuel + length sofar1
            → length sofar1 < room
            → 0 < fuel
            → GotBytes room min_size s1 sofar1 (read_until link fuel room min_size s1 sofar1)
              ⊎ Failed (read_until link fuel room min_size s1 sofar1))
          → (r : link.State × Option (List ℕ)) → link.read_func s (room - length sofar) ≡ r
          → GotBytes room min_size s sofar (read_until link (suc fuel) room min_size s sofar)
            ⊎ Failed (read_until link (suc fuel) room min_size s sofar)
      go again (s', none) e = inr (s', sofar, round_failed fuel room min_size s sofar e)
      go again (s', some bs) e =
          let total = length-append sofar bs in
          let one = stream.goes_on s (room - length sofar) e (omega arith) in
          elim (dec_lt (length (sofar ++ bs)) min_size) [
            | yes short ↦
                rw (round_short fuel room min_size s sofar e short)
                  (further bs e (again s' (sofar ++ bs) (omega arith) (omega arith) (omega arith)))
            | no long ↦ inl record {
              more = bs;
              after = s';
              returns = round_enough fuel room min_size s sofar e (omega arith);
              order = stream.in_order s (room - length sofar) e;
              enough = omega arith;
              inside = omega (arith, total, stream.at_most s (room - length sofar) e);
            }
          ]
        where
          further :
              (bs : List ℕ)
              → link.read_func s (room - length sofar) ≡ (s', some bs)
              → GotBytes room min_size s'
                  (sofar ++ bs)
                  (read_until link fuel room min_size s' (sofar ++ bs))
                ⊎ Failed (read_until link fuel room min_size s' (sofar ++ bs))
              → GotBytes room min_size s sofar (read_until link fuel room min_size s' (sofar ++ bs))
                ⊎ Failed (read_until link fuel room min_size s' (sofar ++ bs))
          further bs e (inr f) = inr f
          further bs e (inl g) = inl record {
            more = bs ++ g.more;
            after = g.after;
            returns = g.returns ∙ ap (λ l. (g.after, fetched l)) (append_assoc sofar bs g.more);
            order =
                stream.in_order s (room - length sofar) e
                ∙ ap (λ l. bs ++ l) g.order
                ∙ sym (append_assoc bs g.more (stream.pending g.after));
            enough = subst (λ l. min_size ≤ length l) (append_assoc sofar bs g.more) g.enough;
            inside = subst (λ l. length l ≤ room) (append_assoc sofar bs g.more) g.inside;
          }
