-- ===== src/Lbuf/Values/Outside.antt =====
-- Numbers behind the end of a buffer that is shorter than one of them.
use chdkptp_jet_tx1_jet_nano.Common.{
  ℕ, zero, suc, ◌+◌, ◌-◌, ◌*◌, ◌/◌, ◌%◌, ◌^◌, ◌≤◌, ◌<◌, ◌≡◌, refl, ap, sym, subst, ◌∙◌, ◌⊎◌, inl,
  inr, arith, Option, none, some, List, [], ◌∷◌, Bool, true, false, ltb, ◌||◌, if◌then◌else◌, u32,
  length, Memory, store,
}
use chdkptp_jet_tx1_jet_nano.Common
use chdkptp_jet_tx1_jet_nano.Common.Int.{ℤ, pos}
use chdkptp_jet_tx1_jet_nano.Common.Results.{fault, err}
use chdkptp_jet_tx1_jet_nano.Lbuf.Values.{
  store_le, set_loop, get_vals, set_vals, past_last, values_that_fit, get_count, set_count,
}
use chdkptp_jet_tx1_jet_nano.Lbuf.Values.RoundTrip.{not_negative, set_vals_step, get_vals_step}

-- The test of the offset wraps around.
past_short :
    (buf : Memory) (size off : ℕ)
    → buf.size < size
    → size ≤ 4
    → off < 2 ^ 31
    → past_last buf size (pos off) ≡ false
unfolding past_last
past_short buf size off short narrow small = ground arith

module _ (checkstack : ℤ → Bool) (most : ℕ) (limit : most < 2 ^ 29)
    (full : (n : ℕ) → most < n → checkstack (pos n) ≡ false) (buf : Memory) (off : ℕ)
    (behind : buf.size < off) (small : off < 2 ^ 31) where
  no_room :
      (size n : ℕ)
      → past_last buf size (pos off) ≡ false
      → get_count buf size (pos off) (pos 1) ≡ pos n
      → most < n
      → get_vals checkstack size buf (pos off) (pos 1) ≡ err "insufficient stack space"
  no_room size n past count many =
      get_vals_step checkstack size buf (pos off) (pos 1)
      ∙ rw (not_negative off, past, count, full n many) refl

  count_two : get_count buf 2 (pos off) (pos 1) ≡ pos (u32 (buf.size + 2 ^ 32 - off) / 2)
  unfolding get_count values_that_fit
  count_two = ground arith

  count_four : get_count buf 4 (pos off) (pos 1) ≡ pos (u32 (buf.size + 2 ^ 32 - off) / 4)
  unfolding get_count values_that_fit
  count_four = ground arith

-- One number of 2 or 4 bytes, read from a buffer that is shorter than it, at an offset behind its end: the
-- tests wrap around, so that instead of giving nothing the call asks for more values than Lua's stack,
-- of a fixed maximum below 2 ^ 29, has room for, and raises that error.
pub get_vals_behind :
    (checkstack : ℤ → Bool) (most size : ℕ) (buf : Memory) (off : ℕ)
    → most < 2 ^ 29
    → ((n : ℕ) → most < n → checkstack (pos n) ≡ false)
    → (size ≡ 2) ⊎ (size ≡ 4)
    → buf.size < size
    → buf.size < off
    → off < 2 ^ 31
    → get_vals checkstack size buf (pos off) (pos 1) ≡ err "insufficient stack space"
get_vals_behind checkstack most size buf off limit full (inl e) short behind small =
    subst (λ n. get_vals checkstack n buf (pos off) (pos 1) ≡ err "insufficient stack space")
      (sym e)
      (no_room checkstack most limit full buf off behind small 2 (u32 (buf.size + 2 ^ 32 - off) / 2)
        (past_short buf 2 off (omega arith) (omega arith) small)
        (count_two checkstack most limit full buf off behind small) (omega arith))
get_vals_behind checkstack most size buf off limit full (inr e) short behind small =
    subst (λ n. get_vals checkstack n buf (pos off) (pos 1) ≡ err "insufficient stack space")
      (sym e)
      (no_room checkstack most limit full buf off behind small 4 (u32 (buf.size + 2 ^ 32 - off) / 4)
        (past_short buf 4 off (omega arith) (omega arith) small)
        (count_four checkstack most limit full buf off behind small) (omega arith))

store_le-outside :
    (buf : Memory) (p size v : ℕ) → 0 < size → buf.size ≤ p → store_le buf p size v ≡ none
unfolding store_le store
store_le-outside buf p zero v some_size h = absurd (omega arith)
store_le-outside buf p (suc size) v some_size h = ground arith

set_loop-outside :
    (buf : Memory) (p size v n : ℕ) (vs : List ℕ)
    → 0 < size
    → buf.size ≤ p
    → set_loop buf size (suc n) p (v ∷ vs) ≡ none
unfolding set_loop
set_loop-outside buf p size v n vs some_size h =
    ap (λ o. Common.◌>>=◌ o λ buf1. set_loop buf1 size n (p + size) vs)
      (store_le-outside buf p size v some_size h)

set_count_behind :
    (buf : Memory) (size off n : ℕ)
    → buf.size < off
    → off < 2 ^ 31
    → n ≤ n * size
    → n * size < 2 ^ 31
    → set_count buf size (pos off) n ≡ pos n
unfolding set_count
set_count_behind buf size off n behind small le room = ground arith

-- Numbers of 1 to 4 bytes, at least one and less than 2 ^ 31 bytes together, set in a buffer that is shorter
-- than one of them and not read-only, at an offset behind its end: the tests wrap around, so that
-- instead of changing nothing the call writes outside the buffer.
pub set_vals_behind :
    (size : ℕ) (buf : Memory) (off v : ℕ) (vs : List ℕ)
    → 0 < size
    → size ≤ 4
    → buf.size < size
    → buf.size < off
    → off < 2 ^ 31
    → length (v ∷ vs) * size < 2 ^ 31
    → set_vals false size buf (pos off) (v ∷ vs) ≡ fault
set_vals_behind size buf off v vs some_size narrow short behind small room =
    let le : length (v ∷ vs) ≤ length (v ∷ vs) * size = grind arith in
    set_vals_step size buf (pos off) (v ∷ vs)
    ∙ rw
        (
          not_negative off,
          past_short buf size off short narrow small,
          set_count_behind buf size off (length (v ∷ vs)) behind small le room,
          set_loop-outside buf off size v (length vs) vs some_size (omega arith),
        )
        refl
