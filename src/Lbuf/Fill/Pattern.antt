-- ===== src/Lbuf/Fill/Pattern.antt =====
-- What filling a buffer with a pattern leaves.
use native.Mathlib.Decide.{dec_lt}
use native.Mathlib.Nat.{mod-eq_of_lt, mod-eq-sub-mod, mod-lt}
use chdkptp_jet_tx1_jet_nano.Common.{
  ℕ, zero, suc, ◌+◌, ◌-◌, ◌*◌, ◌/◌, ◌%◌, ◌^◌, ◌≤◌, ◌<◌, ◌≡◌, refl, ap, ap₂, sym, ◌∙◌, ◌⊎◌, inl, inr,
  arith, Option, none, some, false, ltb, leb, lt→ltb, ge→ltb, ◌==◌, ◌||◌, if◌then◌else◌, u8, u32,
  Memory, store, store_lem, put, size-put, cell-put_self, min,
}
use chdkptp_jet_tx1_jet_nano.Common
use chdkptp_jet_tx1_jet_nano.Lbuf.Fill.{copy_bytes, copies, fill_bytes_of, fill_with, lbuf_fill}

-- From `p` on, `n` bytes of `m'` are those of `f`, and all others are those of `m`.
pub record IsFilled (m m' : Memory) (p n : ℕ) (f : ℕ → ℕ) : Type 0 where
  pub same_size : m'.size ≡ m.size
  pub before : (j : ℕ) → j < p → m'.cell j ≡ m.cell j
  pub after : (j : ℕ) → p + n ≤ j → m'.cell j ≡ m.cell j
  pub filled : (j : ℕ) → j < n → m'.cell (p + j) ≡ u8 (f j)

put_before : (m : Memory) (p v j : ℕ) → j < p → (put m p v).cell j ≡ m.cell j
unfolding put
put_before m p v j h = ground arith

put_after : (m : Memory) (p v j : ℕ) → p < j → (put m p v).cell j ≡ m.cell j
unfolding put
put_after m p v j h = ground arith

copied :
    (m m1 m' : Memory) (val : ℕ → ℕ) (i p n : ℕ)
    → m1 ≡ put m p (val i)
    → IsFilled m1 m' (p + 1) n (λ j. val (i + 1 + j))
    → (j : ℕ) → j < suc n
    → m'.cell (p + j) ≡ u8 (val (i + j))
copied m m1 m' val i p n e rest zero h =
    let here : p + zero ≡ p = omega arith in
    let same : i + zero ≡ i = omega arith in
    rw (here, same, rest.before p (omega arith), e) (cell-put_self m p (val i))
copied m m1 m' val i p n e rest (suc j) h =
    let there : p + suc j ≡ p + 1 + j = omega arith in
    let same : i + suc j ≡ i + 1 + j = omega arith in rw (there, same) (rest.filled j (omega arith))

copy_bytes-IsFilled :
    (n : ℕ) (val : ℕ → ℕ) (i p : ℕ) (m : Memory)
    → p + n ≤ m.size
    → (m' : Memory) × (copy_bytes val n i p m ≡ some m') × IsFilled m m' p n (λ j. val (i + j))
unfolding copy_bytes
copy_bytes-IsFilled zero val i p m room = (
  m,
  refl,
  record {
    same_size = refl;
    before = λ j h. refl;
    after = λ j h. refl;
    filled = λ j h. absurd (omega arith);
  },
)
copy_bytes-IsFilled (suc n) val i p m room =
    let m1 = put m p (val i) in
    let (m', e, rest) =
      copy_bytes-IsFilled n val (i + 1) (p + 1) m1 (omega (arith, size-put m p (val i))) in
    (
      m',
      ap (λ o. Common.◌>>=◌ o λ m1. copy_bytes val n (i + 1) (p + 1) m1)
            (store_lem m p (val i) (omega arith))
          ∙ e,
      record {
        same_size = rest.same_size ∙ size-put m p (val i);
        before = λ j h. rest.before j (omega arith) ∙ put_before m p (val i) j h;
        after = λ j h. rest.after j (omega arith) ∙ put_after m p (val i) j (omega arith);
        filled = copied m m1 m' val i p n (λ _. m1) rest;
      },
    )

copies-IsFilled :
    (val : ℕ → ℕ) (fill_len rest : ℕ)
    → rest < fill_len
    → (count p : ℕ) (m : Memory) → p + (count * fill_len + rest) ≤ m.size
    → (m' : Memory) × (copies val fill_len rest count p m ≡ some m')
      × IsFilled m m' p (count * fill_len + rest) (λ j. val (j % fill_len))
unfolding copies
copies-IsFilled val fill_len rest part zero p m room =
    let (m', e, is) = copy_bytes-IsFilled rest val 0 p m (omega arith) in
    (
      m',
      e,
      record {
        same_size = is.same_size;
        before = is.before;
        after = λ j h. is.after j (omega arith);
        filled = λ j h.
            let small : j % fill_len ≡ j = mod-eq_of_lt (omega arith) in
            rw small (is.filled j (omega arith) ∙ ap (λ k. u8 (val k)) (omega arith));
      },
    )
copies-IsFilled val fill_len rest part (suc count) p m room =
    let split : suc count * fill_len ≡ fill_len + count * fill_len = grind arith in
    let (m1, e1, first) = copy_bytes-IsFilled fill_len val 0 p m (omega arith) in
    let (m', e, others) =
      copies-IsFilled val fill_len rest part count (p + fill_len) m1
        (omega (arith, first.same_size)) in
    (
      m',
      ap (λ o. Common.◌>>=◌ o λ m1. copies val fill_len rest count (p + fill_len) m1) e1 ∙ e,
      record {
        same_size = others.same_size ∙ first.same_size;
        before = λ j h. others.before j (omega arith) ∙ first.before j h;
        after = λ j h. others.after j (omega arith) ∙ first.after j (omega arith);
        filled = λ j h. elim (dec_lt j fill_len) [
          | yes near ↦
              let small : j % fill_len ≡ j = mod-eq_of_lt near in
              rw small (
                others.before (p + j) (omega arith)
                ∙ first.filled j near
                ∙ ap (λ k. u8 (val k)) (omega arith))
          | no far ↦
              let back : j % fill_len ≡ (j - fill_len) % fill_len = mod-eq-sub-mod (omega arith) in
              let there : p + j ≡ p + fill_len + (j - fill_len) = omega arith in
              rw (back, there) (others.filled (j - fill_len) (omega arith))
        ];
      },
    )

some_to_fill : (room count pl : ℕ) → 0 < room → 0 < pl → 0 < count → 0 < min room (count * pl)
some_to_fill room count pl some_room some_pattern some_count =
    let some_product : 1 ≤ count * pl = grind arith in omega arith

same_index : (fb pl j : ℕ) → j < fb → 0 < pl → j % (if ltb fb pl then fb else pl) ≡ j % pl
same_index fb pl j h some_pattern = elim (dec_lt fb pl) [
  | yes short ↦ rw (lt→ltb fb pl short) (mod-eq_of_lt h ∙ sym (mod-eq_of_lt (omega arith)))
  | no long ↦ rw (ge→ltb fb pl (omega arith)) (refl)
]

parts_sum : (n k : ℕ) → 0 < k → n / k * k + n % k ≡ n
parts_sum n k h = grind arith

lbuf_fill_step :
    (buf pattern_block : Memory) (offset count : ℕ)
    → offset < buf.size
    → 0 < pattern_block.size
    → lbuf_fill buf pattern_block offset (some count)
      ≡ fill_with buf pattern_block offset (fill_bytes_of buf.size offset count pattern_block.size)
unfolding lbuf_fill
lbuf_fill_step buf pattern_block offset count inside some_pattern =
    let test : ((pattern_block.size == 0) || leb buf.size offset) ≡ false = ground arith in
    ap
      (λ c.
        if c
        then some (buf, 0)
        else fill_with buf pattern_block offset
            (fill_bytes_of buf.size offset count pattern_block.size))
      test

fill_bytes_min :
    (len offset count pl : ℕ)
    → count * pl < 2 ^ 32
    → fill_bytes_of len offset count pl ≡ min (len - offset) (count * pl)
unfolding fill_bytes_of
fill_bytes_min len offset count pl fits = ground arith

fill_with_step :
    (buf pattern_block : Memory) (offset fb : ℕ)
    → 0 < fb
    → fill_with buf pattern_block offset fb ≡ (
        let fl = if ltb fb pattern_block.size then fb else pattern_block.size in
        Common.◌>>=◌
          (copies pattern_block.cell fl (fb % fl) (fb / fl) offset buf)
          λ out. some (out, fb))
unfolding fill_with
fill_with_step buf pattern_block offset fb some_bytes =
    let test : (fb == 0) ≡ false = ground arith in
    let fl = if ltb fb pattern_block.size then fb else pattern_block.size in
    ap
      (λ c.
        if c
        then some (buf, 0)
        else Common.◌>>=◌ (copies pattern_block.cell fl (fb % fl) (fb / fl) offset buf)
            λ out. some (out, fb))
      test

-- Filling from an offset inside a buffer below 2 ^ 31 bytes with a pattern of at least one byte, `count`
-- times, where the bytes of all repetitions are some and fit 32 bits: the call returns how many bytes
-- it wrote, which is all of the repetitions or up to the end of the buffer; byte j of them is
-- byte j modulo its length of the pattern, and all other bytes stay.
pub lbuf_fill-IsFilled :
    (buf pattern_block : Memory) (offset count : ℕ)
    → buf.size < 2 ^ 31
    → offset < buf.size
    → 0 < pattern_block.size
    → 0 < count
    → count * pattern_block.size < 2 ^ 32
    → (out : Memory) × (lbuf_fill buf pattern_block offset (some count)
        ≡ some (out, min (buf.size - offset) (count * pattern_block.size)))
      × IsFilled buf out offset
          (min (buf.size - offset) (count * pattern_block.size))
          (λ j. pattern_block.cell (j % pattern_block.size))
lbuf_fill-IsFilled buf pattern_block offset count small inside some_pattern some_count fits =
    let pl = pattern_block.size in
    let fb = min (buf.size - offset) (count * pl) in
    let fl = if ltb fb pl then fb else pl in
    let some_bytes : 0 < fb =
      some_to_fill (buf.size - offset) count pl (omega arith) some_pattern some_count in
    let some_len : 0 < fl = ground arith in
    let whole : fb / fl * fl + fb % fl ≡ fb = parts_sum fb fl some_len in
    let part : fb % fl < fl = mod-lt fb some_len in
    let (out, e, is) =
      copies-IsFilled pattern_block.cell fl (fb % fl) part (fb / fl) offset buf (omega arith) in
    (
      out,
      lbuf_fill_step buf pattern_block offset count inside some_pattern
          ∙ ap (fill_with buf pattern_block offset) (fill_bytes_min buf.size offset count pl fits)
          ∙ fill_with_step buf pattern_block offset fb some_bytes
          ∙ ap (λ o. Common.◌>>=◌ o λ out. some (out, fb)) e,
      record {
        same_size = is.same_size;
        before = is.before;
        after = λ j h. is.after j (omega arith);
        filled = λ j h.
            is.filled j (omega arith)
            ∙ ap (λ k. u8 (pattern_block.cell k)) (same_index fb pl j h some_pattern);
      },
    )
