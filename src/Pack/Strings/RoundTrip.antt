-- ===== src/Pack/Strings/RoundTrip.antt =====
-- A packed string is unpacked again.
use chdkptp_jet_tx1_jet_nano.Common.{
  ℕ, suc, ◌+◌, ◌*◌, ◌^◌, ◌≤◌, ◌<◌, ◌≡◌, refl, ap, ap₂, ◌∙◌, arith, Option, none, some, List, [],
  ◌∷◌, ◌++◌, length, ◌==◌, if◌then◌else◌, u8, u16, Memory, load, load_lem, store, store_lem, put,
  size-put, cell-put_self, false, ◌>>=◌,
}
use chdkptp_jet_tx1_jet_nano.Pack.Integers.{
  ByteOrder, le, be, join16, byte16, dtoh8a, dtoh16a, htod8a, htod16a,
}
use chdkptp_jet_tx1_jet_nano.Pack.Strings.{
  Unpacked, unpack_chars, pack_chars, close, ptp_unpack_string, ptp_pack_string,
}

-- Every character is a byte.
abbrev pub AllBytes : List ℕ → Type 0
AllBytes [] = Unit
AllBytes (c ∷ cs) = (c < 256) × AllBytes cs

-- What a 16-bit write leaves.
pub put16 : ByteOrder → Memory → ℕ → ℕ → Memory
put16 o m i v = put (put m i (byte16 o v 0)) (i + 1) (byte16 o v 1)

pub htod16a_lem :
    (o : ByteOrder) (m : Memory) (i v : ℕ) → i + 2 ≤ m.size → htod16a o m i v ≡ some (put16 o m i v)
unfolding htod16a put16 store put
htod16a_lem o m i v h = ground arith

put16-size : (o : ByteOrder) (m : Memory) (i v : ℕ) → (put16 o m i v).size ≡ m.size
unfolding put16 put
put16-size o m i v = refl

put16-below : (o : ByteOrder) (m : Memory) (i v j : ℕ) → j < i → (put16 o m i v).cell j ≡ m.cell j
unfolding put16 put
put16-below o m i v j h = ground arith

-- A memory that has the two bytes of a write gives the number back.
dtoh16a-put16 :
    (o : ByteOrder) (m m' : Memory) (i v : ℕ)
    → v < 2 ^ 16
    → i + 2 ≤ m'.size
    → m'.cell i ≡ (put16 o m i v).cell i
    → m'.cell (i + 1) ≡ (put16 o m i v).cell (i + 1)
    → dtoh16a o m' i ≡ some v
unfolding dtoh16a put16 put load
dtoh16a-put16 le m m' i v small room a b = ground arith
dtoh16a-put16 be m m' i v small room a b = ground arith

dtoh16a_lem :
    (o : ByteOrder) (m : Memory) (i : ℕ)
    → i + 2 ≤ m.size
    → dtoh16a o m i ≡ some (join16 o (m.cell i) (m.cell (i + 1)))
unfolding dtoh16a load
dtoh16a_lem o m i h = ground arith

dtoh8a_lem : (m : Memory) (i : ℕ) → i < m.size → dtoh8a m i ≡ some (m.cell i)
unfolding dtoh8a
dtoh8a_lem m i h = load_lem m i h

put-below : (m : Memory) (i v j : ℕ) → j < i → (put m i v).cell j ≡ m.cell j
unfolding put
put-below m i v j h = ground arith

htod8a_lem : (m : Memory) (i v : ℕ) → i < m.size → htod8a m i v ≡ some (put m i v)
unfolding htod8a
htod8a_lem m i v h = store_lem m i v h

pack_string_step :
    (o : ByteOrder) (s : List ℕ) (m : Memory) (offset : ℕ)
    → ptp_pack_string o s m offset ≡ (
        htod8a m (u16 offset) (u8 (length s) + 1) >>= λ m1.
        pack_chars o m1 (u16 offset) 0 s (u8 (length s)))
unfolding ptp_pack_string
pack_string_step o s m offset = refl

unpack_string_step :
    (o : ByteOrder) (m : Memory) (offset : ℕ)
    → ptp_unpack_string o m offset ≡ (
        dtoh8a m (u16 offset) >>= λ len. unpack_chars o m (u16 offset) len 0 >>= λ cs.
        some (record { string = if len == 0 then none else some (close cs); len = len }))
unfolding ptp_unpack_string
unpack_string_step o m offset = refl

module _ (o : ByteOrder) (off : ℕ) where
  -- What the loop leaves, from character `i` on.
  record IsPacked (m m' : Memory) (i : ℕ) (cs : List ℕ) : Type 0 where
    same_size : m'.size ≡ m.size
    before : (j : ℕ) → j < off + i * 2 + 1 → m'.cell j ≡ m.cell j
    last : ℕ
    unpacked : unpack_chars o m' off (suc (length cs)) i ≡ some (cs ++ last ∷ [])

  pack_chars-IsPacked :
      (cs : List ℕ) (i : ℕ) (m : Memory)
      → AllBytes cs
      → off + (i + length cs) * 2 + 3 ≤ m.size
      → (m' : Memory) × (pack_chars o m off i cs (length cs) ≡ some m') × IsPacked m m' i cs
  unfolding pack_chars unpack_chars
  pack_chars-IsPacked [] i m bytes room =
      let at = off + i * 2 + 1 in
      let word = join16 o (m.cell at) (m.cell (at + 1)) in
      (
        m,
        refl,
        record {
          same_size = refl;
          before = λ j h. refl;
          last = u8 word;
          unpacked = ap (λ r. r >>= λ c. some (u8 c ∷ [])) (dtoh16a_lem o m at (omega arith));
        },
      )
  pack_chars-IsPacked (c ∷ cs) i m bytes room =
      let at = off + i * 2 + 1 in
      let m1 = put16 o m at c in
      let room1 : off + (i + 1 + length cs) * 2 + 3 ≤ m1.size =
        omega (arith, put16-size o m at c) in
      let (m', e, rest) = pack_chars-IsPacked cs (i + 1) m1 bytes.1 room1 in
      let first : dtoh16a o m' at ≡ some c =
        dtoh16a-put16 o m m' at c (omega (arith, bytes.0))
          (omega (arith, rest.same_size, put16-size o m at c)) (rest.before at (omega arith))
          (rest.before (at + 1) (omega arith)) in
      let same_byte : u8 c ≡ c = omega (arith, bytes.0) in
      (
        m',
        ap (λ r. r >>= λ m1. pack_chars o m1 off (i + 1) cs (length cs))
              (htod16a_lem o m at c (omega arith))
            ∙ e,
        record {
          same_size = rest.same_size ∙ put16-size o m at c;
          before = λ j h. rest.before j (omega arith) ∙ put16-below o m at c j h;
          last = rest.last;
          unpacked =
              ap₂ (λ r r'. r >>= λ c. r' >>= λ cs. some (u8 c ∷ cs)) first rest.unpacked
              ∙ ap (λ b. some (b ∷ (cs ++ rest.last ∷ []))) same_byte;
        },
      )

pub close-append : (cs : List ℕ) (c : ℕ) → close (cs ++ c ∷ []) ≡ cs ++ 0 ∷ []
unfolding close
close-append [] c = refl
close-append (d ∷ []) c = refl
close-append (d ∷ d' ∷ cs) c = ap (◌∷◌ d) (close-append (d' ∷ cs) c)

-- A string of fewer than 255 bytes, packed at an offset of 16 bits into a block with room for it and
-- for one more character, is unpacked again with its closing zero.
pub unpack_string-pack_string :
    (o : ByteOrder) (s : List ℕ) (m : Memory) (offset : ℕ)
    → AllBytes s
    → length s < 255
    → offset < 2 ^ 16
    → offset + length s * 2 + 3 ≤ m.size
    → (m' : Memory) × (ptp_pack_string o s m offset ≡ some m')
      × (m'.size ≡ m.size)
      × ((j : ℕ) → j < offset → m'.cell j ≡ m.cell j)
      × (ptp_unpack_string o m' offset
          ≡ some (record { string = some (s ++ 0 ∷ []); len = length s + 1 }))
unpack_string-pack_string o s m offset bytes short small room =
    let same : u16 offset ≡ offset = omega arith in
    let len : u8 (length s) ≡ length s = omega arith in
    let m1 = put m offset (length s + 1) in
    let (m', e, packed) =
      pack_chars-IsPacked o offset s 0 m1 bytes (omega (arith, size-put m offset (length s + 1))) in
    let count : dtoh8a m' offset ≡ some (suc (length s)) =
      dtoh8a_lem m' offset (omega (arith, packed.same_size, size-put m offset (length s + 1)))
      ∙ ap some (
          packed.before offset (omega arith)
          ∙ cell-put_self m offset (length s + 1)
          ∙ omega arith) in
    let not_zero : (suc (length s) == 0) ≡ false = ground arith in
    let one_more : suc (length s) ≡ length s + 1 = omega arith in
    (
      m',
      pack_string_step o s m offset
          ∙ ap₂ (λ a l. htod8a m a (l + 1) >>= λ m1. pack_chars o m1 a 0 s l) same len
          ∙ ap (λ r. r >>= λ m1. pack_chars o m1 offset 0 s (length s))
              (htod8a_lem m offset (length s + 1) (omega arith))
          ∙ e,
      packed.same_size ∙ size-put m offset (length s + 1),
      λ j h. packed.before j (omega arith) ∙ put-below m offset (length s + 1) j h,
      unpack_string_step o m' offset
          ∙ ap₂
              (λ a r. r >>= λ len. unpack_chars o m' a len 0 >>= λ cs.
                some (record { string = if len == 0 then none else some (close cs); len = len }))
              same (ap (dtoh8a m') same ∙ count)
          ∙ ap
              (λ r. r >>= λ cs. some (record {
                string = if suc (length s) == 0 then none else some (close cs);
                len = suc (length s);
              }))
              packed.unpacked
          ∙ ap₂
              (λ c n. some (record {
                string = if c then none else some (close (s ++ packed.last ∷ []));
                len = n;
              }))
              not_zero one_more
          ∙ ap (λ t. some (record { string = some t; len = length s + 1 }))
              (close-append s packed.last),
    )

after_count : ByteOrder → Memory → ℕ → ℕ → Option Unpacked
after_count o m offset len = unpack_chars o m (u16 offset) len 0 >>= λ cs.
    some (record { string = if len == 0 then none else some (close cs); len = len })

empty_string :
    (o : ByteOrder) (m : Memory) (offset : ℕ)
    → u16 offset ≡ offset
    → dtoh8a m offset ≡ some 0
    → ptp_unpack_string o m offset ≡ some (record { string = none; len = 0 })
unfolding unpack_chars after_count
empty_string o m offset same count =
    unpack_string_step o m offset
    ∙ ap (λ r. r >>= after_count o m offset) (ap (dtoh8a m) same ∙ count)

-- A string of 255 bytes is packed with a count of 0, so that no string is unpacked.
pub unpack_string-pack_string_255 :
    (o : ByteOrder) (s : List ℕ) (m : Memory) (offset : ℕ)
    → AllBytes s
    → length s ≡ 255
    → offset < 2 ^ 16
    → offset + 513 ≤ m.size
    → (m' : Memory) × (ptp_pack_string o s m offset ≡ some m')
      × (ptp_unpack_string o m' offset ≡ some (record { string = none; len = 0 }))
unpack_string-pack_string_255 o s m offset bytes long small room =
    let same : u16 offset ≡ offset = omega arith in
    let len : u8 (length s) ≡ length s = omega arith in
    let (m', e, packed) =
      pack_chars-IsPacked o offset s 0 (put m offset (length s + 1)) bytes
        (omega (arith, size-put m offset (length s + 1))) in
    let count : dtoh8a m' offset ≡ some 0 =
      dtoh8a_lem m' offset (omega (arith, packed.same_size, size-put m offset (length s + 1)))
      ∙ ap some (
          packed.before offset (omega arith)
          ∙ cell-put_self m offset (length s + 1)
          ∙ omega arith) in
    (
      m',
      pack_string_step o s m offset
          ∙ ap₂ (λ a l. htod8a m a (l + 1) >>= λ m1. pack_chars o m1 a 0 s l) same len
          ∙ ap (λ r. r >>= λ m1. pack_chars o m1 offset 0 s (length s))
              (htod8a_lem m offset (length s + 1) (omega arith))
          ∙ e,
      empty_string o m' offset same count,
    )
