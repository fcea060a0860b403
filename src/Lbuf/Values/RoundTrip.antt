-- ===== src/Lbuf/Values/RoundTrip.antt =====
-- Numbers that are set are got back.
use native.Mathlib.Nat.{pow-suc}
use chdkptp_jet_tx1_jet_nano.Common.{
  ℕ, zero, suc, ◌+◌, ◌-◌, ◌*◌, ◌/◌, ◌%◌, ◌^◌, ◌≤◌, ◌<◌, ◌≡◌, refl, ap, ap₂, sym, subst, ◌∙◌, ◌⊎◌,
  inl, inr, arith, Option, none, some, List, [], ◌∷◌, Bool, true, false, ltb, ◌||◌, if◌then◌else◌,
  u32, length, Memory, load, load_lem, store, store_lem, put, size-put, cell-put_self, cell-put_ne,
}
use chdkptp_jet_tx1_jet_nano.Common
use chdkptp_jet_tx1_jet_nano.Common.Int.{ℤ, pos, ltb_ℤ, pos_part}
use chdkptp_jet_tx1_jet_nano.Common.Results.{ok, ◌>>=◌, ◌>>◌, raise_if, access}
use chdkptp_jet_tx1_jet_nano.Lbuf.Values.{
  load_le, store_le, get_loop, set_loop, get_vals, set_vals, past_last, get_count, set_count,
}

-- All numbers have at most `size` bytes.
abbrev pub AllBelow : ℕ → List ℕ → Type 0
AllBelow limit [] = Unit
AllBelow limit (v ∷ vs) = (v < limit) × AllBelow limit vs

cell-put_before : (m : Memory) (p v j : ℕ) → j < p → (put m p v).cell j ≡ m.cell j
unfolding put
cell-put_before m p v j h = ground arith

pub record IsStored (m m' : Memory) (p size v : ℕ) : Type 0 where
  pub same_size : m'.size ≡ m.size
  pub before : (j : ℕ) → j < p → m'.cell j ≡ m.cell j
  pub reads :
      (m2 : Memory)
      → m2.size ≡ m.size
      → ((j : ℕ) → j < p + size → m2.cell j ≡ m'.cell j)
      → load_le m2 p size ≡ some v

store_le-IsStored :
    (size : ℕ) (m : Memory) (p v : ℕ)
    → p + size ≤ m.size
    → v < 256 ^ size
    → (m' : Memory) × (store_le m p size v ≡ some m') × IsStored m m' p size v
unfolding store_le load_le
store_le-IsStored zero m p v room small = (
  m,
  refl,
  record { same_size = refl; before = λ j h. refl; reads = λ m2 same agree. ap some (omega arith) },
)
store_le-IsStored (suc size) m p v room small =
    let b = v % 256 in
    let m1 = put m p b in
    let rest_small : v / 256 < 256 ^ size = omega (arith, pow-suc 256 size) in
    let (m', e, rest) =
      store_le-IsStored size m1 (p + 1) (v / 256) (omega (arith, size-put m p b)) rest_small in
    (
      m',
      ap (λ o. Common.◌>>=◌ o λ m1. store_le m1 (p + 1) size (v / 256))
            (store_lem m p b (omega arith))
          ∙ e,
      record {
        same_size = rest.same_size ∙ size-put m p b;
        before = λ j h. rest.before j (omega arith) ∙ cell-put_before m p b j h;
        reads = λ m2 same agree.
            let first : load m2 p ≡ some b =
              load_lem m2 p (omega arith)
              ∙ ap some (
                  agree p (omega arith)
                  ∙ rest.before p (omega arith)
                  ∙ cell-put_self m p b
                  ∙ omega arith) in
            let others : load_le m2 (p + 1) size ≡ some (v / 256) =
              rest.reads m2 (same ∙ sym (size-put m p b)) (λ j h. agree j (omega arith)) in
            ap₂ (λ o o'. Common.◌>>=◌ o λ b. Common.◌>>=◌ o' λ v. some (b + 256 * v)) first others
            ∙ ap some (omega arith);
      },
    )

set_loop-get_loop :
    (size : ℕ) (vs : List ℕ) (m : Memory) (p : ℕ)
    → p + length vs * size ≤ m.size
    → AllBelow (256 ^ size) vs
    → (m' : Memory) × (set_loop m size (length vs) p vs ≡ some m')
      × (m'.size ≡ m.size)
      × ((j : ℕ) → j < p → m'.cell j ≡ m.cell j)
      × (get_loop m' size (length vs) p ≡ some vs)
unfolding set_loop get_loop
set_loop-get_loop size [] m p room small = (m, refl, refl, λ j h. refl, refl)
set_loop-get_loop size (v ∷ vs) m p room small =
    let split : suc (length vs) * size ≡ size + length vs * size = grind arith in
    let (m1, e1, first) = store_le-IsStored size m p v (omega arith) small.0 in
    let (m', e, same, before, got) =
      set_loop-get_loop size vs m1 (p + size) (omega (arith, first.same_size)) small.1 in
    (
      m',
      ap (λ o. Common.◌>>=◌ o λ m1. set_loop m1 size (length vs) (p + size) vs) e1 ∙ e,
      same ∙ first.same_size,
      λ j h. before j (omega arith) ∙ first.before j h,
      ap₂ (λ o o'. Common.◌>>=◌ o λ v. Common.◌>>=◌ o' λ vs. some (v ∷ vs))
          (first.reads m' (same ∙ first.same_size) (λ j h. before j h)) got,
    )

pub not_negative : (off : ℕ) → ltb_ℤ (pos off) (pos 0) ≡ false
not_negative off = ground arith

count_bound :
    (size off n len : ℕ) → 0 < size → 0 < n → off + n * size ≤ len → (n ≤ len) × (off + size ≤ len)
count_bound size off n len some_size some_vals fits =
    let n_le : n ≤ n * size = grind arith in
    let size_le : size ≤ n * size = grind arith in (omega arith, omega arith)

not_past :
    (buf : Memory) (size off : ℕ)
    → off + size ≤ buf.size
    → buf.size < 2 ^ 31
    → past_last buf size (pos off) ≡ false
unfolding past_last
not_past buf size off fits small = ground arith

set_count_all :
    (buf : Memory) (size off n : ℕ)
    → buf.size < 2 ^ 31
    → off + n * size ≤ buf.size
    → n ≤ buf.size
    → set_count buf size (pos off) n ≡ pos n
unfolding set_count
set_count_all buf size off n small fits n_le = ground arith

get_count_all :
    (buf : Memory) (size off n : ℕ)
    → buf.size < 2 ^ 31
    → off + n * size ≤ buf.size
    → n ≤ buf.size
    → get_count buf size (pos off) (pos n) ≡ pos n
unfolding get_count
get_count_all buf size off n small fits n_le =
    let same : u32 n ≡ n = omega arith in rw same (ground arith)

pub set_vals_step :
    (size : ℕ) (buf : Memory) (off : ℤ) (vs : List ℕ)
    → set_vals false size buf off vs ≡ (
        raise_if (ltb_ℤ off (pos 0)) "negative offset not allowed"
        >> (if past_last buf size off
            then ok (buf, pos 0)
            else (access (
                  set_loop buf size
                    (pos_part (set_count buf size off (length vs)))
                    (pos_part off)
                    vs)
                >>= λ out. ok (out, set_count buf size off (length vs)))))
unfolding set_vals
set_vals_step size buf off vs = refl

pub get_vals_step :
    (checkstack : ℤ → Bool) (size : ℕ) (buf : Memory) (off count : ℤ)
    → get_vals checkstack size buf off count ≡ (
        raise_if (ltb_ℤ off (pos 0)) "negative offset not allowed"
        >> (if past_last buf size off
            then ok []
            else (raise_if
                  (Common.not (checkstack (get_count buf size off count)))
                  "insufficient stack space"
                >> access
                    (get_loop buf size (pos_part (get_count buf size off count)) (pos_part off)))))
unfolding get_vals
get_vals_step checkstack size buf off count = refl

-- A width of 1 to 4 bytes, numbers of that many bytes, at least one of them, and room for all in a
-- buffer below 2 ^ 31 bytes that is not read-only: all are set, and where Lua's stack has room for them the same
-- offset and count give them back.
pub get_vals-set_vals :
    (checkstack : ℤ → Bool) (size : ℕ) (buf : Memory) (off : ℕ) (vs : List ℕ)
    → 0 < size
    → size ≤ 4
    → 0 < length vs
    → buf.size < 2 ^ 31
    → off + length vs * size ≤ buf.size
    → AllBelow (256 ^ size) vs
    → checkstack (pos (length vs)) ≡ true
    → (buf' : Memory) × (set_vals false size buf (pos off) vs ≡ ok (buf', pos (length vs)))
      × (get_vals checkstack size buf' (pos off) (pos (length vs)) ≡ ok vs)
get_vals-set_vals checkstack size buf off vs some_size narrow some_vals small fits each stack =
    let (buf', e, same, before, got) = set_loop-get_loop size vs buf off fits each in
    let bounds = count_bound size off (length vs) buf.size some_size some_vals fits in
    let same_past : past_last buf' size (pos off) ≡ false =
      not_past buf' size off (omega arith) (omega arith) in
    (
      buf',
      set_vals_step size buf (pos off) vs
          ∙ rw (
            not_negative off,
            not_past buf size off bounds.1 small,
            set_count_all buf size off (length vs) small fits bounds.0,
            e,
          ),
      get_vals_step checkstack size buf' (pos off) (pos (length vs))
          ∙ rw (
            not_negative off,
            same_past,
            get_count_all buf' size off (length vs) (omega arith) (omega arith) (omega arith),
            stack,
            got,
          ),
    )
