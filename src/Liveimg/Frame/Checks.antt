-- ===== src/Liveimg/Frame/Checks.antt =====
-- What a description that has passed the tests guarantees.
use Prim.Native.String.{String}
use chdkptp_jet_tx1_jet_nano.Common.{
  ℕ, ◌+◌, ◌*◌, ◌/◌, ◌^◌, ◌≤◌, ◌<◌, ◌≡◌, ◌⊎◌, refl, ◌∙◌, ap, ap₂, sym, arith, Memory, Bool, true,
  false, if◌then◌else◌,
}
use chdkptp_jet_tx1_jet_nano.Common.Int.{ℤ, pos, ltb_ℤ, pos-mul}
use chdkptp_jet_tx1_jet_nano.Common.Results.{Result, fault, err, ok, ◌>>=◌, ◌>>◌, raise_if}
use chdkptp_jet_tx1_jet_nano.Liveimg.Frame.{
  FbDesc, in_int, eq_ℤ, get_fb_bpp, data_len, data_end, check_data, check_fb_desc, get_vp_desc,
  vp_type_supported, get_fb_desc, header, vp_desc_start,
}

-- A description with no negative number.
abbrev pub desc_of : ℤ → (start bw w h : ℕ) → FbDesc
desc_of type start bw w h = record {
  fb_type = type;
  data_start = pos start;
  buffer_width = pos bw;
  visible_width = pos w;
  visible_height = pos h;
}

in_int-pos : (n : ℕ) (v : ℤ) → in_int (pos n) ≡ ok v → (v ≡ pos n) × (n < 2 ^ 31)
unfolding in_int
in_int-pos n v h = ground arith

-- A chain that succeeds has a first step that succeeds.
pub both_ok {ℓ κ} :
    {S : Type ℓ} {T : Type κ} (first : Result S) (next : S → Result T) {t : T}
    → (first >>= next) ≡ ok t
    → (s : S) × (first ≡ ok s) × (next s ≡ ok t)
both_ok (ok s) next is_t = (s, refl, is_t)
both_ok (err e) next is_t = cc
both_ok fault next is_t = cc

data_end-pos :
    (type : ℤ) (start bw w h bpp : ℕ) (end : ℤ)
    → get_fb_bpp (desc_of type start bw w h) ≡ bpp
    → data_end (desc_of type start bw w h) ≡ ok end
    → (end ≡ pos (start + bw * h * bpp / 8)) × (bw * h * bpp < 2 ^ 31)
unfolding data_end
data_end-pos type start bw w h bpp end is_bpp e = ground (arith, pos-mul bw h, pos-mul (bw * h) bpp)

pub eq_ℤ-zero : (n : ℕ) → 0 < n → eq_ℤ (pos n) (pos 0) ≡ false
unfolding eq_ℤ
eq_ℤ-zero n h = ground arith

data_len_small : (frame : Memory) → frame.size < 2 ^ 31 → data_len frame ≡ pos frame.size
unfolding data_len
data_len_small frame h = ground arith

ok_value : {A : Type 0} {a b : A} → ok a ≡ ok b → a ≡ b
ok_value {a} e = ap (λ r. elim r [ ok x ↦ x | _ ↦ a ]) e

pub raise_if-ok :
    (c : Bool) (message : String) (t : Unit {0}) → raise_if c message ≡ ok t → c ≡ false
raise_if-ok true message t e = cc
raise_if-ok false message t e = refl

check_data_step :
    (frame : Memory) (d : FbDesc)
    → check_data frame d
      ≡ (data_end d >>= λ end. raise_if (ltb_ℤ (data_len frame) end) "data < buffer_width*height")
unfolding check_data
check_data_step frame d = refl

check_data-inside :
    (frame : Memory) (type : ℤ) (start bw w h bpp : ℕ) (t : Unit {0})
    → frame.size < 2 ^ 31
    → get_fb_bpp (desc_of type start bw w h) ≡ bpp
    → check_data frame (desc_of type start bw w h) ≡ ok t
    → (start + bw * h * bpp / 8 ≤ frame.size) × (bw * h * bpp < 2 ^ 31)
check_data-inside frame type start bw w h bpp t small is_bpp e =
    let d = desc_of type start bw w h in
    let (end, ends, k) =
      both_ok (data_end d)
        (λ end. raise_if (ltb_ℤ (data_len frame) end) "data < buffer_width*height")
        (sym (check_data_step frame d) ∙ e) in
    let at_end = data_end-pos type start bw w h bpp end is_bpp ends in
    let test : ltb_ℤ (pos frame.size) (pos (start + bw * h * bpp / 8)) ≡ false =
      ap₂ ltb_ℤ (sym (data_len_small frame small)) (sym at_end.0) ∙ raise_if-ok _ _ t k in
    (ground (arith), at_end.1)

then_bind : {B : Type 0} (m : Result (Unit {0})) (k : Result B) → (m >> k) ≡ (m >>= λ t. k)
then_bind fault k = refl
then_bind (err e) k = refl
then_bind (ok t) k = refl

check_fb_desc_step :
    (frame : Memory) (d : FbDesc)
    → eq_ℤ d.data_start (pos 0) ≡ false
    → check_fb_desc frame d ≡ (
        check_data frame d >>= λ t.
        raise_if (ltb_ℤ d.buffer_width d.visible_width) "width  > buffer_width" >> ok d)
unfolding check_fb_desc
check_fb_desc_step frame d e =
    ap
      (λ c.
        (if c then ok tt else check_data frame d)
        >> (raise_if (ltb_ℤ d.buffer_width d.visible_width) "width  > buffer_width" >> ok d))
      e
    ∙ then_bind (check_data frame d) _

-- The data and the rows of a description that passes lie where the conversions look for them.
pub check_fb_desc-inside :
    (frame : Memory) (type : ℤ) (start bw w h bpp : ℕ) (d : FbDesc)
    → frame.size < 2 ^ 31
    → 0 < start
    → get_fb_bpp (desc_of type start bw w h) ≡ bpp
    → check_fb_desc frame (desc_of type start bw w h) ≡ ok d
    → (start + bw * h * bpp / 8 ≤ frame.size)
      × (bw * h * bpp < 2 ^ 31)
      × (w ≤ bw)
      × (d ≡ desc_of type start bw w h)
check_fb_desc-inside frame type start bw w h bpp d small some_start is_bpp e =
    let desc = desc_of type start bw w h in
    let (t, checked, k) =
      both_ok (check_data frame desc)
        (λ t. raise_if (ltb_ℤ (pos bw) (pos w)) "width  > buffer_width" >> ok desc)
        (sym (check_fb_desc_step frame desc (eq_ℤ-zero start some_start)) ∙ e) in
    let inside = check_data-inside frame type start bw w h bpp t small is_bpp checked in
    (inside.0, inside.1, ground (arith), ground (arith))

get_vp_desc_step :
    (frame : Memory)
    → get_vp_desc frame ≡ (
        header frame vp_desc_start >>= λ start. get_fb_desc frame start >>= λ desc.
        vp_type_supported frame desc >> check_fb_desc frame desc)
unfolding get_vp_desc
get_vp_desc_step frame = refl

-- The types that the viewport conversions know.
vp_type_known :
    (frame : Memory) (d : FbDesc) (t : Unit {0})
    → vp_type_supported frame d ≡ ok t
    → (d.fb_type ≡ pos 0) ⊎ (d.fb_type ≡ pos 2) ⊎ (d.fb_type ≡ pos 3)
unfolding vp_type_supported eq_ℤ
vp_type_known frame d t e = ground arith

checked_same :
    (m : Result (Unit {0})) (test : Bool) (message : String) (d d' : FbDesc)
    → (m >> (raise_if test message >> ok d)) ≡ ok d'
    → d ≡ d'
checked_same fault test message d d' e = cc
checked_same (err m) test message d d' e = cc
checked_same (ok t) true message d d' e = cc
checked_same (ok t) false message d d' e = ok_value e

check_fb_desc_same : (frame : Memory) (d d' : FbDesc) → check_fb_desc frame d ≡ ok d' → d ≡ d'
unfolding check_fb_desc
check_fb_desc_same frame d d' e =
    checked_same (if eq_ℤ d.data_start (pos 0) then ok tt else check_data frame d) _ _ d d' e

-- If get_vp_desc accepts, in a frame below 2 ^ 31 bytes, a description without negative numbers and with
-- a positive data offset, then its data ends inside the frame, the size of the data in bits fits an
-- int, the visible width is at most that of the buffer, and the type is one of the three YUV types.
pub get_vp_desc-inside :
    (frame : Memory) (type : ℤ) (start bw w h : ℕ)
    → frame.size < 2 ^ 31
    → 0 < start
    → get_vp_desc frame ≡ ok (desc_of type start bw w h)
    → (let bpp = get_fb_bpp (desc_of type start bw w h) in
        (start + bw * h * bpp / 8 ≤ frame.size) × (bw * h * bpp < 2 ^ 31) × (w ≤ bw))
      × ((type ≡ pos 0) ⊎ (type ≡ pos 2) ⊎ (type ≡ pos 3))
get_vp_desc-inside frame type start bw w h small some_start e =
    let d = desc_of type start bw w h in
    let (at, e1, k1) = both_ok (header frame vp_desc_start) _ (sym (get_vp_desc_step frame) ∙ e) in
    let (desc, e2, k2) = both_ok (get_fb_desc frame at) _ k1 in
    let (t, e3, k3) =
      both_ok (vp_type_supported frame desc) (λ t. check_fb_desc frame desc)
        (sym (then_bind (vp_type_supported frame desc) _) ∙ k2) in
    let same = check_fb_desc_same frame desc d k3 in
    let known = vp_type_known frame d t (ap (vp_type_supported frame) (sym same) ∙ e3) in
    let inside =
      check_fb_desc-inside frame type start bw w h (get_fb_bpp d) d small some_start refl
        (ap (check_fb_desc frame) (sym same) ∙ k3) in
    ((inside.0, inside.1, inside.2), known)
