-- ===== src/Liveimg/Pixels/Streams.antt =====
-- What a loop over a buffer collects.
use chdkptp_jet_tx1_jet_nano.Common.{
  ℕ, zero, suc, ◌+◌, ◌*◌, ◌/◌, ◌%◌, ◌<◌, ◌≡◌, Option, some, List, [], ◌∷◌, ◌++◌, ap, ◌∙◌, get_elem?,
  refl, arith,
}
use chdkptp_jet_tx1_jet_nano.Common.Int.{ℤ}
use chdkptp_jet_tx1_jet_nano.Liveimg.Pixels.{collect}

-- The `k` values of `f` from `i` on.
unfoldable pub tabulate : {A : Type 0} → (ℕ → A) → ℕ → ℕ → List A
tabulate f i zero = []
tabulate f i (suc k) = f i ∷ tabulate f (i + 1) k

pub tabulate-append :
    {A : Type 0} (f : ℕ → A) (i k l : ℕ)
    → tabulate f i k ++ tabulate f (i + k) l ≡ tabulate f i (k + l)
unfolding tabulate
tabulate-append f i zero l =
    let still : i + 0 ≡ i = omega arith in
    let none_first : 0 + l ≡ l = omega arith in rw (still, none_first)
tabulate-append f i (suc k) l =
    let one_more : suc k + l ≡ suc (k + l) = omega arith in
    let moved : i + suc k ≡ i + 1 + k = omega arith in
    rw (one_more, moved, tabulate-append f (i + 1) k l)

module _ {A : Type 0} (body : ℤ → Option (List A)) (next : ℤ → ℤ) (at : ℕ → ℤ) (f : ℕ → A)
    (b c : ℕ) where
  collect_rest :
      (i n : ℕ)
      → ((k : ℕ) → k < i + suc n → body (at k) ≡ some (tabulate f (b + k * c) c))
      → ((k : ℕ) → k + 1 < i + suc n → next (at k) ≡ at (k + 1))
      → collect body next n (next (at i)) ≡ some (tabulate f (b + i * c + c) (n * c))
  unfolding collect tabulate
  collect_rest i zero gives moves = let none_left : zero * c ≡ zero = omega arith in rw none_left
  collect_rest i (suc n) gives moves =
      let first = gives (i + 1) (omega arith) in
      let rest =
        collect_rest (i + 1) n (λ k h. gives k (omega arith)) (λ k h. moves k (omega arith)) in
      let here : suc n * c ≡ c + n * c = grind arith in
      let there : b + (i + 1) * c ≡ b + i * c + c = grind arith in
      rw (
        moves i (omega arith),
        first,
        rest,
        here,
        there,
        tabulate-append f (b + i * c + c) c (n * c),
      )

  -- Round `k` starts at `at k` and gives the `c` values from `b + k * c` on.
  pub collect-tabulate :
      (i n : ℕ)
      → ((k : ℕ) → k < i + n → body (at k) ≡ some (tabulate f (b + k * c) c))
      → ((k : ℕ) → k + 1 < i + n → next (at k) ≡ at (k + 1))
      → collect body next n (at i) ≡ some (tabulate f (b + i * c) (n * c))
  unfolding collect tabulate
  collect-tabulate i zero gives moves =
      let none_left : zero * c ≡ zero = omega arith in rw none_left
  collect-tabulate i (suc n) gives moves =
      let first = gives i (omega arith) in
      let rest = collect_rest i n gives moves in
      let here : suc n * c ≡ c + n * c = grind arith in
      rw (first, rest, here, tabulate-append f (b + i * c) c (n * c))

pub index_parts : (w r x : ℕ) → x < w → ((r * w + x) / w ≡ r) × ((r * w + x) % w ≡ x)
index_parts w r x h = grind arith

pub tabulate-congr :
    {A : Type 0} (f g : ℕ → A) (i k n : ℕ)
    → ((j : ℕ) → j < n → f (i + j) ≡ g (k + j))
    → tabulate f i n ≡ tabulate g k n
unfolding tabulate
tabulate-congr f g i k zero same = refl
tabulate-congr f g i k (suc n) same =
    let first : f i ≡ g k = ap f (omega arith) ∙ same 0 (omega arith) ∙ ap g (omega arith) in
    let moved : (j : ℕ) → j < n → f (i + 1 + j) ≡ g (k + 1 + j) =
      λ j h. ap f (omega arith) ∙ same (suc j) (omega arith) ∙ ap g (omega arith) in
    rw (first, tabulate-congr f g (i + 1) (k + 1) n moved)

-- Value `i` of a list of values.
pub get_elem?-tabulate :
    {A : Type 0} (f : ℕ → A) (i n j : ℕ) → j < n → get_elem? (tabulate f i n) j ≡ some (f (i + j))
unfolding tabulate
get_elem?-tabulate f i zero j h = absurd (omega arith)
get_elem?-tabulate f i (suc n) zero h = ap (λ k. some (f k)) (omega arith)
get_elem?-tabulate f i (suc n) (suc j) h =
    get_elem?-tabulate f (i + 1) n j (omega arith) ∙ ap (λ k. some (f k)) (omega arith)

pub index_below : (w r x h : ℕ) → r < h → x < w → r * w + x < h * w
index_below w r x h p q = grind arith
