-- ===== src/Ptp/Link.antt =====
-- ptp.h: the functions of the connection that `PTPParams` points to, and what ptp.c relies on.
use chdkptp_jet_tx1_jet_nano.Common.{ℕ, ◌+◌, ◌≤◌, ◌<◌, ◌≡◌, Option, some, List, ◌++◌, length}

-- The state is the connection's and the device's. `read_func` gets the size of the block it may fill
-- and returns the bytes it put there, or `none` for a negative result; `write_func` returns a code.
pub record Link : Type 1 where
  pub State : Type 0
  pub read_func : State → ℕ → State × Option (List ℕ)
  pub write_func : State → List ℕ → State × ℕ

-- A read takes the next bytes of a stream, and no more of them than it was asked for. A read may be
-- empty, as one of a USB packet without data is: there are at most `most_empty` empty reads in a row.
-- `empty_reads` bounds those that come next; an empty read leaves fewer of them, and a read of some
-- bytes may renew fewer of them than it gets bytes.
pub record IsStream (link : Link) : Type 0 where
  pub pending : link.State → List ℕ
  pub in_order :
      (s : link.State) (n : ℕ) {s' : link.State} {bs : List ℕ}
      → link.read_func s n ≡ (s', some bs)
      → pending s ≡ bs ++ pending s'
  pub at_most :
      (s : link.State) (n : ℕ) {s' : link.State} {bs : List ℕ}
      → link.read_func s n ≡ (s', some bs)
      → length bs ≤ n
  pub most_empty : ℕ
  pub empty_reads : link.State → ℕ
  pub few_empty : (s : link.State) → empty_reads s ≤ most_empty
  pub goes_on :
      (s : link.State) (n : ℕ) {s' : link.State} {bs : List ℕ}
      → link.read_func s n ≡ (s', some bs)
      → 0 < n
      → empty_reads s' < empty_reads s + length bs
