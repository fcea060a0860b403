-- ===== src/Ptp/Operations/Laws.antt =====
-- What the operations make of a session and of their data.
use chdkptp_jet_tx1_jet_nano.Common.{
  ℕ, zero, suc, ◌≡◌, ◌↔◌, arith, List, [], ◌∷◌, get_elem?, some, some_value, ap, ◌==◌, ==_iff,
  Bool-cases, inl, inr,
}
use chdkptp_jet_tx1_jet_nano.Ptp.Transaction.{Session, Layer, ptp_transaction}
use chdkptp_jet_tx1_jet_nano.Ptp.Operations.{ptp_opensession, ptp_operation_issupported}

-- Opening a session sets its identifier and leaves 1 as the next transaction, whatever the
-- connection and the device do.
pub ptp_opensession-sets :
    {S : Type 0} (layer : Layer S) (params : Session S) (session : ℕ)
    → ((ptp_opensession layer params session).0.session_id ≡ session)
      × ((ptp_opensession layer params session).0.transaction_id ≡ 1)
unfolding ptp_opensession ptp_transaction
ptp_opensession-sets layer params session = ground arith

listed :
    (supported : List ℕ) (operation i : ℕ)
    → get_elem? supported i ≡ some operation
    → ptp_operation_issupported supported operation ≡ 1
unfolding ptp_operation_issupported
listed [] operation i e = absurd (cc)
listed (x ∷ rest) operation zero e = ground (arith, some_value e)
listed (x ∷ rest) operation (suc i) e = ground (arith, listed rest operation i e)

place_of :
    (supported : List ℕ) (operation : ℕ)
    → ptp_operation_issupported supported operation ≡ 1
    → (i : ℕ) × (get_elem? supported i ≡ some operation)
unfolding ptp_operation_issupported
place_of [] operation e = absurd (omega (arith, e))
place_of (x ∷ rest) operation e = elim (Bool-cases (x == operation)) [
  | inl same ↦ (0, ap some ((==_iff x operation).0 same))
  | inr other ↦ let (i, found) = place_of rest operation (rw other at e) in (suc i, found)
]

-- The search answers 1 exactly for the operations that the device lists somewhere.
pub issupported-iff-listed :
    (supported : List ℕ) (operation : ℕ)
    → (ptp_operation_issupported supported operation ≡ 1)
      ↔ ((i : ℕ) × (get_elem? supported i ≡ some operation))
issupported-iff-listed supported operation =
    (place_of supported operation, λ p. listed supported operation p.0 p.1)
