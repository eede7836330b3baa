-- ===== src/Worker/History/Transfer.antt =====
-- Where the histories of an issue are after their transfer.
use get_exception.Base.{Ident, ◌≡◌, ◌≢◌, false, ==_iff, List, [], ◌∷◌, All, arith}
use get_exception.Base.Table.{update_many}
use get_exception.Worker.History.{
  IssueKey, History, chronology, belongs, aliased, transfer_issue_history,
}

alias-Leaves :
    (previous destination : Ident) (rows : List History)
    → previous ≢ destination
    → All
        (λ h. belongs previous h ≡ false)
        (update_many (belongs previous) (λ old. chronology old (aliased destination old)) rows)
unfolding chronology
alias-Leaves previous destination [] ne = tt
alias-Leaves previous destination (h ∷ rows) ne =
    ground (arith, ne, ==_iff destination previous, alias-Leaves previous destination rows ne)

-- After a transfer to another issue, no history belongs to the issue that it was moved from.
pub transfer-Leaves :
    (previous destination : IssueKey) (histories : List History)
    → previous.id ≢ destination.id
    → All
        (λ h. belongs previous.id h ≡ false)
        (transfer_issue_history previous destination histories)
unfolding transfer_issue_history
transfer-Leaves previous destination histories ne = alias-Leaves previous.id destination.id _ ne
