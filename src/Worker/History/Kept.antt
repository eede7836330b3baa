-- ===== src/Worker/History/Kept.antt =====
-- What a transfer keeps of the histories that it moves.
use get_exception.Base.{
  Ident, ◌≡◌, Bool, true, ◌&&◌, ==_iff, List, [], ◌∷◌, All, any, filter, subst, arith, inl, inr,
}
use get_exception.Base.Table.{update, update_many}
use get_exception.Base.Table.Keys.{In}
use get_exception.Worker.History.{
  IssueKey, History, not_after, earlier, later, chronology, has_key, belongs, aliased, moved,
  move_one, move_all, transfer_issue_history,
}
use get_exception.Worker.History.Rows.{
  same_environment_refl, same_environment→eq, not_after_refl, not_after_trans, earlier-left,
  earlier-right, later-left, later-right, any-update, any-update_many, any-append, any-grow,
  filter-All, In-filter,
}

-- A row of the destination that reaches at least as far back and forth as `h`.
abbrev pub covers : IssueKey → History → History → Bool
covers d h g =
    has_key d.project_id d.fingerprint h.environment g
    && not_after g.first h.first
    && not_after h.last g.last

module _ (d : IssueKey) (h : History) (own : h.project_id ≡ d.project_id) where
  moved-covers : covers d h (moved d h) ≡ true
  moved-covers = ground (
    arith,
    own,
    ==_iff h.project_id d.project_id,
    ==_iff d.fingerprint d.fingerprint,
    same_environment_refl h.environment,
    not_after_refl h.first,
    not_after_refl h.last,
  )

  merged-covers : (old : History) → covers d h (chronology old (moved d h)) ≡ true
  unfolding chronology
  merged-covers old = ground (
    arith,
    own,
    ==_iff h.project_id d.project_id,
    ==_iff d.fingerprint d.fingerprint,
    same_environment_refl h.environment,
    earlier-right old.first h.first,
    later-right old.last h.last,
  )

  merged-still :
      (k old : History)
      → has_key d.project_id d.fingerprint h.environment old ≡ true
      → covers d k old ≡ true
      → covers d k (chronology old (moved d h)) ≡ true
  unfolding chronology
  merged-still k old at c = ground (
    arith,
    own,
    at,
    c,
    ==_iff h.project_id d.project_id,
    ==_iff d.fingerprint d.fingerprint,
    same_environment→eq old.environment h.environment,
    earlier-left old.first h.first,
    later-left old.last h.last,
    not_after_trans (earlier old.first h.first) old.first k.first,
    not_after_trans k.last old.last (later old.last h.last),
  )

  update-covers :
      (rows : List History)
      → any (has_key d.project_id d.fingerprint h.environment) rows ≡ true
      → any (covers d h) (
          update
            (has_key d.project_id d.fingerprint h.environment)
            (λ old. chronology old (moved d h))
            rows)
        ≡ true
  update-covers [] e = ground (arith, e)
  update-covers (r ∷ rows) e = ground (arith, e, merged-covers r, update-covers rows)

  update-still :
      (k : History) (rows : List History)
      → any (covers d k) rows ≡ true
      → any (covers d k) (
          update
            (has_key d.project_id d.fingerprint h.environment)
            (λ old. chronology old (moved d h))
            rows)
        ≡ true
  update-still k rows e =
      any-update (covers d k) (has_key d.project_id d.fingerprint h.environment)
        (λ old. chronology old (moved d h)) rows (λ r at c. merged-still k r at c) e

  move_one-covers : (rows : List History) → any (covers d h) (move_one d h rows) ≡ true
  unfolding move_one
  move_one-covers rows =
      ground (arith, update-covers rows, any-append (covers d h) rows (moved d h) moved-covers)

  move_one-still :
      (k : History) (rows : List History)
      → any (covers d k) rows ≡ true
      → any (covers d k) (move_one d h rows) ≡ true
  unfolding move_one
  move_one-still k rows e =
      ground (arith, update-still k rows e, any-grow (covers d k) rows (moved d h) e)

abbrev pub IsOf : IssueKey → History → Type 0
IsOf d h = h.project_id ≡ d.project_id

module _ (d : IssueKey) where
  move_all-still :
      (k : History) (moves rows : List History)
      → All (IsOf d) moves
      → any (covers d k) rows ≡ true
      → any (covers d k) (move_all d moves rows) ≡ true
  unfolding move_all
  move_all-still k [] rows own e = e
  move_all-still k (h ∷ moves) rows own e =
      move_all-still k moves (move_one d h rows) own.1 (move_one-still d h own.0 k rows e)

  move_all-covers :
      (k : History) (moves rows : List History)
      → All (IsOf d) moves
      → In k moves
      → any (covers d k) (move_all d moves rows) ≡ true
  unfolding move_all
  move_all-covers k (h ∷ moves) rows own (inl e) =
      move_all-still k moves (move_one d h rows) own.1 (
        subst (λ x. any (covers d x) (move_one d h rows) ≡ true) e (move_one-covers d h own.0 rows))
  move_all-covers k (h ∷ moves) rows own (inr m) =
      move_all-covers k moves (move_one d h rows) own.1 m
  move_all-covers k [] rows own m = absurd m

  aliased-still :
      (k : History) (old : History)
      → covers d k old ≡ true
      → covers d k (chronology old (aliased d.id old)) ≡ true
  unfolding chronology
  aliased-still k old e = ground (arith, e, not_after_refl old.first, not_after_refl old.last)

  alias-still :
      (k : History) (previous : Ident) (rows : List History)
      → any (covers d k) rows ≡ true
      → any
          (covers d k)
          (update_many (belongs previous) (λ old. chronology old (aliased d.id old)) rows)
        ≡ true
  alias-still k previous rows e =
      any-update_many (covers d k) (belongs previous) (λ old. chronology old (aliased d.id old))
        rows (λ r at c. aliased-still k r c) e

-- The histories that a transfer moves.
abbrev pub is_moved : Ident → History → Bool
is_moved previous h = belongs previous h && h.canonical

-- If the histories of the issue that is moved are of the destination's project, then each canonical
-- one of them is covered afterwards by a row of the destination's fingerprint in its environment,
-- first seen no later and last seen no earlier: a transfer forgets no sighting.
pub transfer-covers :
    (previous destination : IssueKey) (histories : List History) (h : History)
    → All (λ r. is_moved previous.id r ≡ true → IsOf destination r) histories
    → In h histories
    → is_moved previous.id h ≡ true
    → any (covers destination h) (transfer_issue_history previous destination histories) ≡ true
unfolding transfer_issue_history
transfer-covers previous destination histories h own m at =
    alias-still destination h previous.id _ (
      move_all-covers destination h (filter (is_moved previous.id) histories) histories
        (filter-All (IsOf destination) (is_moved previous.id) histories own)
        (In-filter (is_moved previous.id) h histories at m))
