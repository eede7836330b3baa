-- ===== src/Worker/Inbox/Fence.antt =====
-- A worker whose row was claimed again no longer holds it.
use get_exception.Base.{
  ℕ, ◌≡◌, ◌≢◌, refl, ap, some-injective, ◌∙◌, Bool, false, Option, none, some, List, [], ◌∷◌, arith,
  All, any, ◌==◌,
}
use get_exception.Base.Table.{update}
use get_exception.Base.Table.Keys.{Keyed, Keyed-update_many}
use get_exception.Base.{Ident}
use get_exception.Worker.Inbox.{
  Row, holds, is_held, claim, grant, lease, bury_exhausted, bury, is_exhausted,
}

module _ {Payload : Type 0} where
  holds-ne : (job r : Row Payload) → r.id ≢ job.id → holds job r ≡ false
  holds-ne job r ne = ground arith

  any-holds-ne :
      (job : Row Payload) (rows : List (Row Payload)) (n : Ident)
      → n ≡ job.id
      → All (λ r. r.id ≢ n) rows
      → any (holds job) rows ≡ false
  any-holds-ne job [] n e h = refl
  any-holds-ne job (r ∷ rows) n e h = ground (arith, any-holds-ne job rows n e h.1)

  -- The row of the job, leased anew under another token.
  held-lease :
      (job : Row Payload) (now : ℕ) (token : Ident) (id : Ident) (rows : List (Row Payload))
      → id ≡ job.id
      → job.lease_token ≢ some token
      → Keyed (λ r. r.id) rows
      → any (holds job) (update (λ s. s.id == id) (lease now token) rows) ≡ false
  unfolding lease
  held-lease job now token id [] e other k = refl
  held-lease job now token id (r ∷ rows) e other k =
      ground (arith, any-holds-ne job rows r.id, k.0, held-lease job now token id rows e other k.1)

  grant-fences :
      (job job' : Row Payload) (now : ℕ) (token : Ident) (rows : List (Row Payload))
      (o : Option (Row Payload))
      → (grant now token rows o).1 ≡ some job'
      → job'.id ≡ job.id
      → job.lease_token ≢ some token
      → Keyed (λ r. r.id) rows
      → any (holds job) (grant now token rows o).0 ≡ false
  unfolding grant lease
  grant-fences job job' now token rows none e same other k = cc
  grant-fences job job' now token rows (some r) e same other k =
      held-lease job now token r.id rows (ap (λ j. j.id) (some-injective _ _ e) ∙ same) other k

  -- A claim of a job's row under another token ends the job's hold on it.
  pub claim-fences :
      (live locked : Ident → Bool) (now : ℕ) (token : Ident) (inbox : List (Row Payload))
      (job job' : Row Payload)
      → (claim live locked now token inbox).1 ≡ some job'
      → job'.id ≡ job.id
      → job.lease_token ≢ some token
      → Keyed (λ r. r.id) inbox
      → is_held job (claim live locked now token inbox).0 ≡ false
  unfolding claim bury_exhausted bury is_held
  claim-fences live locked now token inbox job job' e same other k =
      grant-fences job job' now token (bury_exhausted now inbox) _ e same other
        (Keyed-update_many (λ r. r.id) (is_exhausted now) bury inbox (λ r. refl) k)
