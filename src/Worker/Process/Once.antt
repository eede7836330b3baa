-- ===== src/Worker/Process/Once.antt =====
-- An accepted event is stored and counted once, whatever jobs are committed for it.
use get_exception.Base.{
  ℕ, ◌+◌, ◌≡◌, ◌≢◌, refl, Bool, true, Option, none, some, List, [], ◌∷◌, ◌++◌, arith, any, String,
}
use get_exception.Base.Table.Keys.{Keyed}
use get_exception.Base.{Ident}
use get_exception.Worker.Inbox.{Row, is_held, claim}
use get_exception.Worker.Inbox.Fence.{claim-fences}
use get_exception.Worker.Process.{
  Store, Event, Fresh, record_event, record_release, has_event, commit,
}
use get_exception.Worker.Issue.{Issue}

-- The events that the issues count.
abbrev pub total : List Issue → ℕ
total [] = 0
total (i ∷ issues) = i.event_count + total issues

any-append :
    {R : Type 0} (p : R → Bool) (rs : List R) (r : R) → p r ≡ true → any p (rs ++ (r ∷ [])) ≡ true
any-append p [] r h = ground arith
any-append p (s ∷ rs) r h = ground (arith, any-append p rs r h)

module _ {Payload Details : Type 0} where
  -- The release part touches the releases and their deployments only.
  events-record_release :
      (name : Option String) (project fresh : Ident) (received : ℕ) (event : Event Details)
      (s : Store Payload Details)
      → (record_release name project fresh received event s).events ≡ s.events
  unfolding record_release
  events-record_release none project fresh received event s = refl
  events-record_release (some name) project fresh received event s = refl

  module _ (started : ℕ) (fresh : Fresh) (project : Ident) (job : Row Payload)
      (event : Event Details) (hash : Ident) where
    stored-record_event :
        (s : Store Payload Details)
        → any
            (has_event project job.event_id)
            (record_event started fresh project job event hash s).events
          ≡ true
    unfolding record_event
    stored-record_event s =
        rw events-record_release
          (any-append (has_event project job.event_id) s.events _ (ground arith))

    -- A commit under a lease that holds stores the event, unless it is stored already, and then the
    -- receipt in the queue is final.
    pub commit_stores :
        (s : Store Payload Details)
        → is_held job s.inbox ≡ true
        → any
            (has_event project job.event_id)
            (commit started fresh project job event hash s).events
          ≡ true
    unfolding commit
    commit_stores s h = ground (arith, stored-record_event s)

    -- An event that is stored is not stored again: only the queue changes.
    commit_again :
        (s : Store Payload Details)
        → any (has_event project job.event_id) s.events ≡ true
        → (commit started fresh project job event hash s
            ≡ record s { inbox = (commit started fresh project job event hash s).inbox })
    unfolding commit
    commit_again s h = ground arith

  -- Once a job has stored an event, no later commit for the same event of the project, by any job
  -- and with any other identifiers, changes the events, the issues, the histories or the releases.
  pub commit_once :
      (started started' : ℕ) (fresh fresh' : Fresh) (project : Ident) (job job' : Row Payload)
      (event event' : Event Details) (hash hash' : Ident) (s : Store Payload Details)
      → is_held job s.inbox ≡ true
      → job'.event_id ≡ job.event_id
      → let first = commit started fresh project job event hash s in
        let second = commit started' fresh' project job' event' hash' first in
        second ≡ record first { inbox = second.inbox }
  commit_once started started' fresh fresh' project job job' event event' hash hash' s h same =
      commit_again started' fresh' project job' event' hash'
        (commit started fresh project job event hash s)
        (rw same (commit_stores started fresh project job event hash s h))

  -- A job whose row was claimed again under another token commits nothing: an expired lease is fenced
  -- off, even if its worker is still running.
  pub commit_fenced :
      (started : ℕ) (fresh : Fresh) (project : Ident) (job job' : Row Payload)
      (event : Event Details) (hash : Ident) (live locked : Ident → Bool) (now : ℕ) (token : Ident)
      (s : Store Payload Details)
      → Keyed (λ r. r.id) s.inbox
      → (claim live locked now token s.inbox).1 ≡ some job'
      → job'.id ≡ job.id
      → job.lease_token ≢ some token
      → let taken = record s { inbox = (claim live locked now token s.inbox).0 } in
        commit started fresh project job event hash taken ≡ taken
  unfolding commit
  commit_fenced started fresh project job job' event hash live locked now token s k e same other =
      rw (claim-fences live locked now token s.inbox job job' e same other k)
