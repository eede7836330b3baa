-- ===== src/Worker/Retention/Kept.antt =====
-- What a run of the retention keeps.
use get_exception.Base.{
  ℕ, ◌+◌, ◌≤◌, ◌≡◌, sym, subst, ◌⊎◌, inl, inr, Bool, true, false, not, ◌&&◌, ◌||◌, Option, none,
  some, List, [], ◌∷◌, ◌==◌, ==_iff, ◌===◌, some-injective, string_eq, String, length, filter, any,
  arith, tests,
}
use get_exception.Base.Table.Keys.{In, filter-In}
use get_exception.Worker.Release.{Release}
use get_exception.Worker.Retention.{
  names, EventRow, HistoryRow, UploadRow, InboxRow, Tables, is_referenced, is_removable, is_gone,
  retain_releases,
}

-- Why a release may not go: it was active in the last ninety days, in milliseconds, or a row of its
-- project has its name.
pub data InUse (now : ℕ) (s : Tables) (r : Release) : Type 0 where
  by_activity : now ≤ r.last_activity_at + 7776000000 → InUse now s r
  by_event :
      (e : EventRow)
      → In e s.events
      → e.project_id ≡ r.project_id
      → e.release ≡ some r.name
      → InUse now s r
  by_history :
      (h : HistoryRow)
      → In h s.histories
      → h.project_id ≡ r.project_id
      → (h.first_release ≡ some r.name) ⊎ (h.last_release ≡ some r.name)
      → InUse now s r
  by_upload :
      (u : UploadRow)
      → In u s.uploads
      → u.project_id ≡ r.project_id
      → u.release ≡ r.name
      → InUse now s r
  by_waiting_event :
      (q : InboxRow)
      → In q s.inbox
      → q.project_id ≡ r.project_id
      → q.is_active ≡ true
      → q.payload_release ≡ some r.name
      → InUse now s r

module _ {A : Type 0} where
  any-In : (p : A → Bool) (a : A) (xs : List A) → In a xs → p a ≡ true → any p xs ≡ true
  any-In p a [] m h = elim m [ ]
  any-In p a (x ∷ xs) (inl e) h = ground (arith, subst (λ y. p y ≡ true) (sym e) h)
  any-In p a (x ∷ xs) (inr m) h = ground (arith, any-In p a xs m h)

same_id : (a b : ℕ) → a ≡ b → (a == b) ≡ true
same_id a b e = (==_iff a b).1 e

same_name : (t u : String) → t ≡ u → (t === u) ≡ true
same_name t u e = (string_eq.beq_iff t u).1 e

names_it : (name : String) (o : Option String) → o ≡ some name → names name o ≡ true
names_it name none e = cc
names_it name (some t) e = same_name t name (some-injective t name e)

either :
    (name : String) (h : HistoryRow)
    → (h.first_release ≡ some name) ⊎ (h.last_release ≡ some name)
    → (names name h.first_release || names name h.last_release) ≡ true
either name h (inl e) = rw (names_it name h.first_release e)
either name h (inr e) = ground (arith, names_it name h.last_release e)

InUse-referenced :
    (now : ℕ) (s : Tables) (r : Release) → InUse now s r → is_removable now s r ≡ false
unfolding is_removable is_referenced
InUse-referenced now s r (by_activity h) = grind (tests, h)
InUse-referenced now s r (by_event e m p n) = ground (
  arith,
  any-In (λ (e : EventRow). e.project_id == r.project_id && names r.name e.release) e s.events m
      (rw (same_id e.project_id r.project_id p, names_it r.name e.release n)),
)
InUse-referenced now s r (by_history h m p n) = ground (
  arith,
  any-In
      (λ (h : HistoryRow).
        h.project_id == r.project_id
        && (names r.name h.first_release || names r.name h.last_release))
      h s.histories m (rw (same_id h.project_id r.project_id p, either r.name h n)),
)
InUse-referenced now s r (by_upload u m p n) = ground (
  arith,
  any-In (λ (u : UploadRow). u.project_id == r.project_id && (u.release === r.name)) u s.uploads m
      (rw (same_id u.project_id r.project_id p, same_name u.release r.name n)),
)
InUse-referenced now s r (by_waiting_event q m p a n) = ground (
  arith,
  any-In
      (λ (q : InboxRow).
        q.project_id == r.project_id && q.is_active && names r.name q.payload_release)
      q s.inbox m
      (rw (same_id q.project_id r.project_id p, a, names_it r.name q.payload_release n)),
)

not_both : (a b : Bool) → b ≡ false → not (a && b) ≡ true
not_both a b h = ground (arith, h)

length-parts :
    (p : Release → Bool) (xs : List Release)
    → length (filter p xs) + length (filter (λ x. not (p x)) xs) ≡ length xs
length-parts p [] = omega arith
length-parts p (x ∷ xs) = ground (arith, length-parts p xs)

-- A release that was active in the last ninety days, or that an event, a history, an upload or a
-- waiting event of its project names, is still there after a run of the retention, as it was. The
-- number that the run returns and the releases that are left make up those that were there.
pub retain_releases_keeps :
    (now : ℕ) (s : Tables) (r : Release)
    → In r s.releases
    → InUse now s r
    → In r (retain_releases now s).0.releases
      × ((retain_releases now s).1 + length (retain_releases now s).0.releases ≡ length s.releases)
unfolding retain_releases
retain_releases_keeps now s r m u = (
  filter-In (λ t. not (is_gone now s t)) r s.releases m (not_both _ _ (InUse-referenced now s r u)),
  length-parts (is_gone now s) s.releases,
)
