-- ===== src/SourceMaps/Ghost.antt =====
-- A record of what each identifier was made for: the upload and the hash of an artifact, and the
-- hash of a stored file. The invariants are stated with it; it is no part of the program.
use get_exception.Base.{
  Ident, nat_eq, ℕ, ◌≡◌, ◌≢◌, ◌==◌, ==_iff, some, List, [], ◌∷◌, All, arith, if◌then◌else◌,
}
use get_exception.Base.Dict.{Dict, get}
use get_exception.SourceMaps.Tables.{Artifact, Flight}

pub record Ghost : Type 0 where
  pub upload_of : Ident → Ident
  pub hash_of : Ident → Ident
  pub content_of : Ident → Ident

abbrev pub IsOwned : Ghost → Artifact → Type 0
IsOwned g a =
    (g.upload_of a.id ≡ a.upload_id)
    × (g.hash_of a.id ≡ a.sha256)
    × (g.content_of a.storage_id ≡ a.sha256)

abbrev pub at : Ident → Ident → (Ident → Ident) → Ident → Ident
at i v f j = if j == i then v else f j

abbrev pub extend : Ghost → Artifact → Ghost
extend g a = record {
  upload_of = at a.id a.upload_id g.upload_of;
  hash_of = at a.id a.sha256 g.hash_of;
  content_of = at a.storage_id a.sha256 g.content_of;
}

module _ (hash : List ℕ → Ident) where
  abbrev pub IsCarried : Ghost → Flight → Type 0
  IsCarried g f = g.hash_of f.id ≡ hash f.bytes

  abbrev pub IsKept : Ghost → Dict Ident (List ℕ) → Type 0
  IsKept g files =
      (storage : Ident) (bytes : List ℕ)
      → get files storage ≡ some bytes
      → g.content_of storage ≡ hash bytes

-- The row `a` is new to `b`.
abbrev pub IsApart : Ident → Ident → Artifact → Type 0
IsApart id storage b = (b.id ≢ id) × (b.storage_id ≢ storage)

pub extend_self : (g : Ghost) (a : Artifact) → IsOwned (extend g a) a
extend_self g a = ground (arith, ==_iff a.id a.id, ==_iff a.storage_id a.storage_id)

pub extend-IsOwned :
    (g : Ghost) (a b : Artifact)
    → b.id ≢ a.id
    → (b.storage_id ≡ a.storage_id → b.sha256 ≡ a.sha256)
    → IsOwned g b
    → IsOwned (extend g a) b
extend-IsOwned g a b ne same h =
    ground (arith, ne, same, h, ==_iff b.id a.id, ==_iff b.storage_id a.storage_id)

-- What the invariant says of rows, requests and files.
module _ (hash : List ℕ → Ident) where
  abbrev pub Holds : Ghost → List Artifact → List Flight → Dict Ident (List ℕ) → Type 0
  Holds g rows flights files =
      All (IsOwned g) rows × All (IsCarried hash g) flights × IsKept hash g files

  -- The rows, requests and files agree with a new row.
  abbrev pub Agrees : Artifact → List Artifact → List Flight → Dict Ident (List ℕ) → Type 0
  Agrees a rows flights files =
      All (λ b. (b.id ≢ a.id) × (b.storage_id ≡ a.storage_id → b.sha256 ≡ a.sha256)) rows
      × All (λ f. f.id ≢ a.id) flights
      × ((storage : Ident) (bytes : List ℕ)
          → get files storage ≡ some bytes
          → storage ≡ a.storage_id
          → a.sha256 ≡ hash bytes)

  extend-rows :
      (g : Ghost) (a : Artifact) (rows : List Artifact)
      → All (λ b. (b.id ≢ a.id) × (b.storage_id ≡ a.storage_id → b.sha256 ≡ a.sha256)) rows
      → All (IsOwned g) rows
      → All (IsOwned (extend g a)) rows
  extend-rows g a [] h k = tt
  extend-rows g a (b ∷ rows) h k =
      (extend-IsOwned g a b h.0.0 h.0.1 k.0, extend-rows g a rows h.1 k.1)

  extend-flights :
      (g : Ghost) (a : Artifact) (flights : List Flight)
      → All (λ f. f.id ≢ a.id) flights
      → All (IsCarried hash g) flights
      → All (IsCarried hash (extend g a)) flights
  extend-flights g a [] h k = tt
  extend-flights g a (f ∷ flights) h k =
      let here : IsCarried hash (extend g a) f = ground (arith, h.0, k.0, ==_iff f.id a.id) in
      (here, extend-flights g a flights h.1 k.1)

  extend-files :
      (g : Ghost) (a : Artifact) (files : Dict Ident (List ℕ))
      → ((storage : Ident) (bytes : List ℕ)
          → get files storage ≡ some bytes
          → storage ≡ a.storage_id
          → a.sha256 ≡ hash bytes)
      → IsKept hash g files
      → IsKept hash (extend g a) files
  extend-files g a files h k storage bytes e =
      ground (arith, h storage bytes e, k storage bytes e, ==_iff storage a.storage_id)

  pub extend-Holds :
      (g : Ghost) (a : Artifact) (rows : List Artifact) (flights : List Flight)
      (files : Dict Ident (List ℕ))
      → Agrees a rows flights files
      → Holds g rows flights files
      → Holds (extend g a) rows flights files
  extend-Holds g a rows flights files h k = (
    extend-rows g a rows h.0 k.0,
    extend-flights g a flights h.1 k.1,
    extend-files g a files h.2 k.2,
  )
