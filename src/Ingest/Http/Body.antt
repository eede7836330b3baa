-- ===== src/Ingest/Http/Body.antt =====
-- What the body's reader returns.
use get_exception.Base.{
  ℕ, ◌≤◌, ◌≡◌, refl, ◌&&◌, leb, List, [], ◌∷◌, ◌++◌, length, length-append, arith, if◌then◌else◌,
}
use get_exception.Protocol.Boundary.{Outcome, ok, err, too_large}
use get_exception.Protocol.Envelope.{max_envelope}
use get_exception.Ingest.Http.{read_chunks, read_envelope_body}

abbrev pub concat : List (List ℕ) → List ℕ
concat [] = []
concat (chunk ∷ chunks) = chunk ++ concat chunks

-- The whole body, or an error if it is too long.
abbrev pub bounded : List ℕ → Outcome (List ℕ)
bounded bytes = if leb (length bytes) max_envelope then ok bytes else err too_large

append_assoc : (xs ys zs : List ℕ) → (xs ++ ys) ++ zs ≡ xs ++ (ys ++ zs)
append_assoc [] ys zs = refl
append_assoc (x ∷ xs) ys zs = rw (append_assoc xs ys zs) refl

append_nil : (xs : List ℕ) → xs ++ [] ≡ xs
append_nil [] = refl
append_nil (x ∷ xs) = rw (append_nil xs) refl

read_chunks_lem :
    (bytes : List ℕ) (chunks : List (List ℕ))
    → length bytes ≤ max_envelope
    → read_chunks bytes (length bytes) chunks ≡ bounded (bytes ++ concat chunks)
unfolding read_chunks
read_chunks_lem bytes [] h = ground (arith, append_nil bytes, h)
read_chunks_lem bytes (chunk ∷ chunks) h = ground (
  arith,
  h,
  length-append bytes chunk,
  length-append (bytes ++ chunk) (concat chunks),
  append_assoc bytes chunk (concat chunks),
  read_chunks_lem (bytes ++ chunk) chunks,
)

-- However the body is cut into chunks, the reader returns the whole of it if neither its length nor
-- the declared length is above the limit, and fails as too large otherwise.
pub read_envelope_body-concat :
    (declared : ℕ) (chunks : List (List ℕ))
    → read_envelope_body declared chunks ≡ (
        if leb declared max_envelope && leb (length (concat chunks)) max_envelope
        then ok (concat chunks)
        else err too_large)
unfolding read_envelope_body
read_envelope_body-concat declared chunks = ground (arith, read_chunks_lem [] chunks (omega arith))
