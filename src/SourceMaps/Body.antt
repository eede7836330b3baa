-- ===== src/SourceMaps/Body.antt =====
-- apps/web/src/server/source-maps/upload.ts, `readUploadBody`, `checkUploadRequest` and
-- `readUploadManifest`. zlib is a parameter: what a compressed body holds, within a limit.
use get_exception.Base.{
  ℕ, ◌+◌, min, Bool, false, not, ◌&&◌, ◌||◌, ltb, ◌===◌, list_eq, Option, none, some, List, [], ◌∷◌,
  ◌++◌, length, codes, if◌then◌else◌,
}
use get_exception.Ingest.Http.{Text, split, first_part, or_empty}
use get_exception.SourceMaps.Tables.{file_bytes}
use get_exception.Web.AuthError.{Result, ok, err, auth_error, require, ◌>>=◌, ◌>>◌}

pub record UploadRequest : Type 0 where
  pub is_https : Bool
  pub forwarded_proto : Option Text
  pub has_origin : Bool
  pub content_type : Option Text
  pub content_encoding : Option Text
  pub content_length : ℕ
  -- The chunks of the body, if it has one.
  pub body : Option (List (List ℕ))

abbrev is_value : Text → Option Text → Bool
is_value t none = false
is_value t (some s) = s === t

abbrev pub check_upload_request : UploadRequest → Result (Unit {0})
check_upload_request r =
    require ((r.is_https || is_value (codes "https") r.forwarded_proto) && not r.has_origin)
      (auth_error 403 none)

-- `?? "identity"`
abbrev pub encoding_of : Option Text → Text
encoding_of none = codes "identity"
encoding_of (some t) = t

abbrev pub is_gzip : UploadRequest → Bool
is_gzip r = encoding_of r.content_encoding === codes "gzip"

abbrev pub is_identity : UploadRequest → Bool
is_identity r = encoding_of r.content_encoding === codes "identity"

-- compressedBodyOverhead
abbrev pub overhead : ℕ
overhead = 65536

abbrev pub wire_limit : UploadRequest → ℕ → ℕ
wire_limit r max_bytes =
    if is_gzip r then min (file_bytes + overhead) (max_bytes + overhead) else max_bytes

-- The loop over the chunks: the bytes read so far.
pub read_all : ℕ → List ℕ → List (List ℕ) → Result (List ℕ)
read_all limit bytes [] = ok bytes
read_all limit bytes (chunk ∷ chunks) =
    let rest = read_all limit (bytes ++ chunk) chunks in
    if ltb limit (length bytes + length chunk) then err (auth_error 413 none) else rest

abbrev given : Option (List (List ℕ)) → Result (List (List ℕ))
given none = err (auth_error 400 none)
given (some chunks) = ok chunks

abbrev checksum_if_none : Option (List ℕ) → Result (List ℕ)
checksum_if_none none = err (auth_error 400 (some "source_map_checksum"))
checksum_if_none (some bytes) = ok bytes

module _ (gunzip : ℕ → List ℕ → Option (List ℕ)) where
  unfoldable pub read_upload_body : UploadRequest → ℕ → Bool → Result (List ℕ)
  unfolding read_all
  read_upload_body r max_bytes allow_gzip = do
    require
        (first_part (split 59 (or_empty r.content_type)) === codes "application/json"
          && (is_identity r || (allow_gzip && is_gzip r)))
        (auth_error 415 none)
    require (not (ltb (wire_limit r max_bytes) r.content_length)) (auth_error 413 none)
    chunks ← given r.body
    bytes ← read_all (wire_limit r max_bytes) [] chunks
    if is_identity r then ok bytes else checksum_if_none (gunzip max_bytes bytes)
