-- ===== src/Protocol/Sanitizer/Sentry/Parts.antt =====
-- Fields that may be missing, and frames that are sent and read again.
use get_exception.Base.{
  ◌≡◌, refl, Bool, true, false, not, ◌===◌, list_eq, Option, none, some, List, [], ◌∷◌, codes, All,
}
use get_exception.Ingest.Http.{Text}
use get_exception.Protocol.Json.{Json, obj, Fields, end}
use get_exception.Protocol.Envelope.{get_field}
use get_exception.Protocol.Sanitizer.Texts.{Doubles, Rules, string_of}
use get_exception.Protocol.Sanitizer.Parts.{items}
use get_exception.Protocol.Sanitizer.Event.{Frame, frame_at, safe_frames}
use get_exception.Protocol.Sanitizer.Sentry.Stable.{FrameIsStable}
use get_exception.Protocol.Sanitizer.Sentry.{put, text_json, list_json, frame_fields}

module _ {N : Type 0} where
  pub get-put_ne :
      (j k : Text) (o : Option (Json N)) (fs : Fields N)
      → (k === j) ≡ false
      → get_field j (put k o fs) ≡ get_field j fs
  unfolding get_field
  get-put_ne j k none fs h = refl
  get-put_ne j k (some v) fs h = rw h

  pub get-put :
      (k : Text) (o : Option (Json N)) (fs : Fields N)
      → (k === k) ≡ true
      → get_field k fs ≡ none
      → get_field k (put k o fs) ≡ o
  unfolding get_field
  get-put k none fs h e = e
  get-put k (some v) fs h e = rw h

pub string_of-text_json : (N : Type 0) (o : Option Text) → string_of (text_json {N = N} o) ≡ o
string_of-text_json N none = refl
string_of-text_json N (some t) = refl

pub not-not : (b : Bool) → not (not b) ≡ b
not-not true = refl
not-not false = refl

module _ {N : Type 0} (δ : Doubles N) (ρ : Rules) where
  frame_at-frame_fields :
      (f : Frame N) → FrameIsStable δ ρ f → frame_at δ ρ f.filename (frame_fields f) ≡ f
  unfolding frame_at get_field
  frame_at-frame_fields f h = rw (
    h.function_stays,
    h.lineno_stays,
    h.colno_stays,
    not-not f.in_app,
    get-put (codes "debug_id") (text_json {N = N} f.debug_id) end refl refl,
    string_of-text_json N f.debug_id,
    h.debug_id_stays,
  )

  pub safe_frames-list_json :
      (fs : List (Frame N))
      → All (FrameIsStable δ ρ) fs
      → safe_frames δ ρ (items (list_json (λ f. obj (frame_fields f)) fs)) ≡ fs
  unfolding safe_frames get_field
  safe_frames-list_json [] h = refl
  safe_frames-list_json (f ∷ fs) (h, hs) =
      rw (h.path_stays, frame_at-frame_fields f h, safe_frames-list_json fs hs)
