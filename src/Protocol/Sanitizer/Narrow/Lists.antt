-- ===== src/Protocol/Sanitizer/Narrow/Lists.antt =====
-- Frames, breadcrumbs and tags one by one, and in their lists.
use get_exception.Base.{
  ◌≤◌, ◌≡◌, refl, Bool, true, not, ◌&&◌, Option, none, some, List, [], ◌∷◌, length, take, all,
  arith, Bool-cases, inl, inr, list_eq, codes,
}
use get_exception.Base.Dict.{Dict, set}
use get_exception.Ingest.Http.{Text}
use get_exception.Protocol.Json.{Json, Fields}
use get_exception.Protocol.Envelope.{record_of, get_field}
use get_exception.Protocol.Sanitizer.Texts.{Doubles, Rules, string_of, scrub, is_tag}
use get_exception.Protocol.Sanitizer.Parts.{record_in, within, named}
use get_exception.Protocol.Sanitizer.Contexts.{
  categories, methods, Breadcrumb, add_tags, sanitize_tags, crumb, sanitize_breadcrumb,
  with_category, put_tag, tag_value, is_forbidden,
}
use get_exception.Protocol.Sanitizer.Event.{
  Frame, frame_at, push_frame, push_crumb, safe_frames, safe_breadcrumbs,
}
use get_exception.Protocol.Sanitizer.Schema.{
  optional, at_most, is_enum, is_number_in, safe_frame, safe_breadcrumb, tag_ok,
}
use get_exception.Protocol.Sanitizer.Narrow.{
  DoubleLaws, is_str, fits_frame, fits_breadcrumb, fits_tag,
}
use get_exception.Protocol.Sanitizer.Narrow.Parts.{
  Passes, Passes-bind, Agrees, named-Agrees, optional-kept_if, optional-number_if, integer-IsIn,
  bounded_time_finite, status_of_range,
}

five-two : (a b c d e : Bool) → c ≡ true → d ≡ true → e ≡ true → (a && b && c && d && e) ≡ (a && b)
five-two a b c d e h k l = ground (arith, h, k, l)

seven-four :
    (c c' t p m m' s d o : Bool)
    → c ≡ c'
    → t ≡ true
    → m ≡ m'
    → s ≡ true
    → d ≡ true
    → (c && t && p && m && s && d && o) ≡ (c' && p && m' && o)
seven-four c c' t p m m' s d o h i j k l = ground (arith, h, i, j, k, l)

module _ {N : Type 0} (δ : Doubles N) (ρ : Rules) (laws : DoubleLaws δ) where
  frame_at-fits :
      (filename : Text) (frame : Fields N)
      → safe_frame δ ρ (frame_at δ ρ filename frame) ≡ fits_frame (frame_at δ ρ filename frame)
  unfolding safe_frame fits_frame frame_at
  frame_at-fits filename frame =
      five-two (at_most 512 filename)
        (at_most 160 (scrub ρ 160 (get_field (codes "function") frame))) _ _ _
        (integer-IsIn δ laws (get_field (codes "lineno") frame))
        (integer-IsIn δ laws (get_field (codes "colno") frame))
        (optional-kept_if ρ.is_uuid ρ.is_uuid (string_of (get_field (codes "debug_id") frame))
          (λ a h. h))

  abbrev FramesAgree : List (Json N) → List (Frame N) → Type 0
  FramesAgree vs frames =
      (all (safe_frame δ ρ) frames ≡ all fits_frame frames) × (length frames ≤ length vs)

  push_frame-agrees :
      (o : Option Text) (frame : Fields N) (v : Json N) (vs : List (Json N))
      (frames : List (Frame N))
      → FramesAgree vs frames
      → FramesAgree (v ∷ vs) (push_frame δ ρ o frame frames)
  push_frame-agrees none frame v vs frames h = (h.0, omega (arith, h.1))
  push_frame-agrees (some t) frame v vs frames h =
      (rw (frame_at-fits t frame, h.0), omega (arith, h.1))

  pub safe_frames-agree : (vs : List (Json N)) → FramesAgree vs (safe_frames δ ρ vs)
  unfolding safe_frames
  safe_frames-agree [] = (refl, omega arith)
  safe_frames-agree (v ∷ vs) =
      push_frame-agrees _ (record_of v) v vs (safe_frames δ ρ vs) (safe_frames-agree vs)

  crumb-fits :
      (input data_of : Fields N) (now : N) (c : Json N) (m : Option (Json N))
      → δ.is_finite now ≡ true
      → Agrees categories c
      → optional (is_enum methods) m ≡ optional is_str m
      → safe_breadcrumb δ (crumb δ ρ input data_of now c m)
        ≡ fits_breadcrumb (crumb δ ρ input data_of now c m)
  unfolding safe_breadcrumb fits_breadcrumb crumb
  crumb-fits input data_of now c m f h k =
      seven-four _ _ _ _ _ _ _ _ _ h
        (bounded_time_finite δ laws (get_field (codes "timestamp") input) now f) k
        (status_of_range δ laws (get_field (codes "status_code") data_of))
        (optional-number_if δ (within δ (δ.of_nat 0) (δ.of_nat 300000)) (is_number_in δ 0 300000)
          (get_field (codes "duration") data_of) λ n w. rw (laws.finite_between n w) w)

  abbrev CrumbAgrees : Option (Breadcrumb N) → Type 0
  CrumbAgrees none = Unit {0}
  CrumbAgrees (some b) = safe_breadcrumb δ b ≡ fits_breadcrumb b

  with_category-agrees :
      (input data_of : Fields N) (now : N) (c : Option (Json N))
      → δ.is_finite now ≡ true
      → optional (is_enum categories) c ≡ optional is_str c
      → Passes CrumbAgrees (with_category δ ρ input data_of now c)
  with_category-agrees input data_of now none f h = tt
  with_category-agrees input data_of now (some c) f h =
      Passes-bind (λ m. optional (is_enum methods) m ≡ optional is_str m) CrumbAgrees
        (named δ methods (get_field (codes "method") data_of)) _
        (named-Agrees δ methods (get_field (codes "method") data_of))
        λ m k. crumb-fits input data_of now c m f h k

  sanitize_breadcrumb-agrees :
      (v : Json N) (now : N)
      → δ.is_finite now ≡ true
      → Passes CrumbAgrees (sanitize_breadcrumb δ ρ v now)
  unfolding sanitize_breadcrumb
  sanitize_breadcrumb-agrees v now f =
      Passes-bind (λ c. optional (is_enum categories) c ≡ optional is_str c) CrumbAgrees
        (named δ categories (get_field (codes "category") (record_of v))) _
        (named-Agrees δ categories (get_field (codes "category") (record_of v)))
        λ c h.
          with_category-agrees (record_of v) (record_in (get_field (codes "data") (record_of v)))
            now c f h

  abbrev pub CrumbsAgree : List (Json N) → List (Breadcrumb N) → Type 0
  CrumbsAgree vs crumbs =
      (all (safe_breadcrumb δ) crumbs ≡ all fits_breadcrumb crumbs) × (length crumbs ≤ length vs)

  push_crumb-agrees :
      (c : Option (Breadcrumb N)) (v : Json N) (vs : List (Json N)) (crumbs : List (Breadcrumb N))
      → CrumbAgrees c
      → CrumbsAgree vs crumbs
      → CrumbsAgree (v ∷ vs) (push_crumb δ ρ c crumbs)
  push_crumb-agrees none v vs crumbs h k = (k.0, omega (arith, k.1))
  push_crumb-agrees (some b) v vs crumbs h k = (rw (h, k.0), omega (arith, k.1))

  pub safe_breadcrumbs-agree :
      (now : N) (vs : List (Json N))
      → δ.is_finite now ≡ true
      → Passes (CrumbsAgree vs) (safe_breadcrumbs δ ρ now vs)
  unfolding safe_breadcrumbs
  safe_breadcrumbs-agree now [] f = (refl, omega arith)
  safe_breadcrumbs-agree now (v ∷ vs) f =
      Passes-bind CrumbAgrees (CrumbsAgree (v ∷ vs)) (sanitize_breadcrumb δ ρ v now) _
        (sanitize_breadcrumb-agrees v now f)
        λ c h.
          Passes-bind (CrumbsAgree vs) (CrumbsAgree (v ∷ vs)) (safe_breadcrumbs δ ρ now vs) _
            (safe_breadcrumbs-agree now vs f) λ crumbs k. push_crumb-agrees c v vs crumbs h k

-- Tags

abbrev has_short_key : Text × Text → Bool
has_short_key (key, value) = at_most 32 key

tags-fit :
    (tags : Dict Text Text) → all has_short_key tags ≡ true → all tag_ok tags ≡ all fits_tag tags
tags-fit [] h = refl
tags-fit ((key, value) ∷ tags) h = ground (arith, tags-fit tags)

set-keys :
    (tags : Dict Text Text) (k t : Text)
    → at_most 32 k ≡ true
    → all has_short_key tags ≡ true
    → all has_short_key (set tags k t) ≡ true
unfolding set
set-keys [] k t h e = ground (arith, h)
set-keys ((key, value) ∷ tags) k t h e = ground (arith, set-keys tags k t h)

is_tag-short : (k : Text) → (is_tag k && not (is_forbidden k)) ≡ true → at_most 32 k ≡ true
is_tag-short k h = ground (arith, h)

module _ {N : Type 0} (δ : Doubles N) (ρ : Rules) where
  put_tag-keys :
      (k : Text) (o : Option Text) (tags : Dict Text Text)
      → at_most 32 k ≡ true
      → all has_short_key tags ≡ true
      → all has_short_key (put_tag δ ρ k o tags) ≡ true
  put_tag-keys k none tags h e = e
  put_tag-keys k (some t) tags h e = set-keys tags k _ h e

  add_tags-keys :
      (input : Fields N) (allowed : List Text) (tags : Dict Text Text)
      → all has_short_key tags ≡ true
      → all has_short_key (add_tags δ ρ input allowed tags) ≡ true
  unfolding add_tags
  add_tags-keys input [] tags e = e
  add_tags-keys input (k ∷ allowed) tags e = elim (Bool-cases (is_tag k && not (is_forbidden k))) [
    | inl h ↦ rw h (
        add_tags-keys input allowed _
          (put_tag-keys k (tag_value δ (get_field k input)) tags (is_tag-short k h) e))
    | inr h ↦ rw h (add_tags-keys input allowed tags e)
  ]

  pub sanitize_tags-fit :
      (v : Option (Json N)) (allowed : List Text)
      → all tag_ok (sanitize_tags δ ρ v allowed) ≡ all fits_tag (sanitize_tags δ ρ v allowed)
  unfolding sanitize_tags
  sanitize_tags-fit v allowed =
      tags-fit (add_tags δ ρ (record_in v) (take 50 allowed) [])
        (add_tags-keys (record_in v) (take 50 allowed) [] refl)
