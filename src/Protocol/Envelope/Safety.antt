-- ===== src/Protocol/Envelope/Safety.antt =====
-- What a parsed envelope holds.
use get_exception.Base.{
  ℕ, ◌+◌, take, drop, ◌≤◌, ◌≡◌, ◌≢◌, refl, Bool, true, false, not, ◌&&◌, ◌||◌, leb, leb→le, Option,
  none, some, List, [], ◌∷◌, length, codes, arith, ◌==◌, ◌===◌, list_eq,
}
use get_exception.Protocol.Boundary.{
  ok, err, out_of_fuel, invalid, too_large, unsupported, ◌>>=◌, require,
}
use get_exception.Protocol.Boundary.Ensures.{
  Ensures, Ensures-bind, Ensures-require, Ensures-if, Ensures-weaken,
}
use get_exception.Protocol.Json.{Numbers, Json, null, bool, num, str, arr, obj, Fields, limits}
use get_exception.Protocol.Json.Reader.{bounded_json}
use get_exception.Protocol.Json.Reader.Spec.{Fits, FitsFields, count_keys, count_keys_fields}
use get_exception.Protocol.Json.Reader.Bounds.{bounded_json-Ensures}
use get_exception.Protocol.Envelope.{
  record_of, get_field, from, trimmed, text_of, or_else, is_present, is_text, is_event_id, max_line,
  max_envelope, length_of, read, item_body, read_event, parse_parts, parse_envelope, cut,
}

-- An object within the budgets.
abbrev pub IsRecord : {N : Type 0} → Fields N → Type 0
IsRecord fs = FitsFields 1 [] fs × (count_keys_fields fs ≤ limits.fields)

record_of-IsRecord :
    {N : Type 0} (v : Json N) → Fits 0 v → count_keys v ≤ limits.fields → IsRecord (record_of v)
record_of-IsRecord null f c = (tt, omega arith)
record_of-IsRecord (bool b) f c = (tt, omega arith)
record_of-IsRecord (num n) f c = (tt, omega arith)
record_of-IsRecord (str t) f c = (tt, omega arith)
record_of-IsRecord (arr xs) f c = (tt, omega arith)
record_of-IsRecord (obj fs) f c = (f.1, c)

Ensures-from : {A : Type 0} (o : Option A) → Ensures (λ _. Unit {0}) (from o)
Ensures-from none = tt
Ensures-from (some a) = tt

and-left : (a b : Bool) → (a && b) ≡ true → a ≡ true
and-left true b h = refl
and-left false b h = h

trimmed-ends : (body : List ℕ) (n : ℕ) → Ensures (λ _. Unit {0}) (trimmed body n)
trimmed-ends body n =
    Ensures-if {B = List ℕ} (λ _. Unit {0})
      (length body == n || (length body == n + 1 && (drop n body === (10 ∷ [])))) (ok (take n body))
      (err invalid) (λ _. tt) (λ _. tt)

module _ (N : Numbers) (decode : List ℕ → Option (List ℕ)) (integer : N.Number → Option ℕ) where
  open N use {Number}

  abbrev IsRead : Json Number → Type 0
  IsRead v = Fits 0 v × (count_keys v ≤ limits.fields)

  read-Ensures :
      (bytes : List ℕ) (max_bytes : ℕ) → Ensures IsRead (read N decode integer bytes max_bytes)
  unfolding read
  read-Ensures bytes max_bytes =
      Ensures-bind (λ _. Unit {0}) IsRead (from (decode bytes)) _ (Ensures-from (decode bytes))
        λ text _.
          Ensures-weaken _ IsRead (bounded_json N text max_bytes) (λ v h. (h.0, h.1))
            (bounded_json-Ensures N text max_bytes)

  item_body-ends :
      (v : Option (Json Number)) (body : List ℕ)
      → Ensures (λ _. Unit {0}) (item_body N decode integer v body)
  unfolding item_body
  item_body-ends none body = tt
  item_body-ends (some v) body =
      Ensures-bind (λ _. Unit {0}) (λ _. Unit {0}) (from (length_of N decode integer v)) _
        (Ensures-from (length_of N decode integer v))
        λ n _.
          Ensures-require (λ _. Unit {0}) (leb 1 n && leb n limits.item) invalid _
            λ _. trimmed-ends body n

  -- What a parsed envelope promises.
  abbrev IsParsed : Fields Number × List ℕ → Type 0
  IsParsed r = IsRecord r.0 × (is_event_id r.1 ≡ true)

  named-Ensures :
      (event : Fields Number) (named : Option (Json Number)) (id : List ℕ)
      → IsRecord event
      → Ensures IsParsed (
          require (is_event_id id && (not (is_present named) || is_text id named)) invalid >>= λ _.
          ok (event, id))
  named-Ensures event named id h =
      Ensures-require IsParsed (is_event_id id && (not (is_present named) || is_text id named))
        invalid (ok (event, id)) λ b. (h, and-left (is_event_id id) _ b)

  content-Ensures :
      (named : Option (Json Number)) (content : List ℕ)
      → Ensures IsParsed (read_event N decode integer named content)
  unfolding read_event
  content-Ensures named content =
      Ensures-bind IsRead IsParsed (read N decode integer content limits.item) _
        (read-Ensures content limits.item)
        λ e h.
          Ensures-bind (λ _. Unit {0}) IsParsed
            (from (text_of (or_else (get_field (codes "event_id") (record_of e)) named))) _
            (Ensures-from (text_of (or_else (get_field (codes "event_id") (record_of e)) named)))
            λ id _. named-Ensures (record_of e) named id (record_of-IsRecord e h.0 h.1)

  parse_parts-Ensures :
      (header_line item_line body : List ℕ)
      → Ensures IsParsed (parse_parts N decode integer header_line item_line body)
  unfolding parse_parts
  parse_parts-Ensures header_line item_line body =
      Ensures-bind IsRead IsParsed (read N decode integer header_line max_line) _
        (read-Ensures header_line max_line)
        λ h _.
          Ensures-require IsParsed (not (is_present (get_field (codes "dsn") (record_of h))))
            unsupported _
            λ _.
              Ensures-bind IsRead IsParsed (read N decode integer item_line max_line) _
                (read-Ensures item_line max_line)
                λ i _.
                  Ensures-require IsParsed
                    (is_text (codes "event") (get_field (codes "type") (record_of i))) unsupported _
                    λ _.
                      Ensures-bind (λ _. Unit {0}) IsParsed
                        (item_body N decode integer (get_field (codes "length") (record_of i)) body)
                        _ (item_body-ends (get_field (codes "length") (record_of i)) body)
                        λ content _.
                          content-Ensures (get_field (codes "event_id") (record_of h)) content

  abbrev IsSafe : List ℕ → Fields Number × List ℕ → Type 0
  IsSafe bytes r = IsParsed r × (length bytes ≤ max_envelope)

  parse_envelope-Ensures :
      (bytes : List ℕ) → Ensures (IsSafe bytes) (parse_envelope N decode integer bytes)
  unfolding parse_envelope
  parse_envelope-Ensures bytes =
      Ensures-require (IsSafe bytes) (leb (length bytes) max_envelope) too_large _ λ b.
        Ensures-bind (λ _. Unit {0}) (IsSafe bytes) (from (cut bytes)) _ (Ensures-from (cut bytes))
          λ first _.
            Ensures-bind (λ _. Unit {0}) (IsSafe bytes) (from (cut first.1)) _
              (Ensures-from (cut first.1))
              λ second _. Ensures-require (IsSafe bytes) _ invalid _ λ _.
                Ensures-weaken IsParsed (IsSafe bytes) _
                  (λ r h. (h, leb→le (length bytes) max_envelope b))
                  (parse_parts-Ensures first.0 second.0 second.1)

  -- An envelope that is accepted was within the size limit; its event id is 32 lower-case
  -- hexadecimal digits; and its event is a record nested at most 16 deep, with at most 2048 object
  -- keys in all and no forbidden or repeated one, 512 elements in an array and 4096 code units in a
  -- text.
  pub parse_envelope_safe :
      (bytes : List ℕ) (event : Fields Number) (id : List ℕ)
      → parse_envelope N decode integer bytes ≡ ok (event, id)
      → (length bytes ≤ max_envelope) × (is_event_id id ≡ true) × IsRecord event
  parse_envelope_safe bytes event id e =
      let h : IsSafe bytes (event, id) = rw e at (parse_envelope-Ensures bytes) in
      (h.1, h.0.1, h.0.0)

  -- The envelope's reader comes to an end on every body, with an event or a `BoundaryError`.
  pub parse_envelope_ends : (bytes : List ℕ) → parse_envelope N decode integer bytes ≢ out_of_fuel
  parse_envelope_ends bytes e = rw e at (parse_envelope-Ensures bytes)
