-- ===== src/Protocol/Envelope/Tests.antt =====
-- Runs of the envelope's reader, with numbers read as decimal digits and ASCII bodies.
use get_exception.Base.{
  ℕ, zero, suc, ◌+◌, ◌*◌, ◌-◌, ◌≤◌, ◌≡◌, ◌≢◌, refl, true, Option, none, some, List, [], ◌∷◌, ◌++◌,
  length, codes,
}
use get_exception.Protocol.Boundary.{ok, err, out_of_fuel, unsupported, invalid}
use get_exception.Protocol.Json.{Numbers, Fields, end, field, str}
use get_exception.Protocol.Json.Reader.{bounded_json}
use get_exception.Protocol.Envelope.{parse_envelope, is_event_id, max_envelope}
use get_exception.Protocol.Envelope.Safety.{parse_envelope_safe, parse_envelope_ends, IsRecord}

abbrev pub digits : ℕ → List ℕ → ℕ
digits n [] = n
digits n (c ∷ cs) = digits (10 * n + (c - 48)) cs

abbrev pub decimals : Numbers
decimals = record { Number = ℕ; of_text = λ t. some (digits 0 t) }

abbrev pub positive : ℕ → Option ℕ
positive zero = none
positive (suc n) = some (suc n)

abbrev pub ident : List ℕ
ident = codes "0123456789abcdef0123456789abcdef"

abbrev body_text : List ℕ
body_text = codes "{\"m\":\"x\"}"

abbrev header_text : List ℕ
header_text = codes "{\"event_id\":\"0123456789abcdef0123456789abcdef\"}"

abbrev pub sent : List ℕ
sent = header_text ++ 10 ∷ codes "{\"type\":\"event\",\"length\":9}" ++ 10 ∷ body_text ++ 10 ∷ []

abbrev pub m_x : Fields ℕ
m_x = field (codes "m") (str (codes "x")) end

parsed : parse_envelope decimals some positive sent ≡ ok (m_x, ident)
unfolding parse_envelope bounded_json
parsed = refl

dsn_refused :
    parse_envelope decimals some positive (codes "{\"dsn\":null}" ++ 10 ∷ codes "{}" ++ 10 ∷ [])
    ≡ err unsupported
unfolding parse_envelope bounded_json
dsn_refused = refl

one_line : parse_envelope decimals some positive (header_text ++ 10 ∷ []) ≡ err invalid
unfolding parse_envelope bounded_json
one_line = refl

parse_envelope_safe_example :
    (length sent ≤ max_envelope) × (is_event_id ident ≡ true) × IsRecord m_x
parse_envelope_safe_example = parse_envelope_safe decimals some positive sent m_x ident parsed

unfinished_never : parse_envelope decimals some positive sent ≢ out_of_fuel
unfinished_never = parse_envelope_ends decimals some positive sent
