-- ===== src/Protocol/Json/Reader/Tests.antt =====
-- Runs of the JSON reader, with a number read as its own text.
use get_exception.Base.{ℕ, ◌≤◌, ◌≡◌, ◌≢◌, refl, true, some, List, [], ◌∷◌, ◌++◌, codes}
use get_exception.Protocol.Boundary.{ok, err, out_of_fuel, invalid, too_large}
use get_exception.Protocol.Json.{Numbers, bool, num, str, arr, obj, nil, cons, end, field}
use get_exception.Protocol.Json.Literal.{utf8_length}
use get_exception.Protocol.Json.Reader.{bounded_json}
use get_exception.Protocol.Json.Reader.Spec.{Fits}
use get_exception.Protocol.Json.Reader.Bounds.{bounded_json-Fits, bounded_json_ends}

abbrev plain_numbers : Numbers
plain_numbers = record { Number = List ℕ; of_text = λ t. some t }

nested :
    bounded_json plain_numbers (codes "{\"a\": [1, true ,-2.5e3], \"b\":\"x\\n\\u0041\"}") 100
    ≡ ok (
        obj (
          field
            (codes "a")
            (arr (cons (num (codes "1")) (cons (bool true) (cons (num (codes "-2.5e3")) nil))))
            (field (codes "b") (str (codes "x" ++ 10 ∷ 65 ∷ [])) end)))
unfolding bounded_json
nested = refl

duplicate : bounded_json plain_numbers (codes "{\"a\":1,\"a\":2}") 100 ≡ err invalid
unfolding bounded_json
duplicate = refl

leading_zero : bounded_json plain_numbers (codes "01") 100 ≡ err invalid
unfolding bounded_json
leading_zero = refl

oversized : bounded_json plain_numbers (codes "[1]") 2 ≡ err too_large
unfolding bounded_json
oversized = refl

abbrev pair_text : List ℕ
pair_text = codes "[true,{\"b\":\"x\"}]"

pair_read :
    bounded_json plain_numbers pair_text 100
    ≡ ok (arr (cons (bool true) (cons (obj (field (codes "b") (str (codes "x")) end)) nil)))
unfolding bounded_json
pair_read = refl

bounded_json-Fits_example :
    Fits {N = List ℕ} 0
      (arr (cons (bool true) (cons (obj (field (codes "b") (str (codes "x")) end)) nil)))
    × (1 ≤ 2048)
    × (utf8_length pair_text ≤ 100)
bounded_json-Fits_example = bounded_json-Fits plain_numbers pair_text 100 _ pair_read

bounded_json_ends_example : bounded_json plain_numbers (codes "[[{\"a\"") 100 ≢ out_of_fuel
bounded_json_ends_example = bounded_json_ends plain_numbers (codes "[[{\"a\"") 100
