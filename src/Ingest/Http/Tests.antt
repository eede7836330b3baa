-- ===== src/Ingest/Http/Tests.antt =====
-- Runs of the texts of a request.
use get_exception.Base.{◌≡◌, refl, none, some, [], ◌∷◌, ◌++◌, codes}
use get_exception.Ingest.Http.{match_path, auth_keys, trim, Text}

abbrev pub key_text : Text
key_text = codes "0123456789abcdef0123456789abcdef0123456789abcdef0123456789abcdef"

project_path :
    match_path (codes "/api/0c2b8f4e-1111-4222-8333-444444444444/envelope/")
    ≡ some (codes "0c2b8f4e-1111-4222-8333-444444444444")
unfolding match_path
project_path = refl

short_path : match_path (codes "/api/0c2b8f4e/envelope/") ≡ none
unfolding match_path
short_path = refl

one_key : auth_keys (codes "Sentry sentry_version=7, sentry_key=" ++ key_text) ≡ (key_text ∷ [])
unfolding auth_keys
one_key = refl

two_keys :
    auth_keys (codes "Sentry  sentry_key=" ++ key_text ++ codes ",sentry_key=" ++ key_text)
    ≡ (key_text ∷ key_text ∷ [])
unfolding auth_keys
two_keys = refl

list_trimmed : trim (codes " a b ") ≡ codes "a b"
unfolding trim
list_trimmed = refl
