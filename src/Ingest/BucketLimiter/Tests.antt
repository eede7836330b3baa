-- ===== src/Ingest/BucketLimiter/Tests.antt =====
-- Runs of the token buckets, and the theorems about them at concrete schedules.
use get_exception.Base.{
  ℕ, ◌+◌, ◌*◌, ◌≤◌, ◌≡◌, refl, List, [], ◌∷◌, arith, String, string_eq, ◌-◌, ◌&&◌, ◌||◌, ltb, leb,
  length,
}
use text.Mathlib.TextEquality.{eq_iff}
use get_exception.Base.Dict.{get, has, set}
use get_exception.Ingest.BucketLimiter.{Call, init, sweep, take}
use get_exception.Ingest.BucketLimiter.Size.{IsBounded, take-IsBounded, init-IsBounded}
use get_exception.Ingest.BucketLimiter.Admission.{
  available, available-take_ne, take-admits, admitted, admitted-le,
}

-- A call of a client with no Origin header: 2 each second, at most 5 at once.
abbrev client_call : String → ℕ → Call String
client_call ip now = record { key = ip; rate = 2; burst = 5; now = now }

abbrev burst_of_six : List (Call String)
burst_of_six =
    client_call "ip:a" 1000
    ∷ client_call "ip:a" 1000
    ∷ client_call "ip:a" 1000
    ∷ client_call "ip:b" 1001
    ∷ client_call "ip:a" 1002
    ∷ client_call "ip:a" 1003
    ∷ client_call "ip:a" 1004
    ∷ []

five_admitted : admitted "ip:a" (init String) burst_of_six ≡ 5
unfolding admitted init take get has set
five_admitted = refl

one_call-IsBounded : IsBounded (take (init String) (client_call "ip:a" 1000)).0
one_call-IsBounded = take-IsBounded (init String) (client_call "ip:a" 1000) (init-IsBounded String)

admitted-le_example :
    1000 * admitted "ip:a" (init String) burst_of_six ≤ 1000 * 5 + (2000 - 1000) * 2
admitted-le_example =
    admitted-le "ip:a" 2 5 1000 2000 (init String) burst_of_six (omega arith) (omega arith)
      (omega arith) (init-IsBounded String)

other_key_untouched :
    available "ip:b" 2 5 (take (init String) (client_call "ip:a" 1000)).0 1000
    ≡ available "ip:b" 2 5 (init String) 1000
other_key_untouched =
    available-take_ne "ip:b" 2 5 (init String) (client_call "ip:a" 1000) (omega arith)
      (ground (arith, eq_iff "ip:a" "ip:b")) (init-IsBounded String)

one_call_admitted : (take (init String) (client_call "ip:a" 1000)).1 ≡ (
    (has (sweep (init String) 1000).buckets "ip:a"
      || ltb (length (sweep (init String) 1000).buckets) 20000)
    && leb 1000 (available "ip:a" 2 5 (init String) 1000))
one_call_admitted =
    take-admits (init String) (client_call "ip:a" 1000) (omega arith) (init-IsBounded String)
