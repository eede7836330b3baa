-- ===== src/Protocol/Json/Reader/Spec.antt =====
-- The budgets of json.ts as predicates on the values that it reads.
use get_exception.Base.{ℕ, suc, ◌+◌, ◌≤◌, ◌≡◌, false, List, [], ◌∷◌, length}
use get_exception.Protocol.Json.{
  Json, null, bool, num, str, arr, obj, Items, nil, cons, Fields, end, field, limits,
}
use get_exception.Protocol.Json.Reader.{contains, forbidden}

abbrev mutual
  pub count_keys : {N : Type 0} → Json N → ℕ
  count_keys null = 0
  count_keys (bool b) = 0
  count_keys (num x) = 0
  count_keys (str t) = 0
  count_keys (arr xs) = count_keys_items xs
  count_keys (obj fs) = count_keys_fields fs

  pub count_keys_items : {N : Type 0} → Items N → ℕ
  count_keys_items nil = 0
  count_keys_items (cons v xs) = count_keys v + count_keys_items xs

  pub count_keys_fields : {N : Type 0} → Fields N → ℕ
  count_keys_fields end = 0
  count_keys_fields (field k v fs) = suc (count_keys v + count_keys_fields fs)

abbrev pub length_items : {N : Type 0} → Items N → ℕ
length_items nil = 0
length_items (cons v xs) = suc (length_items xs)

-- `v` stands `depth` brackets deep: it is no deeper than the limit, its arrays and texts are no
-- longer than theirs, and no object has a forbidden key, one of the keys `seen`, or a key twice.
abbrev mutual
  pub Fits : {N : Type 0} → ℕ → Json N → Type 0
  Fits depth null = depth ≤ limits.depth
  Fits depth (bool b) = depth ≤ limits.depth
  Fits depth (num x) = depth ≤ limits.depth
  Fits depth (str t) = (depth ≤ limits.depth) × (length t ≤ limits.string)
  Fits depth (arr xs) =
      (depth ≤ limits.depth) × (length_items xs ≤ limits.array) × FitsItems (depth + 1) xs
  Fits depth (obj fs) = (depth ≤ limits.depth) × FitsFields (depth + 1) [] fs

  pub FitsItems : {N : Type 0} → ℕ → Items N → Type 0
  FitsItems depth nil = Unit {0}
  FitsItems depth (cons v xs) = Fits depth v × FitsItems depth xs

  pub FitsFields : {N : Type 0} → ℕ → List (List ℕ) → Fields N → Type 0
  FitsFields depth seen end = Unit {0}
  FitsFields depth seen (field k v fs) =
      (contains forbidden k ≡ false)
      × (contains seen k ≡ false)
      × (length k ≤ limits.string)
      × Fits depth v
      × FitsFields depth (k ∷ seen) fs
