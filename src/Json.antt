-- ===== src/Json.antt =====
-- nlohmann::json, which the program uses and which is not part of the repository: the type of JSON
-- values, the calls that the program makes, and the documented behaviour that it relies on.
pub mod Sample
use barbarossa.Common.{
  ℕ, zero, suc, ◌<◌, ◌^◌, ◌≡◌, String, str_eq, Bool, true, false, Option, none, some, List, [], ◌∷◌,
  ◌++◌, ℤ, pos, IsInt32, get_elem?, if◌then◌else◌,
}
use barbarossa.Errors.{Exception, json_error, type_error, missing_key}
use barbarossa.Errors.Outcome.{Outcome, ok, throws, undefined}

abbrev pub bad_type : Exception
bad_type = json_error type_error

pub record JsonLib : Type 1 where
  pub Json : Type 0
  -- `json()`, `json::object()`, a JSON array of values, and the conversions to JSON.
  pub null : Json
  pub object : Json
  pub array : List Json → Json
  pub of_int : ℤ → Json
  pub of_string : String → Json
  -- `is_null()`, and the values of an array (`none` where `is_array()` is false).
  pub is_null : Json → Bool
  pub elements : Json → Option (List Json)
  -- `operator==`
  pub equals : Json → Json → Bool
  -- `get<int32_t>()`, `get<uint32_t>()`, `get<std::string>()`: `none` stands for a type error.
  pub get_int : Json → Option ℤ
  pub get_uint : Json → Option ℕ
  pub get_string : Json → Option String
  -- `j[i]` on a const value, `j[i]` on another (the element, and what `j` is then), `j.push_back(v)`.
  pub index : Json → ℕ → Outcome Json
  pub subscript : Json → ℕ → Outcome (Json × Json)
  pub push_back : Json → Json → Outcome Json
  -- `j[k] = v`, `j.at(k)`, `j.find(k)` (`none` for `end()`).
  pub set_key : Json → String → Json → Outcome Json
  pub at_key : Json → String → Outcome Json
  pub find_key : Json → String → Option Json
  -- `json::parse` and `dump`: `none` stands for an exception.
  pub parse : String → Option Json
  pub dump : Json → Option String
  pub is_null-null : is_null null ≡ true
  pub is_null-object : is_null object ≡ false
  pub equals-object_null : equals object null ≡ false
  pub elements-array : (xs : List Json) → elements (array xs) ≡ some xs
  pub elements-null : elements null ≡ none
  pub get_int-of_int : (n : ℤ) → IsInt32 n → get_int (of_int n) ≡ some n
  pub get_uint-of_int : (n : ℕ) → n < 2 ^ 32 → get_uint (of_int (pos n)) ≡ some n
  -- `get<uint32_t>()` gives a value of that type.
  pub get_uint-bound : (j : Json) (n : ℕ) → get_uint j ≡ some n → n < 2 ^ 32
  pub get_uint-null : get_uint null ≡ none
  pub get_string-of_string : (s : String) → get_string (of_string s) ≡ some s
  -- An index past the end of a const array is undefined behaviour; no other value can be indexed.
  pub index-array :
      (xs : List Json) (i : ℕ) (x : Json) → get_elem? xs i ≡ some x → index (array xs) i ≡ ok x
  pub index-array_outside :
      (xs : List Json) (i : ℕ) → get_elem? xs i ≡ none → index (array xs) i ≡ undefined
  pub index-other : (j : Json) (i : ℕ) → elements j ≡ none → index j i ≡ throws bad_type
  -- On a value that is not const an index makes room: null becomes an array, and an array gets null.
  pub subscript-array :
      (xs : List Json) (i : ℕ) (x : Json)
      → get_elem? xs i ≡ some x
      → subscript (array xs) i ≡ ok (x, array xs)
  pub subscript-null : subscript null 0 ≡ ok (null, array (null ∷ []))
  pub subscript-empty : subscript (array []) 0 ≡ ok (null, array (null ∷ []))
  pub push_back-null : (v : Json) → push_back null v ≡ ok (array (v ∷ []))
  pub push_back-array :
      (xs : List Json) (v : Json) → push_back (array xs) v ≡ ok (array (xs ++ v ∷ []))
  -- Null becomes an object, and an object has the key afterwards and no other changed.
  pub set_key-null : (k : String) (v : Json) → set_key null k v ≡ set_key object k v
  pub set_key-object : (k : String) (v : Json) → (j : Json) × (set_key object k v ≡ ok j)
  pub set_key_again :
      (j j' : Json) (k l : String) (v w : Json)
      → set_key j k v ≡ ok j'
      → (j'' : Json) × (set_key j' l w ≡ ok j'')
  pub is_null-set_key :
      (j j' : Json) (k : String) (v : Json) → set_key j k v ≡ ok j' → is_null j' ≡ false
  pub find_key-set_key :
      (j j' : Json) (k l : String) (v : Json)
      → set_key j k v ≡ ok j'
      → find_key j' l ≡ (if str_eq k l then some v else find_key j l)
  pub at_key_found : (j : Json) (k : String) (v : Json) → find_key j k ≡ some v → at_key j k ≡ ok v
