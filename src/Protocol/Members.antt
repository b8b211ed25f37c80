-- ===== src/Protocol/Members.antt =====
-- What the `to_json` and `from_json` of protocol.hpp do with an array.
use barbarossa.Common.{ℕ, ◌≡◌, Option, none, some, List, [], ◌∷◌, ◌++◌, get_elem?}
use barbarossa.Errors.Outcome.{ok, throws, undefined}
use barbarossa.Json.{JsonLib, bad_type}
use barbarossa.Protocol.{member}

module _ ⦃J : JsonLib⦄ where
  open J use {
    Json, null, array, elements, index, index-array, index-array_outside, index-other, push_back,
    push_back-null, push_back-array,
  }

  pub push_null : (v : Json) → push_back null v ≡ ok (array (v ∷ []))
  push_null v = push_back-null v

  pub push_array : (xs : List Json) (v : Json) → push_back (array xs) v ≡ ok (array (xs ++ v ∷ []))
  push_array xs v = push_back-array xs v

  pub member_lem :
      {A : Type 0} (get : Json → Option A) (xs : List Json) (i : ℕ) (v : Json) (a : A)
      → get_elem? xs i ≡ some v
      → get v ≡ some a
      → member get i (array xs) ≡ ok a
  unfolding member
  member_lem get xs i v a e g = rw (index-array xs i v e, g)

  -- A member that the array does not have is undefined behaviour, one of another type is a type error, and
  -- so is any member of what is no array.
  pub member_fails :
      {A : Type 0} (get : Json → Option A) (xs : List Json) (i : ℕ) (j : Json)
      → (get_elem? xs i ≡ none → member get i (array xs) ≡ undefined)
        × ((v : Json)
            → get_elem? xs i ≡ some v
            → get v ≡ none
            → member get i (array xs) ≡ throws bad_type)
        × (elements j ≡ none → member get i j ≡ throws bad_type)
  unfolding member
  member_fails get xs i j = (
    λ e. rw (index-array_outside xs i e),
    λ v e g. rw (index-array xs i v e, g),
    λ e. rw (index-other j i e),
  )

pub ruleset push_laws = (push_null, push_array)
