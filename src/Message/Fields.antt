-- ===== src/Message/Fields.antt =====
-- Reading and writing the fields of a message: message.ipp, `Field` and `SetField`.
use barbarossa.Common.{
  ℕ, ◌≤◌, ◌<◌, ◌≡◌, Option, length-set, get_elem?-set, get_elem?_inside, ◌==◌, if◌then◌else◌, arith,
}
use barbarossa.Errors.Outcome.{ok, throws, or_throw}
use barbarossa.Json.{JsonLib, bad_type}
use barbarossa.Message.{Message, size, field_at, field_as, set_field, invalid_index}

module _ ⦃J : JsonLib⦄ where
  open J use {Json}

  -- A field that was set to a value reads as the value, every other field as before, and the number of
  -- fields stays.
  pub field_at-set_field :
      (i : ℕ) (v : Json) (m : Message)
      → i < size m
      → (m' : Message) × (set_field i v m ≡ ok m')
        × (size m' ≡ size m)
        × ((j : ℕ) → field_at j m' ≡ (if i == j then ok v else field_at j m))
  unfolding size field_at set_field
  field_at-set_field i v m h = (
    record { fields = _ },
    ground arith,
    length-set m.fields i v,
    λ j. ground (arith, get_elem?-set m.fields i j v, length-set m.fields i v),
  )

  -- A read by index is defined: below the size it returns, and from the size on it throws, as the typed
  -- read and the write do there.
  pub field_at_cases :
      (i : ℕ) (m : Message)
      → (i < size m → (v : Json) × (field_at i m ≡ ok v))
        × (size m ≤ i
            → (field_at i m ≡ throws invalid_index)
              × ((v : Json) → set_field i v m ≡ throws invalid_index)
              × ((get : Json → Option ℕ) → field_as get i m ≡ throws invalid_index))
  unfolding size field_at field_as set_field
  field_at_cases i m = (
    λ h. let (v, e) = get_elem?_inside m.fields i h in (v, ground arith),
    λ h. (ground arith, λ v. ground arith, λ get. ground arith),
  )

  -- The typed read is the untyped one with the conversion, whose failure is a type error.
  pub field_as-field_at :
      {A : Type 0} (get : Json → Option A) (i : ℕ) (m : Message) (v : Json)
      → field_at i m ≡ ok v
      → field_as get i m ≡ or_throw bad_type (get v)
  unfolding field_at field_as
  field_as-field_at get i m v h = ground arith
