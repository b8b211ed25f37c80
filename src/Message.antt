-- ===== src/Message.antt =====
-- include/barbarossa/message.hpp and message.ipp: a message is a list of JSON fields.
pub mod Fields
pub mod Move
mod Tests
use barbarossa.Common.{
  ℕ, String, Bool, true, false, Option, none, some, List, [], ◌∷◌, length, get_elem?, set,
  replicate, ltb, ◌==◌, if◌then◌else◌,
}
use barbarossa.Errors.{Exception, out_of_range}
use barbarossa.Errors.Outcome.{Outcome, ok, throws, undefined, or_throw, ◌>>=◌}
use barbarossa.Json.{JsonLib, bad_type}

abbrev pub invalid_index : Exception
invalid_index = out_of_range "invalid message field index"

abbrev or_undefined {ℓ} : {A : Type ℓ} → Option A → Outcome A
or_undefined none = undefined
or_undefined (some a) = ok a

module _ ⦃J : JsonLib⦄ where
  open J use {Json, null}

  pub record Message : Type 0 where
    pub fields : List Json

  -- `Message(num_fields)`: every field is a default value.
  unfoldable pub sized : ℕ → Message
  sized n = record { fields = replicate n null }

  -- `Message(std::move(fields))`
  abbrev pub from_fields : List Json → Message
  from_fields xs = record { fields = xs }

  unfoldable pub size : Message → ℕ
  size m = length m.fields

  -- `Field(index) const`
  unfoldable pub field_at : ℕ → Message → Outcome Json
  field_at i m =
      if ltb i (length m.fields) then or_undefined (get_elem? m.fields i) else throws invalid_index

  -- `Field<Type>(index)`, where `get` is the conversion to the type.
  unfoldable pub field_as : {A : Type 0} → (Json → Option A) → ℕ → Message → Outcome A
  field_as get i m =
      if ltb i (length m.fields)
      then or_undefined (get_elem? m.fields i) >>= (λ j. or_throw bad_type (get j))
      else throws invalid_index

  -- `SetField<Type>(index, value)`, where the value is converted to JSON already.
  unfoldable pub set_field : ℕ → Json → Message → Outcome Message
  set_field i v m =
      if ltb i (length m.fields)
      then ok (record { fields = set m.fields i v })
      else throws invalid_index

  -- The move constructor: the new message, and what is left of the other. The standard leaves open what
  -- a vector that was moved from holds: `rest`.
  unfoldable pub move_construct : List Json → Message → Message × Message
  move_construct rest other = (record { fields = other.fields }, record { fields = rest })

  -- The move assignment of the object at address `other` to the one at `this`.
  unfoldable pub move_assign : List Json → ℕ → ℕ → (ℕ → Message) → ℕ → Message
  move_assign rest this other store at =
      if this == other
      then store at
      else if at == this
      then record { fields = (store other).fields }
      else if at == other
      then record { fields = rest }
      else store at
