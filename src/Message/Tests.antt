-- ===== src/Message/Tests.antt =====
-- Instances of the theorems on messages, and runs.
use barbarossa.Common.{
  ℕ, ◌<◌, ◌≤◌, ◌≡◌, refl, String, Option, none, [], ◌∷◌, pos, ◌==◌, ◌≢◌, if◌then◌else◌, arith,
}
use barbarossa.Errors.Outcome.{ok, throws, or_throw}
use barbarossa.Json.{bad_type}
use barbarossa.Json.Sample.{Value, null, num, str, sample_json}
use barbarossa.Message.{
  Message, from_fields, size, field_at, field_as, set_field, invalid_index, move_construct,
  move_assign,
}
use barbarossa.Message.Fields.{field_at-set_field, field_at_cases, field_as-field_at}
use barbarossa.Message.Move.{move_assign_lem}

abbrev two_fields : Message
two_fields = from_fields (num (pos 1) ∷ str "realm" ∷ [])

changed_field :
    (m' : Message) × (set_field 1 null two_fields ≡ ok m')
    × (size m' ≡ size two_fields)
    × ((j : ℕ) → field_at j m' ≡ (if 1 == j then ok null else field_at j two_fields))
unfolding size
changed_field = field_at-set_field 1 null two_fields (omega arith)

third_field :
    (2 < size two_fields → (v : Value) × (field_at 2 two_fields ≡ ok v))
    × (size two_fields ≤ 2
        → (field_at 2 two_fields ≡ throws invalid_index)
          × ((v : Value) → set_field 2 v two_fields ≡ throws invalid_index)
          × ((get : Value → Option ℕ) → field_as get 2 two_fields ≡ throws invalid_index))
third_field = field_at_cases 2 two_fields

string_field : field_as sample_json.get_string 1 two_fields ≡ ok "realm"
unfolding field_as
string_field = refl

number_field : field_as sample_json.get_string 0 two_fields ≡ or_throw {A = String} bad_type none
unfolding field_at
number_field = field_as-field_at sample_json.get_string 0 two_fields (num (pos 1)) refl

abbrev two_objects : ℕ → Message
two_objects i = if i == 0 then two_fields else from_fields []

moved_field :
    (move_assign [] 1 0 two_objects 1 ≡ two_objects 0)
    × ((at : ℕ) → at ≢ 1 → at ≢ 0 → move_assign [] 1 0 two_objects at ≡ two_objects at)
    × ((move_construct [] (two_objects 0)).0 ≡ move_assign [] 1 0 two_objects 1)
moved_field = move_assign_lem [] 1 0 two_objects
