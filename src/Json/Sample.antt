-- ===== src/Json/Sample.antt =====
-- A small instance of the interface to nlohmann::json, at which the theorems are instantiated. It reads
-- only the texts that the instances need.
mod Values
mod Objects
pub use Values.*
use Objects.*
use Prim.Native.Nat.{◌%◌, ◌^◌, ◌<◌}
use Prim.Native.String.{◌++◌ as text_append}
use barbarossa.Common.{
  ℕ, zero, suc, negsuc, ◌==◌, ltb, ◌≡◌, refl, ap, String, str_eq, eq_iff, Bool, true, false, Option,
  none, some, List, [], ◌∷◌, ◌++◌, ℤ, pos, get_elem?, if◌then◌else◌, arith,
}
use barbarossa.Errors.Outcome.{Outcome, ok, throws, undefined, or_throw}
use barbarossa.Errors.{json_error, missing_key}
use barbarossa.Json.{JsonLib, bad_type}

abbrev pub to_items : List Value → Elements
to_items [] = no_elements
to_items (v ∷ vs) = element v (to_items vs)

abbrev pub from_items : Elements → List Value
from_items no_elements = []
from_items (element v vs) = v ∷ from_items vs

from_items-to_items : (vs : List Value) → from_items (to_items vs) ≡ vs
from_items-to_items [] = refl
from_items-to_items (v ∷ vs) = ap (◌∷◌ v) (from_items-to_items vs)

abbrev elements : Value → Option (List Value)
elements (arr vs) = some (from_items vs)
elements _ = none

pub elements-array : (vs : List Value) → elements (arr (to_items vs)) ≡ some vs
elements-array vs = ap some (from_items-to_items vs)

abbrev or_undefined : Option Value → Outcome Value
or_undefined none = undefined
or_undefined (some v) = ok v

abbrev index : Value → ℕ → Outcome Value
index (arr vs) i = or_undefined (get_elem? (from_items vs) i)
index _ i = throws bad_type

pub index-array :
    (vs : List Value) (i : ℕ) (v : Value)
    → get_elem? vs i ≡ some v
    → index (arr (to_items vs)) i ≡ ok v
index-array vs i v h = rw (from_items-to_items vs) (rw h)

pub index-array_outside :
    (vs : List Value) (i : ℕ) → get_elem? vs i ≡ none → index (arr (to_items vs)) i ≡ undefined
index-array_outside vs i h = rw (from_items-to_items vs) (rw h)

pub index-other : (j : Value) (i : ℕ) → elements j ≡ none → index j i ≡ throws bad_type
index-other (arr vs) i h = cc
index-other null i h = refl
index-other (num n) i h = refl
index-other (str s) i h = refl
index-other (obj fs) i h = refl

abbrev extend : Option Value → List Value → Outcome (Value × Value)
extend (some v) vs = ok (v, arr (to_items vs))
extend none vs = ok (null, arr (to_items (vs ++ null ∷ [])))

-- One place past the no_members is as far as the instances go.
abbrev subscript : Value → ℕ → Outcome (Value × Value)
subscript (arr vs) i = extend (get_elem? (from_items vs) i) (from_items vs)
subscript null i = ok (null, arr (element null no_elements))
subscript _ i = throws bad_type

pub subscript-array :
    (vs : List Value) (i : ℕ) (v : Value)
    → get_elem? vs i ≡ some v
    → subscript (arr (to_items vs)) i ≡ ok (v, arr (to_items vs))
subscript-array vs i v h = rw (from_items-to_items vs) (rw h)

abbrev push_back : Value → Value → Outcome Value
push_back null v = ok (arr (element v no_elements))
push_back (arr vs) v = ok (arr (to_items (from_items vs ++ v ∷ [])))
push_back _ v = throws bad_type

pub push_back-array :
    (vs : List Value) (v : Value)
    → push_back (arr (to_items vs)) v ≡ ok (arr (to_items (vs ++ v ∷ [])))
push_back-array vs v = rw (from_items-to_items vs)

abbrev get_int : Value → Option ℤ
get_int (num n) = some n
get_int _ = none

abbrev get_uint : Value → Option ℕ
get_uint (num (pos n)) = some (n % 2 ^ 32)
get_uint _ = none

pub get_uint-of_int : (n : ℕ) → n < 2 ^ 32 → get_uint (num (pos n)) ≡ some n
get_uint-of_int n h = ap some (omega arith)

pub get_uint-bound : (j : Value) (n : ℕ) → get_uint j ≡ some n → n < 2 ^ 32
get_uint-bound (num (pos k)) n h = ground arith
get_uint-bound _ n h = cc

abbrev get_string : Value → Option String
get_string (str s) = some s
get_string _ = none

-- The texts that the instances receive, and no other.
abbrev parse : String → Option Value
parse s =
    if str_eq s "[5,{}]"
    then some (arr (element (num (pos 5)) (element (obj no_members) no_elements)))
    else if str_eq s "[2,7,{}]"
    then some
        (arr (element (num (pos 2)) (element (num (pos 7)) (element (obj no_members) no_elements))))
    else if str_eq s "[3,\"ERR_NO_SUCH_REALM\",{}]"
    then some (
        arr (
          element (num (pos 3))
            (element (str "ERR_NO_SUCH_REALM") (element (obj no_members) no_elements))))
    else none

abbrev dump : Value → Option String
dump v = some (text v)

instance abbrev pub sample_json : JsonLib
sample_json = record {
  Json = Value;
  null = null;
  object = obj no_members;
  array = λ vs. arr (to_items vs);
  of_int = num;
  of_string = str;
  is_null = is_null;
  elements = elements;
  equals = same_value;
  get_int = get_int;
  get_uint = get_uint;
  get_string = get_string;
  index = index;
  subscript = subscript;
  push_back = push_back;
  set_key = set_key;
  at_key = at_key;
  find_key = find_key;
  parse = parse;
  dump = dump;
  is_null-null = refl;
  is_null-object = refl;
  equals-object_null = refl;
  elements-array = elements-array;
  elements-null = refl;
  get_int-of_int = λ n h. refl;
  get_uint-of_int = get_uint-of_int;
  get_uint-bound = get_uint-bound;
  get_uint-null = refl;
  get_string-of_string = λ s. refl;
  index-array = index-array;
  index-array_outside = index-array_outside;
  index-other = index-other;
  subscript-array = subscript-array;
  subscript-null = refl;
  subscript-empty = refl;
  push_back-null = λ v. refl;
  push_back-array = push_back-array;
  set_key-null = λ k v. refl;
  set_key-object = λ k v. (obj (entry k v no_members), refl);
  set_key_again = set_key_again;
  is_null-set_key = is_null-set_key;
  find_key-set_key = find_key-set_key;
  at_key_found = at_key_found;
}
