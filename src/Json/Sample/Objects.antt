-- ===== src/Json/Sample/Objects.antt =====
-- The objects of the small instance: what is stored under a key.
use barbarossa.Common.{
  ◌≡◌, refl, String, str_eq, eq_iff, Bool, true, false, Option, none, some, if◌then◌else◌, arith,
}
use barbarossa.Errors.Outcome.{Outcome, ok, throws, or_throw}
use barbarossa.Errors.{json_error, missing_key}
use barbarossa.Json.{bad_type}
use barbarossa.Json.Sample.Values.{Value, Members, null, obj, no_members, entry}

abbrev insert : String → Value → Members → Members
insert k v no_members = entry k v no_members
insert k v (entry l w fs) = if str_eq l k then entry k v fs else entry l w (insert k v fs)

abbrev lookup : String → Members → Option Value
lookup k no_members = none
lookup k (entry l w fs) = if str_eq l k then some w else lookup k fs

lookup-insert :
    (k l : String) (v : Value) (fs : Members)
    → lookup l (insert k v fs) ≡ (if str_eq k l then some v else lookup l fs)
lookup-insert k l v no_members = refl
lookup-insert k l v (entry m w fs) =
    ground (arith, eq_iff k l, eq_iff m k, eq_iff m l, lookup-insert k l v fs)

abbrev pub set_key : Value → String → Value → Outcome Value
set_key null k v = ok (obj (entry k v no_members))
set_key (obj fs) k v = ok (obj (insert k v fs))
set_key _ k v = throws bad_type

abbrev pub find_key : Value → String → Option Value
find_key (obj fs) k = lookup k fs
find_key _ k = none

pub set_key_again :
    (j j' : Value) (k l : String) (v w : Value)
    → set_key j k v ≡ ok j'
    → (j'' : Value) × (set_key j' l w ≡ ok j'')
set_key_again j null k l v w h = (obj (entry l w no_members), refl)
set_key_again j (obj fs) k l v w h = (obj (insert l w fs), refl)
set_key_again null _ k l v w h = cc
set_key_again (obj fs) _ k l v w h = cc
set_key_again _ _ k l v w h = cc

pub find_key-set_key :
    (j j' : Value) (k l : String) (v : Value)
    → set_key j k v ≡ ok j'
    → find_key j' l ≡ (if str_eq k l then some v else find_key j l)
find_key-set_key null j' k l v h = ground arith
find_key-set_key (obj fs) j' k l v h = ground (arith, lookup-insert k l v fs)
find_key-set_key _ j' k l v h = cc

abbrev pub at_key : Value → String → Outcome Value
at_key (obj fs) k = or_throw (json_error missing_key) (lookup k fs)
at_key _ k = throws bad_type

pub at_key_found : (j : Value) (k : String) (v : Value) → find_key j k ≡ some v → at_key j k ≡ ok v
at_key_found (obj fs) k v h = rw h
at_key_found _ k v h = cc

abbrev pub is_null : Value → Bool
is_null null = true
is_null _ = false

pub is_null-set_key :
    (j j' : Value) (k : String) (v : Value) → set_key j k v ≡ ok j' → is_null j' ≡ false
is_null-set_key null j' k v h = ground arith
is_null-set_key (obj fs) j' k v h = ground arith
is_null-set_key _ j' k v h = cc
