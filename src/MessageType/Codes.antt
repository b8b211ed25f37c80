-- ===== src/MessageType/Codes.antt =====
-- The codes and the names of the message types.
use barbarossa.Common.{
  ◌≡◌, refl, sym, ◌∙◌, ap, String, str_eq, if◌then◌else◌, ℤ, IsInt32, Option, none, some, ◌↔◌,
  arith,
}
use barbarossa.MessageType.{
  MessageType, hello, welcome, abort, ping, pong, error, call, result, publish, published, to_int,
  from_int, print,
}

pub from_int-to_int : (t : MessageType) → from_int (to_int t) ≡ some t
unfolding from_int
from_int-to_int hello = refl
from_int-to_int _ = refl

-- The cast finds an enumerator exactly for the codes of the enumerators, each of which is a 32-bit
-- integer, and then finds the one with that code.
pub from_int_iff : (n : ℤ) (t : MessageType) → (from_int n ≡ some t) ↔ (n ≡ to_int t)
unfolding from_int
from_int_iff n t = (ground arith, ground arith)

pub to_int-IsInt32 : (t : MessageType) → IsInt32 (to_int t)
to_int-IsInt32 hello = omega arith
to_int-IsInt32 _ = omega arith

read : String → Option MessageType
read s =
    if str_eq s "HELLO"
    then some hello
    else if str_eq s "WELCOME"
    then some welcome
    else if str_eq s "ABORT"
    then some abort
    else if str_eq s "PING"
    then some ping
    else if str_eq s "PONG"
    then some pong
    else if str_eq s "ERROR"
    then some error
    else if str_eq s "CALL"
    then some call
    else if str_eq s "RESULT"
    then some result
    else if str_eq s "PUBLISH"
    then some publish
    else if str_eq s "PUBLISHED"
    then some published
    else none

read-print : (t : Option MessageType) → read (print t) ≡ t
unfolding read print
read-print none = refl
read-print (some hello) = refl
read-print (some _) = refl

-- Two values that print alike are alike, the ones printed as UNKNOWN included.
pub print_injective : (s t : Option MessageType) → print s ≡ print t → s ≡ t
print_injective s t h = sym (read-print s) ∙ ap read h ∙ read-print t
