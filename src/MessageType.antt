-- ===== src/MessageType.antt =====
-- include/barbarossa/message_type.hpp, whose codes are those of `enum MessageTypes` in
-- include/barbarossa/protocol.hpp.
pub mod Codes
mod Tests
use barbarossa.Common.{ℕ, String, ℤ, pos, negsuc, Option, none, some, ◌==◌, if◌then◌else◌}

pub data MessageType : Type 0 where
  hello welcome abort ping pong error call result publish published : MessageType

-- The number of an enumerator.
abbrev pub to_ℕ : MessageType → ℕ
to_ℕ hello = 1
to_ℕ welcome = 2
to_ℕ abort = 3
to_ℕ ping = 4
to_ℕ pong = 5
to_ℕ error = 9
to_ℕ call = 10
to_ℕ result = 11
to_ℕ publish = 20
to_ℕ published = 21

abbrev pub to_int : MessageType → ℤ
to_int t = pos (to_ℕ t)

-- `static_cast<MessageType>(n)`, as a `switch` sees it: `none` is a value that no case names.
unfoldable pub from_int : ℤ → Option MessageType
from_int (negsuc n) = none
from_int (pos n) =
    if n == 1
    then some hello
    else if n == 2
    then some welcome
    else if n == 3
    then some abort
    else if n == 4
    then some ping
    else if n == 5
    then some pong
    else if n == 9
    then some error
    else if n == 10
    then some call
    else if n == 11
    then some result
    else if n == 20
    then some publish
    else if n == 21
    then some published
    else none

-- `operator<<`.
unfoldable pub print : Option MessageType → String
print (some hello) = "HELLO"
print (some welcome) = "WELCOME"
print (some abort) = "ABORT"
print (some ping) = "PING"
print (some pong) = "PONG"
print (some error) = "ERROR"
print (some call) = "CALL"
print (some result) = "RESULT"
print (some publish) = "PUBLISH"
print (some published) = "PUBLISHED"
print none = "UNKNOWN"
