-- ===== src/MessageType/Tests.antt =====
-- The theorems on the message types at concrete codes.
use barbarossa.Common.{◌≡◌, refl, ◌↔◌, pos, some, none}
use barbarossa.MessageType.{call, to_int, from_int, print}
use barbarossa.MessageType.Codes.{from_int_iff}

call_from_int : (from_int (pos 10) ≡ some call) ↔ (pos 10 ≡ to_int call)
call_from_int = from_int_iff (pos 10) call

between : from_int (pos 7) ≡ none
unfolding from_int
between = refl

prints : (print (some call) ≡ "CALL") × (print none ≡ "UNKNOWN")
unfolding print
prints = (refl, refl)
