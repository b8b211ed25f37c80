-- ===== src/Errors/Hierarchy.antt =====
-- The class hierarchy of include/barbarossa/errors.hpp: what a `catch` clause takes, what a copy of
-- an exception through a base class keeps, and the texts of `what`.
use Prim.Native.String.{◌++◌}
use barbarossa.Common.{◌≡◌, refl, String, Bool, true, false, ◌⊎◌, arith}
use barbarossa.Errors.ErrorMessages
use barbarossa.Errors.{
  Exception, std_exception, network_error, protocol_error, abort_error, no_session_error,
  no_transport_error, timeout_error, logic_error, out_of_range,
}

-- `catch (const AbortError&)`
unfoldable pub is_abort_error : Exception → Bool
is_abort_error (abort_error m) = true
is_abort_error _ = false

-- `catch (const TimeoutError&)`
unfoldable pub is_timeout_error : Exception → Bool
is_timeout_error timeout_error = true
is_timeout_error _ = false

-- `catch (const NetworkError&)`, which takes the classes derived from it too.
unfoldable pub is_network_error : Exception → Bool
is_network_error (network_error m) = true
is_network_error no_transport_error = true
is_network_error timeout_error = true
is_network_error _ = false

-- `ProtocolError` and `NoSessionError`.
unfoldable pub is_protocol_error : Exception → Bool
is_protocol_error (protocol_error m) = true
is_protocol_error no_session_error = true
is_protocol_error _ = false

-- `std::make_exception_ptr(e)` where `e` is declared a `std::exception&`: the copy is of that class.
unfoldable pub copy_as_std_exception : Exception → Exception
copy_as_std_exception e = std_exception

-- `std::make_exception_ptr(e)` where `e` is declared a `const NetworkError&`.
unfoldable pub copy_as_network_error : Exception → Exception
copy_as_network_error no_transport_error = network_error ErrorMessages.session_not_attached
copy_as_network_error timeout_error = network_error "timeout"
copy_as_network_error e = e

-- A `const char*`: its text, and whether the buffer that it points to still exists.
pub data CString : Type 0 where
  live dangling : String → CString

-- `what()`. The three classes of the program return `c_str()` of a temporary that is destroyed at the
-- end of the `return`. The texts of the other classes are the library's, `texts`.
unfoldable pub what : (Exception → String) → Exception → CString
what texts (network_error m) = dangling ("network error: " ++ m)
what texts (protocol_error m) = dangling ("protocol error: " ++ m)
what texts (abort_error m) = dangling ("network error: " ++ m)
what texts no_session_error = dangling ("protocol error: " ++ ErrorMessages.session_not_joined)
what texts no_transport_error = dangling ("network error: " ++ ErrorMessages.session_not_attached)
what texts timeout_error = dangling ("network error: " ++ "timeout")
what texts (logic_error m) = live m
what texts (out_of_range m) = live m
what texts e = live (texts e)

-- The copy of a network error is still caught as a network error and has the same text, but it is no
-- timeout error any more.
pub copy_as_network_error_lem :
    (texts : Exception → String) (e : Exception)
    → is_network_error e ≡ true
    → (is_network_error (copy_as_network_error e) ≡ true)
      × (what texts (copy_as_network_error e) ≡ what texts e)
      × (is_timeout_error (copy_as_network_error e) ≡ false)
unfolding is_network_error copy_as_network_error is_timeout_error what
copy_as_network_error_lem texts (network_error m) h = (refl, refl, refl)
copy_as_network_error_lem texts no_transport_error h = (refl, refl, refl)
copy_as_network_error_lem texts timeout_error h = (refl, refl, refl)
copy_as_network_error_lem texts e h = cc

-- `what` of an abort, network or protocol error, derived classes included, is a dangling pointer; an
-- abort error and a network error with one message have one text.
pub what_dangles :
    (texts : Exception → String) (e : Exception)
    → (is_abort_error e ≡ true) ⊎ (is_network_error e ≡ true) ⊎ (is_protocol_error e ≡ true)
    → ((text : String) × (what texts e ≡ dangling text))
      × ((m : String) → what texts (abort_error m) ≡ what texts (network_error m))
unfolding is_abort_error is_network_error is_protocol_error what
what_dangles texts (network_error m) h = ((_, refl), λ m. refl)
what_dangles texts (protocol_error m) h = ((_, refl), λ m. refl)
what_dangles texts (abort_error m) h = ((_, refl), λ m. refl)
what_dangles texts no_session_error h = ((_, refl), λ m. refl)
what_dangles texts no_transport_error h = ((_, refl), λ m. refl)
what_dangles texts timeout_error h = ((_, refl), λ m. refl)
what_dangles texts _ h = absurd (ground arith)
