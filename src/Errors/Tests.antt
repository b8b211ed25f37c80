-- ===== src/Errors/Tests.antt =====
-- Instances of the theorems on exceptions.
use barbarossa.Common.{◌≡◌, refl, String, true, false, inl}
use barbarossa.Errors.{Exception, timeout_error, abort_error, network_error}
use barbarossa.Errors.Hierarchy.{
  dangling, is_network_error, is_abort_error, is_timeout_error, copy_as_network_error, what,
  copy_as_network_error_lem, what_dangles,
}

abbrev no_texts : Exception → String
no_texts e = ""

copied_timeout :
    (is_network_error (copy_as_network_error timeout_error) ≡ true)
    × (what no_texts (copy_as_network_error timeout_error) ≡ what no_texts timeout_error)
    × (is_timeout_error (copy_as_network_error timeout_error) ≡ false)
unfolding is_network_error
copied_timeout = copy_as_network_error_lem no_texts timeout_error refl

abort_text :
    ((text : String) × (what no_texts (abort_error "ERR_NO_SUCH_REALM") ≡ dangling text))
    × ((m : String) → what no_texts (abort_error m) ≡ what no_texts (network_error m))
unfolding is_abort_error
abort_text = what_dangles no_texts (abort_error "ERR_NO_SUCH_REALM") (inl refl)
