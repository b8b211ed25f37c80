-- ===== src/Main/Catching.antt =====
-- src/main.cpp, the `catch` clauses.
use barbarossa.Common.{◌≡◌, refl, ◌↔◌, ◌⊎◌, true, false, arith, String}
use barbarossa.Errors.{Exception, no_transport_error}
use barbarossa.Errors.Hierarchy.{
  is_abort_error, is_timeout_error, is_network_error, is_protocol_error,
}
use barbarossa.Errors.Outcome.{ok, throws, terminates}
use barbarossa.Json.{JsonLib}
use barbarossa.Transport.{Transport}
use barbarossa.Session.{Session}
use barbarossa.Session.Join.{join_begin, join_end, run_posted}
use barbarossa.Session.Joining.{IsNew, join_without_transport}
use barbarossa.Main.{catch_clause, after_try}
use barbarossa.Main.Program.{discard}

-- `main` survives exactly the abort and network errors, derived classes included; a protocol error ends
-- the process.
pub after_try_iff :
    (e : Exception)
    → ((after_try (throws e) ≡ ok tt) ↔ ((is_abort_error e ≡ true) ⊎ (is_network_error e ≡ true)))
      × (is_protocol_error e ≡ true → after_try (throws e) ≡ terminates)
unfolding after_try catch_clause is_abort_error is_network_error is_timeout_error is_protocol_error
after_try_iff e = ((λ h. ground arith, λ h. ground arith), λ h. ground arith)

module _ ⦃J : JsonLib⦄ {T : Type 0} ⦃tr : Transport T⦄ where
  -- A first `Join` without a connected transport ends the process: its exception is no network error any
  -- more when it reaches `main`, although the clause for network errors is there.
  pub join_without_transport_terminates :
      (realm : String) (s : Session T)
      → IsNew s
      → (s.attached ≡ false) ⊎ (tr.is_connected s.transport ≡ false)
      → (after_try (discard (join_end (run_posted true (join_begin realm s).1).1)) ≡ terminates)
        × (after_try (throws no_transport_error) ≡ ok tt)
  unfolding after_try catch_clause is_abort_error is_network_error is_timeout_error
  join_without_transport_terminates realm s new h =
      let (a, e, b, c) = join_without_transport realm s new h in (rw e refl, refl)
