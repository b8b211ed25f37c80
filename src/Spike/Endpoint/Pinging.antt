-- ===== src/Spike/Endpoint/Pinging.antt =====
-- How often the loop of `Handler` sends a ping.
use barbarossa.Common.{
  ℕ, zero, suc, ◌+◌, ◌≡◌, refl, inl, inr, ◌<◌, ◌==◌, Bool-cases, String, false, some, List, [], ◌∷◌,
  ◌++◌, arith,
}
use Prim.Native.Nat.{◌/◌, ◌%◌}
use barbarossa.Errors.Outcome.{ok}
use barbarossa.Json.{JsonLib}
use barbarossa.Protocol.Ping
use barbarossa.Spike.Endpoint.{Endpoint, Command, send, registered, sleeps, round}

module _ ⦃J : JsonLib⦄ where
  open J use {Json, null, array, dump}

  -- The endpoint after a number of rounds of `Handler`.
  unfoldable pub rounds : ℕ → Endpoint → Endpoint
  rounds zero e = e
  rounds (suc n) e = (round (rounds n e)).1

  -- The text that a ping is sent as.
  abbrev pub IsPingText : String → Type 0
  IsPingText text = dump (array (Ping.written Ping.create)) ≡ some text

  count_round :
      (e : Endpoint)
      → e.state ≡ registered
      → e.timeout < 30
      → round e ≡ (ok sleeps, record e { timeout = e.timeout + 1 })
  unfolding round
  count_round e s t = ground arith

  ping_round :
      (text : String) (e : Endpoint)
      → IsPingText text
      → e.state ≡ registered
      → e.timeout ≡ 30
      → e.send_fails text ≡ false
      → round e ≡ (ok sleeps, record e { timeout = 0; commands = e.commands ++ send text ∷ [] })
  unfolding round
  ping_round text e p s t f = rw (s, t, round) (rw (Ping.to_json_lem Ping.create, p) (rw f refl))

abbrev pub grown : String → ℕ → List Command → List Command
grown text zero cs = cs
grown text (suc k) cs = grown text k cs ++ send text ∷ []

-- The endpoint `e` after `n` rounds that began at `e₀`.
record Pinged (text : String) (n : ℕ) (e₀ e : Endpoint) : Type 0 where
  stays : e.state ≡ registered
  counts : e.timeout ≡ n % 31
  sends : e.commands ≡ grown text (n / 31) e₀.commands
  same_client : e.send_fails ≡ e₀.send_fails

module _ ⦃J : JsonLib⦄ (text : String) (e₀ : Endpoint) (p : IsPingText text)
    (f : e₀.send_fails text ≡ false) where
  round-Pinged : (n : ℕ) (e : Endpoint) → Pinged text n e₀ e → Pinged text (suc n) e₀ (round e).1
  round-Pinged n e h = elim (Bool-cases (n % 31 == 30)) [
    | inl full ↦
        let k : suc n / 31 ≡ suc (n / 31) = ground arith in
        rw (ping_round text e p h.stays (ground arith) (ground arith)) (record {
          stays = h.stays;
          counts = ground arith;
          sends = rw (k, h.sends) refl;
          same_client = h.same_client;
        })
    | inr early ↦
        let k : suc n / 31 ≡ n / 31 = ground arith in
        rw (count_round e h.stays (ground arith)) (record {
          stays = h.stays;
          counts = ground arith;
          sends = rw (k, h.sends) refl;
          same_client = h.same_client;
        })
  ]

  rounds-Pinged : (n : ℕ) → e₀.state ≡ registered → e₀.timeout ≡ 0 → Pinged text n e₀ (rounds n e₀)
  unfolding rounds
  rounds-Pinged zero s t = record {
    stays = s;
    counts = omega arith;
    sends = refl;
    same_client = refl;
  }
  rounds-Pinged (suc n) s t = round-Pinged n (rounds n e₀) (rounds-Pinged n s t)

  -- Once registered, with the counter at 0 and a client that takes the ping, `Handler` stays registered
  -- and sends one ping in every 31 rounds: after `n` rounds the quotient of `n` by 31 many, and nothing
  -- else.
  pub rounds_lem :
      (n : ℕ)
      → e₀.state ≡ registered
      → e₀.timeout ≡ 0
      → ((rounds n e₀).commands ≡ grown text (n / 31) e₀.commands)
        × ((rounds n e₀).timeout ≡ n % 31)
        × ((rounds n e₀).state ≡ registered)
  rounds_lem n s t = let h = rounds-Pinged n s t in (h.sends, h.counts, h.stays)
