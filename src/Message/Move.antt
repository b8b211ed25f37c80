-- ===== src/Message/Move.antt =====
-- Moving messages: message.ipp, the move constructor and the move assignment.
use barbarossa.Common.{ℕ, ◌≡◌, ◌≢◌, List, arith}
use barbarossa.Json.{JsonLib}
use barbarossa.Message.{Message, move_construct, move_assign}

module _ ⦃J : JsonLib⦄ where
  open J use {Json}

  -- After a move assignment the target is what the source was, also where the two are one object, and
  -- an object that is neither is as before; a move construction gives that value too.
  pub move_assign_lem :
      (rest : List Json) (this other : ℕ) (store : ℕ → Message)
      → (move_assign rest this other store this ≡ store other)
        × ((at : ℕ) → at ≢ this → at ≢ other → move_assign rest this other store at ≡ store at)
        × ((move_construct rest (store other)).0 ≡ move_assign rest this other store this)
  unfolding move_assign move_construct
  move_assign_lem rest this other store = (ground arith, λ at p q. ground arith, ground arith)
