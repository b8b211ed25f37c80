-- ===== src/Session/Contract.antt =====
-- What a session promises to the code that uses it: how it stands with its router, its id, and what the
-- futures of `Join` and `Listen` give, with the moves that change them.
use barbarossa.Common.{ℕ, ◌≡◌, ◌≢◌, refl, Bool, true, arith}
use barbarossa.Errors.{Exception}
use barbarossa.Promise.{Shared, not_ready, value, failure}

-- Not asked to join, asked and not welcomed, or welcomed.
pub data Phase : Type 0 where
  idle asked begun : Phase

pub record View : Type 0 where
  pub phase : Phase
  pub id : ℕ
  pub answer : Shared ℕ
  pub ending : Shared Bool

-- What is given first stays.
abbrev pub first : {A : Type 0} → Shared A → Shared A → Shared A
first new not_ready = new
first new old = old

-- The session asks to join; it is welcomed with an id or with a text that holds none; `Join` fails; it
-- leaves; or `Listen` fails.
pub data Move (v : View) : View → Type 0 where
  asks : v.phase ≢ begun → Move v (record v { phase = asked })
  welcomes :
      (id : ℕ)
      → v.phase ≡ asked
      → Move v (record v { phase = begun; id = id; answer = first (value id) v.answer })
  garbles : v.phase ≡ asked → Move v (record v { phase = begun })
  refuses : (e : Exception) → Move v (record v { answer = first (failure e) v.answer })
  leaves : Move v (record v { ending = first (value true) v.ending })
  breaks : (e : Exception) → Move v (record v { ending = first (failure e) v.ending })

pub data Moves (v : View) : View → Type 0 where
  still : Moves v v
  after : {w x : View} → Moves v w → Move w x → Moves v x

-- An answer to `Join` is the id, and it is given to a session that was welcomed.
unfoldable pub Answered : View → Type 0
Answered v = (n : ℕ) → v.answer ≡ value n → (v.phase ≡ begun) × (v.id ≡ n)

first-value : {a : Shared ℕ} (e : Exception) {n : ℕ} → first (failure e) a ≡ value n → a ≡ value n
first-value e h = ground arith

Move-Answered : {v w : View} → Move v w → Answered v → Answered w
unfolding Answered
Move-Answered (asks p) h n q = elim (p (h n q).0) [ ]
Move-Answered (welcomes id p) h n q = ground (arith, h n)
Move-Answered (garbles p) h n q = (refl, (h n q).1)
Move-Answered (refuses e) h n q = h n (first-value e q)
Move-Answered leaves h n q = h n q
Move-Answered (breaks e) h n q = h n q

pub Moves-Answered : {v w : View} → Moves v w → Answered v → Answered w
Moves-Answered still h = h
Moves-Answered (after ms m) h = Move-Answered m (Moves-Answered ms h)
