-- ===== src/Main/Greeting.antt =====
-- src/main.cpp, the operation `say_hello`.
use barbarossa.Common.{◌≡◌, String, none, some}
use barbarossa.Errors.Outcome.{ok, throws}
use barbarossa.Json.{JsonLib, bad_type}
use barbarossa.Main.{greeting, say_hello}

module _ ⦃J : JsonLib⦄ where
  open J use {
    Json, of_string, get_string, find_key, find_key-set_key, set_key, set_key-object, object,
  }

  says :
      (text : String)
      → (r : Json) × (set_key object "say_hello" (of_string text) ≡ ok r)
        × (find_key r "say_hello" ≡ some (of_string text))
  says text =
      let (r, e) = set_key-object "say_hello" (of_string text) in
      (r, e, find_key-set_key object r "say_hello" "say_hello" (of_string text) e)

  -- `say_hello` answers with an object whose `say_hello` greets the name that the arguments have, or the
  -- world where they have none; a name that is no string is a type error.
  pub say_hello_lem :
      (arguments : Json)
      → (find_key arguments "name" ≡ none
          → (r : Json) × (say_hello arguments ≡ ok r)
            × (find_key r "say_hello" ≡ some (of_string "Hello World!")))
        × ((v : Json) (name : String)
            → find_key arguments "name" ≡ some v
            → get_string v ≡ some name
            → (r : Json) × (say_hello arguments ≡ ok r)
              × (find_key r "say_hello" ≡ some (of_string (greeting name))))
        × ((v : Json)
            → find_key arguments "name" ≡ some v
            → get_string v ≡ none
            → say_hello arguments ≡ throws bad_type)
  unfolding say_hello
  say_hello_lem arguments = (
    λ e. let (r, p, q) = says "Hello World!" in (r, rw e p, q),
    λ v name e g. let (r, p, q) = says (greeting name) in (r, rw (e, g) p, q),
    λ v e g. rw (e, g),
  )
