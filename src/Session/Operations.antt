-- ===== src/Session/Operations.antt =====
-- session.ipp, `RegisterOperation`: the map of the operations.
use barbarossa.Common.{◌≡◌, refl, String, str_eq, eq_iff, some, List, [], ◌∷◌, if◌then◌else◌, arith}
use barbarossa.Json.{JsonLib}
use barbarossa.Session.{Session, Operation, insert, lookup, register_operation}

module _ ⦃J : JsonLib⦄ where
  pub lookup-insert :
      (k l : String) (f : Operation) (m : List (String × Operation))
      → lookup l (insert k f m) ≡ (if str_eq k l then some f else lookup l m)
  unfolding lookup insert
  lookup-insert k l f [] = refl
  lookup-insert k l f ((j, g) ∷ m) =
      ground (arith, eq_iff k l, eq_iff j k, eq_iff j l, lookup-insert k l f m)

  -- After an operation is registered, its name finds it, a later registration of the name replaces it, and
  -- every other name finds what it found before.
  pub lookup-register_operation :
      {T : Type 0} (k l : String) (f g : Operation) (s : Session T)
      → let s' = (register_operation k f s).1 in
        (lookup l s'.operations ≡ (if str_eq k l then some f else lookup l s.operations))
        × (lookup l ((register_operation k g s').1).operations
            ≡ lookup l ((register_operation k g s).1).operations)
  unfolding register_operation
  lookup-register_operation k l f g s =
      (lookup-insert k l f s.operations, simp lookup-insert (ground arith))
