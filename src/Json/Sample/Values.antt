-- ===== src/Json/Sample/Values.antt =====
-- JSON values, and the texts that are written of them.
use Prim.Native.Nat.{◌/◌, ◌%◌}
use Prim.Native.String.{◌++◌ as text_append}
use barbarossa.Common.{
  Bool, true, false, ◌&&◌, str_eq, int_eq, ℕ, zero, suc, ltb, ◌==◌, String, ℤ, pos, negsuc,
  if◌then◌else◌,
}

mutual
  -- An object holds its members in the order in which they were first set.
  pub data Members : Type 0 where
    no_members : Members
    entry : String → Value → Members → Members

  pub data Elements : Type 0 where
    no_elements : Elements
    element : Value → Elements → Elements

  pub data Value : Type 0 where
    null : Value
    num : ℤ → Value
    str : String → Value
    arr : Elements → Value
    obj : Members → Value

abbrev digit : ℕ → String
digit n =
    if n == 0
    then "0"
    else if n == 1
    then "1"
    else if n == 2
    then "2"
    else if n == 3
    then "3"
    else if n == 4
    then "4"
    else if n == 5
    then "5"
    else if n == 6
    then "6"
    else if n == 7
    then "7"
    else if n == 8
    then "8"
    else "9"

-- The number in at most `rounds` digits.
abbrev decimal : ℕ → ℕ → String
decimal zero n = ""
decimal (suc rounds) n =
    let rest = decimal rounds (n / 10) in
    if ltb n 10 then digit n else text_append rest (digit (n % 10))

abbrev number : ℤ → String
number (pos n) = decimal 20 n
number (negsuc n) = text_append "-" (decimal 20 (suc n))

abbrev quoted : String → String
quoted s = text_append "\"" (text_append s "\"")

-- Strings are written without escapes.
abbrev mutual
  members_text : Members → String
  members_text no_members = ""
  members_text (entry k v no_members) = text_append (quoted k) (text_append ":" (text v))
  members_text (entry k v (entry l w ms)) =
      text_append (quoted k)
        (text_append ":" (text_append (text v) (text_append "," (members_text (entry l w ms)))))

  elements_text : Elements → String
  elements_text no_elements = ""
  elements_text (element v no_elements) = text v
  elements_text (element v (element w vs)) =
      text_append (text v) (text_append "," (elements_text (element w vs)))

  pub text : Value → String
  text null = "null"
  text (num n) = number n
  text (str s) = quoted s
  text (arr vs) = text_append "[" (text_append (elements_text vs) "]")
  text (obj ms) = text_append "{" (text_append (members_text ms) "}")

-- The values are compared with their members in order.
abbrev mutual
  members_same : Members → Members → Bool
  members_same no_members no_members = true
  members_same (entry k v ms) (entry l w ns) = str_eq k l && same_value v w && members_same ms ns
  members_same _ _ = false

  elements_same : Elements → Elements → Bool
  elements_same no_elements no_elements = true
  elements_same (element v vs) (element w ws) = same_value v w && elements_same vs ws
  elements_same _ _ = false

  pub same_value : Value → Value → Bool
  same_value null null = true
  same_value (num m) (num n) = int_eq m n
  same_value (str a) (str b) = str_eq a b
  same_value (arr vs) (arr ws) = elements_same vs ws
  same_value (obj ms) (obj ns) = members_same ms ns
  same_value _ _ = false
