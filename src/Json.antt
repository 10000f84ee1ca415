-- ===== src/Json.antt =====
-- packages/protocol/src/types.ts and the small accessors on JSON values that every package of the
-- verifier declares again. -0 is read as 0, which no operation of the program tells from it.
use tesserra.Prelude.{
  ℕ, ◌*◌, ◌-◌, ◌^◌, Bool, true, false, ◌&&◌, Option, none, some, List, [], ◌∷◌, leb, ◌==◌,
  if◌then◌else◌, Text, codes, text_eq, String,
}
use tesserra.Prelude.Int.{ℤ, pos, leb_ℤ, eqb_ℤ, pos_part, neg_part}

-- A JavaScript number. `fraction negative n k` is the finite value n / 2 ^ k, which is no integer.
pub data Number : Type 0 where
  int : ℤ → Number
  fraction : Bool → ℕ → ℕ → Number
  infinite : Bool → Number
  nan : Number

mutual
  pub data Json : Type 0 where
    null : Json
    boolean : Bool → Json
    number : Number → Json
    string : Text → Json
    array : Items → Json
    object : Members → Json

  pub data Items : Type 0 where
    nil : Items
    cons : Json → Items → Items

  pub data Members : Type 0 where
    end : Members
    entry : Text → Json → Members → Members

-- ArtifactBase, JsonObject: an object, by its own members.
abbrev pub Artifact : Type 0
Artifact = Members

abbrev pub items : Items → List Json
items nil = []
items (cons v vs) = v ∷ items vs

abbrev pub members : Members → List (Text × Json)
members end = []
members (entry k v ms) = (k, v) ∷ members ms

abbrev pub of_items : List Json → Items
of_items [] = nil
of_items (v ∷ vs) = cons v (of_items vs)

-- value[key], `none` for undefined
unfoldable pub member_text : Text → Members → Option Json
member_text key end = none
member_text key (entry k v ms) = if text_eq k key then some v else member_text key ms

-- value.key, for a name that the source spells
abbrev pub member : String → Members → Option Json
member key = member_text (codes key)

-- object(value), asObject(value)
abbrev pub as_object : Option Json → Option Members
as_object (some (object ms)) = some ms
as_object _ = none

-- array(value)
abbrev pub as_array : Option Json → Option (List Json)
as_array (some (array vs)) = some (items vs)
as_array _ = none

-- string(value)
abbrev pub as_string : Option Json → Option Text
as_string (some (string s)) = some s
as_string _ = none

abbrev pub max_safe : ℕ
max_safe = 2 ^ 53 - 1

abbrev pub is_safe : ℤ → Bool
is_safe z = leb (pos_part z) max_safe && leb (neg_part z) max_safe

-- integer(value)
unfoldable pub as_integer : Option Json → Option ℤ
as_integer (some (number (int z))) = if is_safe z then some z else none
as_integer _ = none

abbrev pub is_some {ℓ} : {A : Type ℓ} → Option A → Bool
is_some none = false
is_some (some a) = true

abbrev pub is_array : Option Json → Bool
is_array v = is_some (as_array v)

abbrev pub is_string : Option Json → Bool
is_string v = is_some (as_string v)

-- integer(value) && value >= low && value <= high
abbrev pub integer_within : ℕ → ℕ → Option Json → Bool
integer_within low high v = elim (as_integer v) [
  | none ↦ false
  | some z ↦ leb_ℤ (pos low) z && leb_ℤ z (pos high)
]

-- integer(value) && value >= low
abbrev pub integer_from : ℕ → Option Json → Bool
integer_from low v = elim (as_integer v) [ none ↦ false | some z ↦ leb_ℤ (pos low) z ]

-- value === text
abbrev pub is_text : Text → Option Json → Bool
is_text t (some (string s)) = text_eq s t
is_text t _ = false

-- value === 'literal'
abbrev pub is_literal : String → Option Json → Bool
is_literal s v = is_text (codes s) v

-- left === right on numbers
unfoldable pub number_eq : Number → Number → Bool
number_eq (int a) (int b) = eqb_ℤ a b
number_eq (fraction true n k) (fraction true m j) = n * 2 ^ j == m * 2 ^ k
number_eq (fraction false n k) (fraction false m j) = n * 2 ^ j == m * 2 ^ k
number_eq (infinite true) (infinite true) = true
number_eq (infinite false) (infinite false) = true
number_eq _ _ = false

-- left === right; two containers are two objects, which `===` tells apart.
unfoldable pub strict_eq : Option Json → Option Json → Bool
strict_eq none none = true
strict_eq (some null) (some null) = true
strict_eq (some (boolean true)) (some (boolean true)) = true
strict_eq (some (boolean false)) (some (boolean false)) = true
strict_eq (some (number a)) (some (number b)) = number_eq a b
strict_eq (some (string s)) (some (string t)) = text_eq s t
strict_eq _ _ = false
