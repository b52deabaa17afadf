-- ===== src/Cache/Fields.antt =====
-- JSON objects as the cached models write and read them: members in order, and the fields that
-- Pydantic looks up by their name.
use rooti_server.Base.{ℕ, Bool, Option, none, some, String, str_eq, if◌then◌else◌}

mutual
  pub data Value : Type 0 where
    null : Value
    flag : Bool → Value
    number : ℕ → Value
    text : String → Value
    objects : Objects → Value

  pub data Members : Type 0 where
    no_member : Members
    member : String → Value → Members → Members

  pub data Objects : Type 0 where
    no_object : Objects
    object : Members → Objects → Objects

abbrev pub field : String → Members → Option Value
field name no_member = none
field name (member n v rest) =
    let later = field name rest in if str_eq n name then some v else later

abbrev pub as_number : Option Value → Option ℕ
as_number (some (number n)) = some n
as_number _ = none

abbrev pub as_text : Option Value → Option String
as_text (some (text s)) = some s
as_text _ = none

abbrev pub as_flag : Option Value → Option Bool
as_flag (some (flag b)) = some b
as_flag _ = none

-- A field with the default None; `none` outside is a value of another type.
abbrev pub as_optional_text : Option Value → Option (Option String)
as_optional_text none = some none
as_optional_text (some null) = some none
as_optional_text (some (text s)) = some (some s)
as_optional_text (some other) = none

abbrev pub as_optional_number : Option Value → Option (Option ℕ)
as_optional_number none = some none
as_optional_number (some null) = some none
as_optional_number (some (number n)) = some (some n)
as_optional_number (some other) = none

abbrev pub optional_text : Option String → Value
optional_text none = null
optional_text (some s) = text s

abbrev pub optional_number : Option ℕ → Value
optional_number none = null
optional_number (some n) = number n

infixl 5 ◌>>=◌
abbrev pub ◌>>=◌ : {A B : Type 0} → Option A → (A → Option B) → Option B
none >>= k = none
some a >>= k = k a
