-- ===== src/Boards/Escape.antt =====
-- `_sanitize` of app/services/board.py, which is Python's `html.escape`.
use Prim.Native.Char.{Char, code}
use Prim.Native.String.{◌++◌ as str_append}
use Prim.Native.String.append
use rooti_server.Base.{
  ℕ, ◌≡◌, refl, inl, inr, Bool, true, not, ◌||◌, ◌&&◌, ◌==◌, arith, String, if◌then◌else◌,
  Bool-cases,
}

-- `&`, `<`, `>`, `"` and `'` become entities.
unfoldable pub escape_char : Char → String
escape_char c =
    if code c == 38
    then "&amp;"
    else if code c == 60
    then "&lt;"
    else if code c == 62
    then "&gt;"
    else if code c == 34
    then "&quot;"
    else if code c == 39
    then "&#x27;"
    else String.◌∷◌ c String.[]

unfoldable pub sanitize : String → String
sanitize String.[] = String.[]
sanitize (String.◌∷◌ c s) = str_append (escape_char c) (sanitize s)

-- The text can open no tag and close no attribute value.
abbrev is_plain : ℕ → Bool
is_plain c = not (c == 60 || c == 62 || c == 34 || c == 39)

abbrev pub has_no_markup : String → Bool
has_no_markup String.[] = true
has_no_markup (String.◌∷◌ c s) = is_plain (code c) && has_no_markup s

append_no_markup :
    (s t : String)
    → has_no_markup s ≡ true
    → has_no_markup t ≡ true
    → has_no_markup (str_append s t) ≡ true
append_no_markup String.[] t a b = rw append.nil b
append_no_markup (String.◌∷◌ c s) t a b =
    let rest = append_no_markup s t in rw append.cons (ground (arith, rest))

escape_char_no_markup : (c : Char) → has_no_markup (escape_char c) ≡ true
unfolding escape_char
escape_char_no_markup c = elim (Bool-cases (code c == 38)) [
  | inl e ↦ rw e
  | inr amp ↦ elim (Bool-cases (code c == 60)) [
    | inl e ↦ rw (amp, e)
    | inr lower ↦ elim (Bool-cases (code c == 62)) [
      | inl e ↦ rw (amp, lower, e)
      | inr greater ↦ elim (Bool-cases (code c == 34)) [
        | inl e ↦ rw (amp, lower, greater, e)
        | inr quote ↦ elim (Bool-cases (code c == 39)) [
          | inl e ↦ rw (amp, lower, greater, quote, e)
          | inr tick ↦
              rw (amp, lower, greater, quote, tick) (ground (arith, lower, greater, quote, tick))
        ]
      ]
    ]
  ]
]

pub sanitize_no_markup : (s : String) → has_no_markup (sanitize s) ≡ true
unfolding sanitize
sanitize_no_markup String.[] = refl
sanitize_no_markup (String.◌∷◌ c s) =
    append_no_markup (escape_char c) (sanitize s) (escape_char_no_markup c) (sanitize_no_markup s)
