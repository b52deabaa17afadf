-- ===== src/Text.antt =====
-- Python text: truth of a string, `strip`, and the optional strings of requests.
pub mod Decimal
pub mod Strip
use Prim.Native.Char.{code}
use rooti_server.Base.{
  ℕ, ◌≤◌, arith, Bool, true, false, ◌&&◌, ◌||◌, Option, none, some, String, leb, ◌==◌,
  if◌then◌else◌,
}

-- `bool(s)`
abbrev pub truthy : String → Bool
truthy String.[] = false
truthy (String.◌∷◌ c s) = true

-- `bool(s)` of `str | None`
abbrev pub opt_truthy : Option String → Bool
opt_truthy none = false
opt_truthy (some s) = truthy s

-- `str.isspace` of one code point
is_space : ℕ → Bool
is_space c =
    leb 9 c && leb c 13
    || leb 28 c && leb c 32
    || c == 0x85
    || c == 0xa0
    || c == 0x1680
    || leb 0x2000 c && leb c 0x200a
    || c == 0x2028
    || c == 0x2029
    || c == 0x202f
    || c == 0x205f
    || c == 0x3000

lstrip : String → String
lstrip String.[] = String.[]
lstrip (String.◌∷◌ c s) = let rest = lstrip s in if is_space (code c) then rest else String.◌∷◌ c s

rstrip : String → String
rstrip String.[] = String.[]
rstrip (String.◌∷◌ c s) =
    let rest = rstrip s in
    if is_space (code c) && negated (truthy rest) then String.[] else String.◌∷◌ c rest
  where
    negated : Bool → Bool
    negated true = false
    negated false = true

-- `s.strip()`
unfoldable pub strip : String → String
unfolding lstrip rstrip is_space
strip s = rstrip (lstrip s)

abbrev pub str_length : String → ℕ
str_length String.[] = 0
str_length (String.◌∷◌ c s) = ℕ.suc (str_length s)

-- `s[:n]`
abbrev pub str_take : ℕ → String → String
str_take ℕ.zero s = String.[]
str_take (ℕ.suc n) String.[] = String.[]
str_take (ℕ.suc n) (String.◌∷◌ c s) = String.◌∷◌ c (str_take n s)

pub str_length-str_take-le : (n : ℕ) (s : String) → str_length (str_take n s) ≤ n
str_length-str_take-le ℕ.zero s = omega arith
str_length-str_take-le (ℕ.suc n) String.[] = omega arith
str_length-str_take-le (ℕ.suc n) (String.◌∷◌ c s) = omega (arith, str_length-str_take-le n s)
