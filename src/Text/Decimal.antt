-- ===== src/Text/Decimal.antt =====
-- `str(n)` and `int(s)` on the decimal digits of a number, as the JWT subject and the Redis keys use
-- them. Any other text that `int` would take (a sign, blanks, underscores) counts as refused.
use Prim.Native.Char.{Char, code}
use Prim.Native.String.{◌++◌ as str_append}
use Prim.Native.String.append
use rooti_server.Base.{
  ℕ, zero, suc, ◌+◌, ◌-◌, ◌*◌, ◌/◌, ◌%◌, ◌<◌, ◌≡◌, refl, ◌∙◌, ap, inl, inr, true, ◌&&◌, Option,
  none, some, String, arith, ltb, leb, if◌then◌else◌, Bool-cases,
}
use rooti_server.Text.{truthy}

digit_char : ℕ → Char
digit_char zero = "0"
digit_char (suc zero) = "1"
digit_char (suc (suc zero)) = "2"
digit_char (suc (suc (suc zero))) = "3"
digit_char (suc (suc (suc (suc zero)))) = "4"
digit_char (suc (suc (suc (suc (suc zero))))) = "5"
digit_char (suc (suc (suc (suc (suc (suc zero)))))) = "6"
digit_char (suc (suc (suc (suc (suc (suc (suc zero))))))) = "7"
digit_char (suc (suc (suc (suc (suc (suc (suc (suc zero)))))))) = "8"
digit_char _ = "9"

abbrev digit : ℕ → String
digit d = String.◌∷◌ (digit_char d) String.[]

-- A number has fewer digits than its successor, so `suc n` rounds are enough.
digits : ℕ → ℕ → String
digits zero n = String.[]
digits (suc fuel) n =
    let front = digits fuel (n / 10) in
    if ltb n 10 then digit n else str_append front (digit (n % 10))

-- `str(n)`
unfoldable pub str_of : ℕ → String
unfolding digits digit_char
str_of n = digits (suc n) n

value : ℕ → String → Option ℕ
value acc String.[] = some acc
value acc (String.◌∷◌ c s) =
    if leb 48 (code c) && leb (code c) 57 then value (acc * 10 + (code c - 48)) s else none

-- `int(s)`
unfoldable pub int_of : String → Option ℕ
unfolding value
int_of s = if truthy s then value 0 s else none

code-digit_char : (d : ℕ) → d < 10 → code (digit_char d) ≡ d + 48
unfolding digit_char
code-digit_char zero h = refl
code-digit_char (suc zero) h = refl
code-digit_char (suc (suc zero)) h = refl
code-digit_char (suc (suc (suc zero))) h = refl
code-digit_char (suc (suc (suc (suc zero)))) h = refl
code-digit_char (suc (suc (suc (suc (suc zero))))) h = refl
code-digit_char (suc (suc (suc (suc (suc (suc zero)))))) h = refl
code-digit_char (suc (suc (suc (suc (suc (suc (suc zero))))))) h = refl
code-digit_char (suc (suc (suc (suc (suc (suc (suc (suc zero)))))))) h = refl
code-digit_char (suc (suc (suc (suc (suc (suc (suc (suc (suc zero))))))))) h = refl
code-digit_char (suc (suc (suc (suc (suc (suc (suc (suc (suc (suc d)))))))))) h =
    absurd (omega arith)

value-digit : (acc d : ℕ) → d < 10 → value acc (digit d) ≡ some (acc * 10 + d)
unfolding value
value-digit acc d h = ground (arith, code-digit_char d h)

value-append :
    (acc : ℕ) (s : String) (d v : ℕ)
    → d < 10
    → value acc s ≡ some v
    → value acc (str_append s (digit d)) ≡ some (v * 10 + d)
unfolding value
value-append acc String.[] d v h e = rw append.nil (ground (arith, value-digit acc d h))
value-append acc (String.◌∷◌ c s) d v h e =
    let rest = value-append (acc * 10 + (code c - 48)) s d v h in
    rw append.cons (ground (arith, rest))

value-digits : (fuel n : ℕ) → n < fuel → value 0 (digits fuel n) ≡ some n
unfolding digits
value-digits zero n h = elim h [ ]
value-digits (suc fuel) n h = elim (Bool-cases (ltb n 10)) [
  | inl small ↦ rw small (value-digit 0 n (ground arith) ∙ ap some (omega arith))
  | inr large ↦ rw large (
      value-append 0 (digits fuel (n / 10)) (n % 10) (n / 10) (omega arith)
        (value-digits fuel (n / 10) (ground arith))
      ∙ ap some (omega arith))
]

truthy-append : (s : String) (d : ℕ) → truthy (str_append s (digit d)) ≡ true
truthy-append String.[] d = rw append.nil
truthy-append (String.◌∷◌ c s) d = rw append.cons

truthy-digits : (fuel n : ℕ) → n < fuel → truthy (digits fuel n) ≡ true
unfolding digits
truthy-digits zero n h = elim h [ ]
truthy-digits (suc fuel) n h = elim (Bool-cases (ltb n 10)) [
  | inl small ↦ rw small
  | inr large ↦ rw large (truthy-append (digits fuel (n / 10)) (n % 10))
]

-- Reading back a printed number gives the number.
pub int_of-str_of : (n : ℕ) → int_of (str_of n) ≡ some n
unfolding int_of str_of
int_of-str_of n = rw (truthy-digits (suc n) n (omega arith)) (value-digits (suc n) n (omega arith))

-- Two numbers that print alike are equal.
pub str_of-injective : (m n : ℕ) → str_of m ≡ str_of n → m ≡ n
str_of-injective m n e = cc (int_of-str_of m, int_of-str_of n, ap int_of e)
