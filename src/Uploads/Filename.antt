-- ===== src/Uploads/Filename.antt =====
-- What a cleaned file name is, and that cleaning leaves an accepted name alone but for its ends.
use rooti_server.Base.{
  ℕ, ◌≤◌, ◌<◌, ◌≡◌, ◌≢◌, refl, sym, ap, ◌∙◌, inl, inr, true, false, not, ◌||◌, Option, none, some,
  arith, String, Bool-cases,
}
use rooti_server.Text.{truthy, str_take, str_length, str_length-str_take-le}
use rooti_server.Text.Strip.{any_char-strip, any_char-str_take}
use rooti_server.Uploads.{is_bad, has_bad, replace_bad, only_dots, cleaned, sanitize_filename}

replace_bad-has_bad : (s : String) → has_bad (replace_bad s) ≡ false
unfolding replace_bad
replace_bad-has_bad String.[] = refl
replace_bad-has_bad (String.◌∷◌ c s) = elim (Bool-cases (is_bad c)) [
  | inl e ↦ rw e (replace_bad-has_bad s)
  | inr e ↦ rw e (rw e (replace_bad-has_bad s))
]

cleaned-has_bad : (name : String) → has_bad (cleaned name) ≡ false
unfolding cleaned
cleaned-has_bad name = any_char-strip is_bad (replace_bad name) (replace_bad-has_bad name)

-- A text that is cut to less than the limit was not cut.
short_take : (n : ℕ) (s : String) → str_length (str_take n s) < n → str_take n s ≡ s
short_take ℕ.zero s h = absurd (omega arith)
short_take (ℕ.suc n) String.[] h = refl
short_take (ℕ.suc n) (String.◌∷◌ c s) h = ap (String.◌∷◌ c) (short_take n s (omega arith))

take-ne-dots :
    (s t : String)
    → only_dots s ≡ false
    → only_dots t ≡ true
    → str_length t < 255
    → str_take 255 s ≢ t
take-ne-dots s t some_other dots short e =
    let uncut : str_take 255 s ≡ s = short_take 255 s (rw e short) in
    let same : s ≡ t = sym uncut ∙ e in cc (ap only_dots same)

truthy-take : (s : String) → truthy s ≡ true → truthy (str_take 255 s) ≡ true
truthy-take String.[] h = cc
truthy-take (String.◌∷◌ c s) h = refl

abbrev pub IsSafe : String → Type 0
IsSafe s = (truthy s ≡ true) × (str_length s ≤ 255) × (has_bad s ≡ false) × (s ≢ ".") × (s ≢ "..")

upload-IsSafe : IsSafe "upload"
upload-IsSafe = (refl, omega arith, refl, λ e. cc (ap only_dots e), λ e. cc (ap only_dots e))

-- A cleaned name is not empty, has at most 255 characters, no control character and no separator,
-- and is neither "." nor "..".
pub sanitize_filename-IsSafe : (name : Option String) → IsSafe (sanitize_filename name)
unfolding sanitize_filename
sanitize_filename-IsSafe none = upload-IsSafe
sanitize_filename-IsSafe (some name) = elim (Bool-cases (truthy name)) [
  | inr blank ↦ rw blank upload-IsSafe
  | inl given ↦ elim (Bool-cases (not (truthy (cleaned name)) || only_dots (cleaned name))) [
    | inl dots ↦ rw (given, dots) upload-IsSafe
    | inr proper ↦
        let text : truthy (cleaned name) ≡ true = ground arith in
        let some_other : only_dots (cleaned name) ≡ false = ground arith in
        rw (given, proper)
          (
            truthy-take (cleaned name) text,
            str_length-str_take-le 255 (cleaned name),
            any_char-str_take is_bad 255 (cleaned name) (cleaned-has_bad name),
            take-ne-dots (cleaned name) "." some_other refl (omega arith),
            take-ne-dots (cleaned name) ".." some_other refl (omega arith),
          )
  ]
]
