-- ===== src/Text/Strip.antt =====
-- What `strip` keeps: every character of the result is one of the text.
use Prim.Native.Char.{Char}
use rooti_server.Base.{ℕ, ◌≡◌, refl, Bool, false, ◌||◌, arith, String}
use rooti_server.Text.{lstrip, rstrip, strip, str_take}

module _ (p : Char → Bool) where
  -- Some character passes the test.
  abbrev pub any_char : String → Bool
  any_char String.[] = false
  any_char (String.◌∷◌ c s) = p c || any_char s

  any_char-lstrip : (s : String) → any_char s ≡ false → any_char (lstrip s) ≡ false
  unfolding lstrip
  any_char-lstrip String.[] h = refl
  any_char-lstrip (String.◌∷◌ c s) h = ground (arith, any_char-lstrip s)

  any_char-rstrip : (s : String) → any_char s ≡ false → any_char (rstrip s) ≡ false
  unfolding rstrip
  any_char-rstrip String.[] h = refl
  any_char-rstrip (String.◌∷◌ c s) h = ground (arith, any_char-rstrip s)

  pub any_char-strip : (s : String) → any_char s ≡ false → any_char (strip s) ≡ false
  unfolding strip
  any_char-strip s h = any_char-rstrip (lstrip s) (any_char-lstrip s h)

  pub any_char-str_take :
      (n : ℕ) (s : String) → any_char s ≡ false → any_char (str_take n s) ≡ false
  any_char-str_take ℕ.zero s h = refl
  any_char-str_take (ℕ.suc n) String.[] h = refl
  any_char-str_take (ℕ.suc n) (String.◌∷◌ c s) h = ground (arith, any_char-str_take n s)
