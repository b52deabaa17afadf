-- ===== src/Crypto/Sample.antt =====
-- A token format and a password hash that meet the interface: the claims are packed into one text
-- with the secret, and a hash is a number computed from the input.
use Prim.Native.Char.{Char, code}
use text.Mathlib.TextPositions.{eq_refl}
use rooti_server.Base.{
  ℕ, ◌+◌, ◌*◌, ◌≤◌, ◌≡◌, refl, ap, Bool, true, false, ◌&&◌, Option, some, List, [], ◌∷◌, String,
  str_eq, ltb, leb, arith, ◌==◌, if◌then◌else◌,
}
use rooti_server.Text.Decimal.{str_of, int_of, int_of-str_of}
use rooti_server.Crypto.{Crypto, Claims, Decoded, valid, expired, malformed}

-- Each character behind a "1", and a "2" behind each text.
abbrev pub pack_text : String → String → String
pack_text String.[] rest = String.◌∷◌ "2" rest
pack_text (String.◌∷◌ c s) rest = String.◌∷◌ "1" (String.◌∷◌ c (pack_text s rest))

abbrev pub pack : List String → String
pack [] = String.[]
pack (s ∷ l) = pack_text s (pack l)

abbrev pub put_char : Char → List String → List String
put_char c [] = String.◌∷◌ c String.[] ∷ []
put_char c (s ∷ l) = String.◌∷◌ c s ∷ l

abbrev pub unpack : String → List String
unpack String.[] = []
unpack (String.◌∷◌ t String.[]) = String.[] ∷ []
unpack (String.◌∷◌ t (String.◌∷◌ c s)) = elim (code t == b'1') [
  | true ↦ put_char c (unpack s)
  | false ↦ String.[] ∷ unpack (String.◌∷◌ c s)
]

unpack_end : (s : String) → unpack (String.◌∷◌ "2" s) ≡ String.[] ∷ unpack s
unpack_end String.[] = refl
unpack_end (String.◌∷◌ c s) = refl

unpack-pack_text : (s rest : String) → unpack (pack_text s rest) ≡ s ∷ unpack rest
unpack-pack_text String.[] rest = unpack_end rest
unpack-pack_text (String.◌∷◌ c s) rest = ap (put_char c) (unpack-pack_text s rest)

unpack-pack : (l : List String) → unpack (pack l) ≡ l
unpack-pack [] = refl
unpack-pack (s ∷ l) = rw unpack-pack_text (ap (λ k. s ∷ k) (unpack-pack l))

abbrev pub encode : Claims → String → String
encode c secret =
    pack (secret ∷ c.iss ∷ c.sub ∷ str_of c.iat ∷ str_of c.exp ∷ c.usn ∷ c.typ ∷ c.roles)

-- The checks of the time and the issuer.
abbrev pub checked : Option ℕ → Option ℕ → Bool → ℕ → (ℕ → ℕ → Claims) → Decoded
checked (some iat) (some exp) true now claims =
    if ltb now iat then malformed else if leb exp now then expired else valid (claims iat exp)
checked _ _ _ now claims = malformed

abbrev pub decode_fields : List String → String → String → ℕ → Decoded
decode_fields (key ∷ iss ∷ sub ∷ iat ∷ exp ∷ usn ∷ typ ∷ roles) secret issuer now =
    checked (int_of iat) (int_of exp) (str_eq key secret && str_eq iss issuer) now λ iat exp.
      record { iss = iss; sub = sub; iat = iat; exp = exp; usn = usn; roles = roles; typ = typ }
decode_fields _ secret issuer now = malformed

abbrev pub decode : String → String → String → ℕ → Decoded
decode token secret issuer now = decode_fields (unpack token) secret issuer now

pub decode-encode_lem :
    (claims : Claims) (secret : String) (now : ℕ)
    → claims.iat ≤ now
    → decode (encode claims secret) secret claims.iss now
      ≡ (if leb claims.exp now then expired else valid claims)
decode-encode_lem claims secret now h =
    rw
      (unpack-pack (
        secret
        ∷ claims.iss
        ∷ claims.sub
        ∷ str_of claims.iat
        ∷ str_of claims.exp
        ∷ claims.usn
        ∷ claims.typ
        ∷ claims.roles))
      (ground (
        arith,
        int_of-str_of claims.iat,
        int_of-str_of claims.exp,
        eq_refl secret,
        eq_refl claims.iss,
      ))

abbrev pub digest : ℕ → List ℕ → ℕ
digest acc [] = acc
digest acc (b ∷ input) = digest (acc * 257 + b) input

abbrev pub hashpw : List ℕ → ℕ → String
hashpw input entropy = str_of (digest 1 input)

abbrev pub checkpw : List ℕ → String → Option Bool
checkpw input hashed = some (str_eq hashed (str_of (digest 1 input)))

pub checkpw-hashpw_lem :
    (input : List ℕ) (entropy : ℕ) → checkpw input (hashpw input entropy) ≡ some true
checkpw-hashpw_lem input entropy = ap some (eq_refl (str_of (digest 1 input)))

instance abbrev pub sample : Crypto
sample = record {
  encode = encode;
  decode = decode;
  hashpw = hashpw;
  checkpw = checkpw;
  decode-encode = decode-encode_lem;
  checkpw-hashpw = checkpw-hashpw_lem;
}
