-- ===== src/Cache/Sample.antt =====
-- An encoder and a decoder that meet the interface of the cache: an object is written as the steps of
-- a stack machine that builds it, one character a step.
use Prim.Native.Char.{Char, code}
use Prim.Native.String.{◌++◌ as str_append}
use Prim.Native.String.append
use package.text.Mathlib.TextLemmas.{append_assoc, append-nil}
use rooti_server.Base.{
  ℕ, suc, zero, ◌≡◌, refl, sym, ◌∙◌, ap, Bool, true, false, Option, none, some, List, [], ◌∷◌,
  String, ◌==◌, if◌then◌else◌,
}
use rooti_server.Cache.Fields.{
  Value, null, flag, number, text, objects, Members, no_member, member, Objects, no_object, object,
}
use rooti_server.Cache.{Json}

data Item : Type 0 where
  count : ℕ → Item
  letters : String → Item
  val : Value → Item
  mems : Members → Item
  objs : Objects → Item

-- The character after a quote goes in front of the text below it.
take_char : Char → List Item → List Item
take_char c (letters t ∷ st) = letters (String.◌∷◌ c t) ∷ st
take_char c st = st

succ_top : List Item → List Item
succ_top (count n ∷ st) = count (suc n) ∷ st
succ_top st = st

to_value : List Item → List Item
to_value (count n ∷ st) = val (number n) ∷ st
to_value (letters t ∷ st) = val (text t) ∷ st
to_value (objs o ∷ st) = val (objects o) ∷ st
to_value st = st

-- `rest`, value, name
add_member : List Item → List Item
add_member (letters n ∷ val v ∷ mems rest ∷ st) = mems (member n v rest) ∷ st
add_member st = st

add_object : List Item → List Item
add_object (mems m ∷ objs rest ∷ st) = objs (object m rest) ∷ st
add_object st = st

-- Each operation under its character.
operate : ℕ → List Item → List Item
operate c st =
    if c == b'0'
    then count 0 ∷ st
    else if c == b's'
    then succ_top st
    else if c == b'e'
    then letters String.[] ∷ st
    else if c == b'v'
    then to_value st
    else if c == b'n'
    then val null ∷ st
    else if c == b't'
    then val (flag true) ∷ st
    else if c == b'f'
    then val (flag false) ∷ st
    else if c == b'm'
    then mems no_member ∷ st
    else if c == b'a'
    then add_member st
    else if c == b'o'
    then objs no_object ∷ st
    else if c == b'p'
    then add_object st
    else st

-- The flag says that the next character is a quoted one; `q` quotes.
run : String → Bool → List Item → List Item
run String.[] quoted st = st
run (String.◌∷◌ c s) true st = run s false (take_char c st)
run (String.◌∷◌ c s) false st =
    let quoted = code c == b'q' in run s quoted (if quoted then st else operate (code c) st)

finish : List Item → Option Members
finish (mems m ∷ []) = some m
finish st = none

pub loads : String → Option Members
loads s = finish (run s false [])

enc_number : ℕ → String
enc_number zero = "0"
enc_number (suc n) = str_append (enc_number n) "s"

enc_text : String → String
enc_text String.[] = "e"
enc_text (String.◌∷◌ c t) = str_append (enc_text t) (String.◌∷◌ "q" (String.◌∷◌ c String.[]))

mutual
  enc_value : Value → String
  enc_value null = "n"
  enc_value (flag true) = "t"
  enc_value (flag false) = "f"
  enc_value (number n) = str_append (enc_number n) "v"
  enc_value (text t) = str_append (enc_text t) "v"
  enc_value (objects o) = str_append (enc_objects o) "v"

  pub dumps : Members → String
  dumps no_member = "m"
  dumps (member n v rest) =
      str_append (dumps rest) (str_append (enc_value v) (str_append (enc_text n) "a"))

  enc_objects : Objects → String
  enc_objects no_object = "o"
  enc_objects (object m rest) = str_append (enc_objects rest) (str_append (dumps m) "p")

run_number :
    (n : ℕ) (more : String) (st : List Item)
    → run (str_append (enc_number n) more) false st ≡ run more false (count n ∷ st)
unfolding run enc_number operate succ_top
run_number zero more st = rw (append.cons, append.nil)
run_number (suc n) more st =
    rw append_assoc (run_number n (str_append "s" more) st ∙ rw (append.cons, append.nil) refl)

run_text :
    (t : String) (more : String) (st : List Item)
    → run (str_append (enc_text t) more) false st ≡ run more false (letters t ∷ st)
unfolding run enc_text operate take_char
run_text String.[] more st = rw (append.cons, append.nil)
run_text (String.◌∷◌ c t) more st =
    rw append_assoc (run_text t _ st ∙ rw (append.cons, append.cons, append.nil) refl)

mutual
  unfolding run enc_value dumps enc_objects operate to_value add_member add_object

  run_value :
      (v : Value) (more : String) (st : List Item)
      → run (str_append (enc_value v) more) false st ≡ run more false (val v ∷ st)
  run_value null more st = rw (append.cons, append.nil)
  run_value (flag true) more st = rw (append.cons, append.nil)
  run_value (flag false) more st = rw (append.cons, append.nil)
  run_value (number n) more st =
      rw append_assoc (run_number n _ st ∙ rw (append.cons, append.nil) refl)
  run_value (text t) more st = rw append_assoc (run_text t _ st ∙ rw (append.cons, append.nil) refl)
  run_value (objects o) more st =
      rw append_assoc (run_objects o _ st ∙ rw (append.cons, append.nil) refl)

  run_members :
      (m : Members) (more : String) (st : List Item)
      → run (str_append (dumps m) more) false st ≡ run more false (mems m ∷ st)
  run_members no_member more st = rw (append.cons, append.nil)
  run_members (member n v rest) more st = rw append_assoc (
      run_members rest _ st
      ∙ rw append_assoc (
          run_value v _ (mems rest ∷ st)
          ∙ rw append_assoc
              (run_text n _ (val v ∷ mems rest ∷ st) ∙ rw (append.cons, append.nil) refl)))

  run_objects :
      (o : Objects) (more : String) (st : List Item)
      → run (str_append (enc_objects o) more) false st ≡ run more false (objs o ∷ st)
  run_objects no_object more st = rw (append.cons, append.nil)
  run_objects (object m rest) more st = rw append_assoc (
      run_objects rest _ st
      ∙ rw append_assoc (run_members m _ (objs rest ∷ st) ∙ rw (append.cons, append.nil) refl))

pub loads-dumps : (m : Members) → loads (dumps m) ≡ some m
unfolding loads run finish
loads-dumps m =
    ap (λ s. finish (run s false [])) (sym (append-nil (dumps m)))
    ∙ ap finish (run_members m String.[] [])

instance abbrev pub json : Json
json = record { dumps = dumps; loads = loads; loads-dumps = loads-dumps }
