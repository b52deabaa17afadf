-- ===== src/Redis/Memory.antt =====
-- A Redis store in memory that meets the interface: the latest entry of a key stands first.
use rooti_server.Base.{
  ℕ, ◌+◌, ◌≡◌, refl, Option, none, some, List, [], ◌∷◌, String, str_eq, eq_iff, ltb, arith,
  if◌then◌else◌,
}
use rooti_server.Redis.{Redis}

abbrev pub Entries : Type 0
Entries = List (String × String × ℕ)

abbrev pub get : String → ℕ → Entries → Option String
get key now [] = none
get key now ((k, v, expiry) ∷ s) =
    if str_eq k key then (if ltb now expiry then some v else none) else get key now s

abbrev pub set : String → String → ℕ → ℕ → Entries → Entries
set key value ttl now s = (key, value, now + ttl) ∷ s

abbrev pub del : String → Entries → Entries
del key [] = []
del key ((k, v, expiry) ∷ s) =
    let rest = del key s in if str_eq k key then rest else (k, v, expiry) ∷ rest

pub get-del_lem :
    (key : String) (s : Entries) (other : String) (later : ℕ)
    → get other later (del key s) ≡ (if str_eq key other then none else get other later s)
get-del_lem key [] other later = ground arith
get-del_lem key ((k, v, expiry) ∷ s) other later =
    ground (arith, get-del_lem key s other later, eq_iff k key, eq_iff k other, eq_iff key other)

pub get-set_lem :
    (key value : String) (ttl now : ℕ) (s : Entries) (other : String) (later : ℕ)
    → get other later (set key value ttl now s) ≡ (
        if str_eq key other
        then (if ltb later (now + ttl) then some value else none)
        else get other later s)
get-set_lem key value ttl now s other later = refl

instance abbrev pub memory : Redis
memory = record {
  Store = Entries;
  get = get;
  set = set;
  del = del;
  get-set = get-set_lem;
  get-del = get-del_lem;
}
