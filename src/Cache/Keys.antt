-- ===== src/Cache/Keys.antt =====
-- Two entries of one namespace have different keys, and what one call on an entry does to the others.
use rooti_server.Base.{
  ℕ, ◌+◌, ◌≡◌, refl, inl, inr, none, some, String, str_eq, ◌==◌, eq_iff, arith, ltb, if◌then◌else◌,
  Bool-cases,
}
use text.Mathlib.TextLemmas.{append_cancel_left}
use rooti_server.Sql.{Sql}
use rooti_server.Redis.{Redis}
use rooti_server.World.{World}
use rooti_server.Text.Decimal.{str_of-injective}
use rooti_server.Cache.{Json, Model, cache_key, set_model, evict}

pub cache_key-injective : (ns : String) (a b : ℕ) → cache_key ns a ≡ cache_key ns b → a ≡ b
unfolding cache_key
cache_key-injective ns a b h = str_of-injective a b (
    append_cancel_left ":" _ _
      (append_cancel_left ns _ _ (append_cancel_left "rooti:cache:" _ _ h)))

pub str_eq_key : (ns : String) (a b : ℕ) → str_eq (cache_key ns a) (cache_key ns b) ≡ (a == b)
str_eq_key ns a b = elim (Bool-cases (a == b)) [
  | inl same ↦
      let e : a ≡ b = ground arith in
      rw (same, e) ((eq_iff (cache_key ns b) (cache_key ns b)).1 refl)
  | inr differ ↦ elim (Bool-cases (str_eq (cache_key ns a) (cache_key ns b))) [
    | inl equal ↦
        let e = cache_key-injective ns a b ((eq_iff (cache_key ns a) (cache_key ns b)).0 equal) in
        ground arith
    | inr other ↦ rw (differ, other)
  ]
]

module _ ⦃sql : Sql⦄ ⦃redis : Redis⦄ ⦃json : Json⦄ {A : Type 0} ⦃model : Model A⦄ where
  pub get-set_model :
      (a : A) (ns : String) (k ttl : ℕ) (w : World) (j later : ℕ)
      → redis.get (cache_key ns j) later (set_model a ns k ttl w).1.store ≡ (
          if k == j
          then (if ltb later (w.now + ttl) then some (json.dumps (model.dump a)) else none)
          else redis.get (cache_key ns j) later w.store)
  unfolding set_model
  get-set_model a ns k ttl w j later = ground (
    arith,
    redis.get-set (cache_key ns k) (json.dumps (model.dump a)) ttl w.now w.store (cache_key ns j)
        later,
    str_eq_key ns k j,
  )

module _ ⦃sql : Sql⦄ ⦃redis : Redis⦄ where
  pub get-evict :
      (ns : String) (k : ℕ) (w : World) (j later : ℕ)
      → redis.get (cache_key ns j) later (evict ns k w).1.store
        ≡ (if k == j then none else redis.get (cache_key ns j) later w.store)
  unfolding evict
  get-evict ns k w j later =
      ground
        (arith, redis.get-del (cache_key ns k) w.store (cache_key ns j) later, str_eq_key ns k j)
