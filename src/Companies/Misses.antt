-- ===== src/Companies/Misses.antt =====
-- What the cache of companies gives back with the model class as it is declared.
use rooti_server.Base.{ℕ, ◌+◌, ◌≡◌, inl, inr, true, none, some, arith, ltb, Bool-cases}
use rooti_server.Sql.{Sql}
use rooti_server.Redis.{Redis}
use rooti_server.Models.{Company}
use rooti_server.World.{World}
use rooti_server.Cache.{Json}
use rooti_server.Cache.Keys.{get-set_model}
use rooti_server.Companies.Wire.{response, never_read_back, pydantic}
use rooti_server.Companies.Coherence.{hit}
use rooti_server.Companies.Agreement.{get_miss, load_found}
use rooti_server.Companies.{get}

module _ ⦃sql : Sql⦄ ⦃redis : Redis⦄ ⦃json : Json⦄ where
  -- A company that `get` has just loaded and stored in the cache is not found there, at any time:
  -- the stored text is refused by the validation of the same class.
  pub get-misses :
      (id : ℕ) (c : Company) (w : World) (later : ℕ)
      → sql.get id w.companies ≡ some c
      → hit w id ≡ none
      → hit (record (get true id w).1 { now = later }) id ≡ none
  get-misses id c w later found miss =
      let e = get-set_model (response id c) "company" id 600 w id later in
      rw (get_miss w id miss, load_found true w id c found)
        (elim (Bool-cases (ltb later (w.now + 600))) [
          | inl fresh ↦ ground (
            arith,
            json.loads-dumps (pydantic.dump (response id c)),
            never_read_back (response id c),
          )
          | inr stale ↦ ground arith
        ])
