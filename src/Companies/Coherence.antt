-- ===== src/Companies/Coherence.antt =====
-- What the company cache may hold: an entry that can be read shows the row as it stands.
use rooti_server.Base.{
  ℕ, ◌≡◌, ◌∙◌, ap, inl, inr, Option, none, some, String, arith, ◌==◌, Option-cases, Bool-cases,
}
use rooti_server.Sql.{Sql}
use rooti_server.Redis.{Redis}
use rooti_server.Models.{Company}
use rooti_server.World.{World}
use rooti_server.Cache.{Json, Model, cache_key, set_model, evict, model_validate_json}
use rooti_server.Cache.Keys.{get-set_model, get-evict}
use rooti_server.Companies.Wire.{CompanyResponse, response}

module _ ⦃sql : Sql⦄ ⦃redis : Redis⦄ ⦃json : Json⦄ ⦃model : Model CompanyResponse⦄ where
  abbrev pub IsCoherent : World → Type 0
  IsCoherent w =
      (id later : ℕ) (raw : String) (r : CompanyResponse)
      → redis.get (cache_key "company" id) later w.store ≡ some raw
      → model_validate_json raw ≡ some r
      → (c : Company) × (sql.get id w.companies ≡ some c) × (r ≡ response id c)

  -- What `get_model` finds.
  abbrev pub hit : World → ℕ → Option CompanyResponse
  hit w id = elim (redis.get (cache_key "company" id) w.now w.store) [
    | none ↦ none
    | some raw ↦ model_validate_json raw
  ]

  pub hit_lem :
      (w : World) (id : ℕ) (r : CompanyResponse)
      → IsCoherent w
      → hit w id ≡ some r
      → (c : Company) × (sql.get id w.companies ≡ some c) × (r ≡ response id c)
  hit_lem w id r coherent h =
      elim (Option-cases (redis.get (cache_key "company" id) w.now w.store)) [
        | inl e ↦ ground arith
        | inr (raw, e) ↦ coherent id w.now raw r e (ground arith)
      ]

  read_back :
      (a r : CompanyResponse) (raw : String)
      → json.dumps (model.dump a) ≡ raw
      → model_validate_json raw ≡ some r
      → r ≡ a
  read_back a r raw e h = model.validate-dump a r (ground (arith, json.loads-dumps (model.dump a)))

  -- Keeping the row that was just read.
  pub set_model-IsCoherent :
      (w : World) (id : ℕ) (c : Company) (ttl : ℕ)
      → IsCoherent w
      → sql.get id w.companies ≡ some c
      → IsCoherent (set_model (response id c) "company" id ttl w).1
  unfolding set_model
  set_model-IsCoherent w id c ttl coherent found j later raw r kept read =
      let g = get-set_model (response id c) "company" id ttl w j later in
      elim (Bool-cases (id == j)) [
        | inl here ↦
            let same : id ≡ j = ground arith in
            let e : json.dumps (model.dump (response id c)) ≡ raw = ground arith in
            (
              c,
              rw (← same) found,
              read_back (response id c) r raw e read ∙ ap (λ k. response k c) same,
            )
        | inr other ↦ coherent j later raw r (ground arith) read
      ]

  -- Writing a row and evicting its entry.
  pub evict-IsCoherent :
      (w : World) (id : ℕ) (c : Company)
      → IsCoherent w
      → IsCoherent (evict "company" id (record w { companies = sql.update id c w.companies })).1
  unfolding evict
  evict-IsCoherent w id c coherent j later raw r kept read =
      let g = get-evict "company" id w j later in
      elim (Bool-cases (id == j)) [
        | inl here ↦ ground arith
        | inr other ↦
            let (k, found, e) = coherent j later raw r (ground arith) read in
            (k, ground (arith, sql.get-update id c w.companies j), e)
      ]
