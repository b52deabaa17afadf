-- ===== src/Companies/Agreement.antt =====
-- Each call of the company service with its cache beside the same call without one.
use rooti_server.Base.{
  ℕ, ◌≡◌, refl, inl, inr, ◌⊎◌, Bool, true, false, is_none, Option, none, some, arith, str_eq,
  if◌then◌else◌, Option-cases, Bool-cases,
}
use rooti_server.Errors.{Exn, business, company_not_found, conflict, integrity_error}
use rooti_server.Exec.{Result, ok, err}
use rooti_server.Sql.{Sql}
use rooti_server.Sql.Query.{first}
use rooti_server.Redis.{Redis}
use rooti_server.Models.{Company}
use rooti_server.World.{World}
use rooti_server.Security.{PrincipalDetails}
use rooti_server.Cache.{Json, Model, get_model, set_model, evict}
use rooti_server.Companies.Wire.{CompanyResponse, response}
use rooti_server.Companies.Coherence.{
  IsCoherent, hit, hit_lem, set_model-IsCoherent, evict-IsCoherent,
}
use rooti_server.Companies.{
  CompanyCreateRequest, CompanyUpdateRequest, new_company, changed_company, inactive_company,
  get_or_throw, evict_company, create, update, deactivate, cached_company, keep_company, load, get,
}

module _ ⦃sql : Sql⦄ ⦃redis : Redis⦄ ⦃json : Json⦄ ⦃model : Model CompanyResponse⦄ where
  -- What a caller sees: the store of the cache does not count.
  abbrev pub with_store : redis.Store → World → World
  with_store s w = record w { store = s }

  get_hit :
      (w : World) (id : ℕ) (r : CompanyResponse) → hit w id ≡ some r → get true id w ≡ (ok r, w)
  unfolding get cached_company get_model
  get_hit w id r h = ground arith

  pub get_miss : (w : World) (id : ℕ) → hit w id ≡ none → get true id w ≡ load true id w
  unfolding get cached_company get_model
  get_miss w id h = ground arith

  get_uncached : (w : World) (id : ℕ) → get false id w ≡ load false id w
  unfolding get cached_company
  get_uncached w id = refl

  pub load_found :
      (cached : Bool) (w : World) (id : ℕ) (c : Company)
      → sql.get id w.companies ≡ some c
      → load cached id w ≡ (
        ok (response id c),
        if cached then (set_model (response id c) "company" id 600 w).1 else w,
      )
  unfolding load get_or_throw keep_company set_model
  load_found true w id c found = ground arith
  load_found false w id c found = ground arith

  load_gone :
      (cached : Bool) (w : World) (id : ℕ)
      → sql.get id w.companies ≡ none
      → load cached id w ≡ (err (business company_not_found), w)
  unfolding load get_or_throw keep_company
  load_gone cached w id gone = ground arith

  abbrev pub Agree : {A : Type 0} → redis.Store → Result A × World → Result A × World → Type 0
  Agree s (r, w) (r', w') = (r' ≡ r) × (w' ≡ with_store s w) × IsCoherent w

  set_model_store :
      (w : World) (s : redis.Store) (id : ℕ) (a : CompanyResponse)
      → with_store s w ≡ with_store s (set_model a "company" id 600 w).1
  unfolding set_model
  set_model_store w s id a = refl

  pub get-Agree :
      (w : World) (s : redis.Store) (id : ℕ)
      → IsCoherent w
      → Agree s (get true id w) (get false id (with_store s w))
  get-Agree w s id coherent = elim (Option-cases (sql.get id w.companies)) [
    | inl gone ↦ elim (Option-cases (hit w id)) [
      | inl miss ↦
          rw
            (
              get_uncached (with_store s w) id,
              get_miss w id miss,
              load_gone true w id gone,
              load_gone false (with_store s w) id gone,
            )
            (refl, refl, coherent)
      | inr (r, shown) ↦ let (c, found, e) = hit_lem w id r coherent shown in ground arith
    ]
    | inr (c, found) ↦ elim (Option-cases (hit w id)) [
      | inl miss ↦
          rw
            (
              get_uncached (with_store s w) id,
              get_miss w id miss,
              load_found true w id c found,
              load_found false (with_store s w) id c found,
            )
            (
              refl,
              set_model_store w s id (response id c),
              set_model-IsCoherent w id c 600 coherent found,
            )
      | inr (r, shown) ↦
          let (k, there, e) = hit_lem w id r coherent shown in
          rw
            (
              get_uncached (with_store s w) id,
              get_hit w id r shown,
              load_found false (with_store s w) id c found,
            )
            (ground arith, refl, coherent)
    ]
  ]

  abbrev written : Bool → ℕ → Company → World → World
  written cached id c w =
      let after = record w { companies = sql.update id c w.companies } in
      if cached then (evict "company" id after).1 else after

  written_store :
      (w : World) (s : redis.Store) (id : ℕ) (c : Company)
      → written false id c (with_store s w) ≡ with_store s (written true id c w)
  unfolding evict
  written_store w s id c = refl

  update_found :
      (cached : Bool) (w : World) (id : ℕ) (req : CompanyUpdateRequest)
      (actor : Option PrincipalDetails) (c : Company)
      → sql.get id w.companies ≡ some c
      → update cached id req actor w ≡ (
        ok (response id (changed_company req actor c)),
        written cached id (changed_company req actor c) w,
      )
  unfolding update get_or_throw evict_company evict
  update_found true w id req actor c found = ground arith
  update_found false w id req actor c found = ground arith

  update_gone :
      (cached : Bool) (w : World) (id : ℕ) (req : CompanyUpdateRequest)
      (actor : Option PrincipalDetails)
      → sql.get id w.companies ≡ none
      → update cached id req actor w ≡ (err (business company_not_found), w)
  unfolding update get_or_throw evict_company
  update_gone cached w id req actor gone = ground arith

  deactivate_found :
      (cached : Bool) (w : World) (id : ℕ) (actor : Option PrincipalDetails) (c : Company)
      → sql.get id w.companies ≡ some c
      → deactivate cached id actor w ≡ (ok tt, written cached id (inactive_company actor c) w)
  unfolding deactivate get_or_throw evict_company evict
  deactivate_found true w id actor c found = ground arith
  deactivate_found false w id actor c found = ground arith

  deactivate_gone :
      (cached : Bool) (w : World) (id : ℕ) (actor : Option PrincipalDetails)
      → sql.get id w.companies ≡ none
      → deactivate cached id actor w ≡ (err (business company_not_found), w)
  unfolding deactivate get_or_throw evict_company
  deactivate_gone cached w id actor gone = ground arith

  pub update-Agree :
      (w : World) (s : redis.Store) (id : ℕ) (req : CompanyUpdateRequest)
      (actor : Option PrincipalDetails)
      → IsCoherent w
      → Agree s (update true id req actor w) (update false id req actor (with_store s w))
  update-Agree w s id req actor coherent = elim (Option-cases (sql.get id w.companies)) [
    | inl gone ↦
        rw
          (
            update_gone true w id req actor gone,
            update_gone false (with_store s w) id req actor gone,
          )
          (refl, refl, coherent)
    | inr (c, found) ↦
        rw
          (
            update_found true w id req actor c found,
            update_found false (with_store s w) id req actor c found,
          )
          (
            refl,
            written_store w s id (changed_company req actor c),
            evict-IsCoherent w id (changed_company req actor c) coherent,
          )
  ]

  pub deactivate-Agree :
      (w : World) (s : redis.Store) (id : ℕ) (actor : Option PrincipalDetails)
      → IsCoherent w
      → Agree s (deactivate true id actor w) (deactivate false id actor (with_store s w))
  deactivate-Agree w s id actor coherent = elim (Option-cases (sql.get id w.companies)) [
    | inl gone ↦
        rw
          (
            deactivate_gone true w id actor gone,
            deactivate_gone false (with_store s w) id actor gone,
          )
          (refl, refl, coherent)
    | inr (c, found) ↦
        rw
          (
            deactivate_found true w id actor c found,
            deactivate_found false (with_store s w) id actor c found,
          )
          (
            refl,
            written_store w s id (inactive_company actor c),
            evict-IsCoherent w id (inactive_company actor c) coherent,
          )
  ]

  insert-IsCoherent :
      (w : World) (c : Company) (id : ℕ) (t : sql.Table Company)
      → IsCoherent w
      → sql.insert c w.companies ≡ some (id, t)
      → IsCoherent (record w { companies = t })
  insert-IsCoherent w c id t coherent added j later raw r kept read =
      let (k, found, e) = coherent j later raw r kept read in
      (
        k,
        ground (
          arith,
          sql.get-insert c w.companies id t j added,
          sql.insert_fresh c w.companies id t added,
        ),
        e,
      )

  create_cases :
      (w : World) (req : CompanyCreateRequest) (actor : Option PrincipalDetails) (s : redis.Store)
      → ((e : Exn) × (create req actor w ≡ (err e, w))
          × (create req actor (with_store s w) ≡ (err e, with_store s w)))
        ⊎ ((id : ℕ) × (t : sql.Table Company) × (sql.insert (new_company req actor) w.companies
              ≡ some (id, t))
            × (create req actor w
                ≡ (ok (response id (new_company req actor)), record w { companies = t }))
            × (create req actor (with_store s w) ≡ (
              ok (response id (new_company req actor)),
              with_store s (record w { companies = t }),
            )))
  unfolding create
  create_cases w req actor s =
      elim (Bool-cases (is_none (first (sql.select (λ _ c. str_eq c.name req.name) w.companies)))) [
        | inl free ↦ elim (Option-cases (sql.insert (new_company req actor) w.companies)) [
          | inl refused ↦ inl (integrity_error, ground arith, ground arith)
          | inr ((id, t), added) ↦ inr (id, t, added, ground arith, ground arith)
        ]
        | inr taken ↦ inl (business conflict, ground arith, ground arith)
      ]

  pub create-Agree :
      (w : World) (s : redis.Store) (req : CompanyCreateRequest) (actor : Option PrincipalDetails)
      → IsCoherent w
      → Agree s (create req actor w) (create req actor (with_store s w))
  create-Agree w s req actor coherent = elim (create_cases w req actor s) [
    | inl (e, a, b) ↦ rw (a, b) (refl, refl, coherent)
    | inr (id, t, added, a, b) ↦
        rw (a, b) (refl, refl, insert-IsCoherent w (new_company req actor) id t coherent added)
  ]
