-- ===== src/Deps/Scope.antt =====
-- Who gets which scope, and what requests leave of the tables.
use rooti_server.Base.{
  ℕ, ◌≡◌, ◌⊎◌, inl, inr, Bool, true, false, none, some, List, [], ◌∷◌, arith, ◌==◌, Bool-cases,
}
use rooti_server.Exec.{Result, ok, err, Exec}
use rooti_server.Sql.{Sql}
use rooti_server.Sql.Query.{scalar_one_or_none, OneOrNone-cases, one-one}
use rooti_server.Redis.{Redis}
use rooti_server.Models.{CompanyCharger}
use rooti_server.Models.Enums.{admin}
use rooti_server.World.{World}
use rooti_server.Security.{PrincipalDetails, has_role}
use rooti_server.Auth.{role_value}
use rooti_server.Tenant.{CompanyScope}
use rooti_server.Deps.{require_roles, get_company_scope, request_transaction}

module _ ⦃sql : Sql⦄ ⦃redis : Redis⦄ where
  -- A user gets the scope of every company only with the ADMIN role, and the scope of one company only
  -- if a row of company_chargers binds that user to it. Resolving the scope changes nothing.
  pub get_company_scope_sound :
      (me : PrincipalDetails) (w w' : World) (scope : CompanyScope)
      → get_company_scope me w ≡ (ok scope, w')
      → (w' ≡ w)
        × (((scope ≡ none) × (has_role me (role_value admin) ≡ true))
            ⊎ ((id : ℕ) × (row : CompanyCharger) × (sql.get id w.chargers ≡ some row)
                × (row.user_id ≡ me.user_id)
                × (scope ≡ some row.company_id)))
  unfolding get_company_scope require_roles
  get_company_scope_sound me w w' scope h =
      let p = λ (k : ℕ) (c : CompanyCharger). c.user_id == me.user_id in
      elim (OneOrNone-cases (scalar_one_or_none (sql.select p w.chargers))) [
        | inl e ↦ (ground arith, inl (ground arith, ground arith))
        | inr rest ↦ elim rest [
          | inl (row, e) ↦
              let found = one-one p w.chargers row.0 row.1 e in
              elim (Bool-cases (has_role me (role_value admin))) [
                | inl is_admin ↦ (ground arith, inl (ground arith, is_admin))
                | inr other ↦ (
                  ground arith,
                  inr (row.0, row.1, found.0, ground (arith, found.1), ground arith),
                )
              ]
          | inr e ↦ (ground arith, inl (ground arith, ground arith))
        ]
      ]

  -- Every table of the second world is that of the first one.
  abbrev pub SameTables : World → World → Type 0
  SameTables w w' = w' ≡ record w { store = w'.store; now = w'.now; entropy = w'.entropy }

  -- Requests that are served one after the other, with their answers.
  abbrev pub serve : Bool → List (Exec World (Unit {0})) → World → List (Result (Unit {0})) × World
  serve read_only [] w = ([], w)
  serve read_only (endpoint ∷ rest) w =
      let (answer, after) = request_transaction read_only endpoint w in
      let (answers, last) = serve read_only rest after in (answer ∷ answers, last)

  abbrev pub all_failed : List (Result (Unit {0})) → Bool
  all_failed [] = true
  all_failed (ok a ∷ rest) = false
  all_failed (err e ∷ rest) = all_failed rest
