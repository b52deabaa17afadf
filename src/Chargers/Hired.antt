-- ===== src/Chargers/Hired.antt =====
-- The scope of a charger does not follow the hired flag.
use rooti_server.Base.{ℕ, ◌≡◌, Bool, true, false, some, [], ◌∷◌, arith, ◌==◌}
use rooti_server.Exec.{ok}
use rooti_server.Sql.{Sql}
use rooti_server.Sql.Query.{one_of_AtMostOne}
use rooti_server.Redis.{Redis}
use rooti_server.Models.{CompanyCharger}
use rooti_server.Models.Enums.{admin, charger}
use rooti_server.World.{World}
use rooti_server.Security.{PrincipalDetails, has_role}
use rooti_server.Auth.{role_value}
use rooti_server.Deps.{get_company_scope, charger_scope, require_roles, has_any}
use rooti_server.Chargers.{set_hired}

module _ ⦃sql : Sql⦄ ⦃redis : Redis⦄ where
  -- A user is in charge at one company at most.
  abbrev pub ChargesOnce : World → Type 0
  ChargesOnce w =
      (user_id j k : ℕ) (r s : CompanyCharger)
      → sql.get j w.chargers ≡ some r
      → (r.user_id == user_id) ≡ true
      → sql.get k w.chargers ≡ some s
      → (s.user_id == user_id) ≡ true
      → j ≡ k

  changed-ChargesOnce :
      (id : ℕ) (c : CompanyCharger) (hired : Bool) (w : World)
      → ChargesOnce w
      → sql.get id w.chargers ≡ some c
      → ChargesOnce
          (record w { chargers = sql.update id (record c { is_hired = hired }) w.chargers })
  changed-ChargesOnce id c hired w u found n j k r s gr pr gs ps =
      let at = λ (x : ℕ). sql.get-update id (record c { is_hired = hired }) w.chargers x in
      ground (arith, at j, at k, u n j k r s, u n j k c s, u n j k r c, u n j k c c)

  -- Where a user is in charge at one company at most, setting the hired flag of a charger row, to no
  -- as to yes, leaves its user the scope of that company: a user with the CHARGER role and not the
  -- ADMIN role still gets it.
  pub unhired_keeps_scope :
      (id : ℕ) (c : CompanyCharger) (hired : Bool) (me : PrincipalDetails) (w : World)
      → ChargesOnce w
      → sql.get id w.chargers ≡ some c
      → c.user_id ≡ me.user_id
      → has_any (admin ∷ charger ∷ []) me.roles ≡ true
      → has_role me (role_value admin) ≡ false
      → (get_company_scope me (set_hired id hired w).1).0 ≡ ok (some c.company_id)
  unfolding get_company_scope charger_scope require_roles set_hired
  unhired_keeps_scope id c hired me w u found own charges other =
      let changed = record c { is_hired = hired } in
      let t = sql.update id changed w.chargers in
      let at : sql.get id t ≡ some changed =
        ground (arith, sql.get-update id changed w.chargers id) in
      let p = λ (k : ℕ) (x : CompanyCharger). x.user_id == me.user_id in
      let row =
        one_of_AtMostOne p t id changed (changed-ChargesOnce id c hired w u found me.user_id) at
          (ground arith) in
      ground (arith, row)
