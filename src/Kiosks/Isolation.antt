-- ===== src/Kiosks/Isolation.antt =====
-- A charger's kiosk requests reach the kiosks of one company only.
use rooti_server.Base.{
  ℕ, ◌≡◌, ◌≢◌, ◌↔◌, inl, inr, Option, some, arith, ◌==◌, String, Bool-cases, Option-cases,
}
use rooti_server.Exec.{ok}
use rooti_server.Sql.{Sql}
use rooti_server.Redis.{Redis}
use rooti_server.Models.{CompanyKiosk}
use rooti_server.World.{World}
use rooti_server.Tenant.{assert_company}
use rooti_server.Security.{PrincipalDetails}
use rooti_server.Deps.{get_company_scope}
use rooti_server.Kiosks.{
  KioskBindRequest, new_kiosk, bind, set_assignee, unbind, bind_endpoint, set_assignee_endpoint,
  unbind_endpoint,
}

module _ ⦃sql : Sql⦄ ⦃redis : Redis⦄ where
  -- The kiosks of the other companies are the same in two worlds.
  abbrev pub OthersKept : ℕ → World → World → Type 0
  OthersKept company w w' =
      (j : ℕ) (kiosk : CompanyKiosk)
      → kiosk.company_id ≢ company
      → (sql.get j w'.kiosks ≡ some kiosk) ↔ (sql.get j w.kiosks ≡ some kiosk)

  set_assignee-OthersKept :
      (kiosk_id : ℕ) (assignee : Option String) (company : ℕ) (w : World)
      → OthersKept company w (set_assignee kiosk_id assignee (some company) w).1
  unfolding set_assignee assert_company
  set_assignee-OthersKept kiosk_id assignee company w j kiosk other =
      elim (Option-cases (sql.get kiosk_id w.kiosks)) [
        | inl e ↦ (ground arith, ground arith)
        | inr (found, e) ↦
            let at = sql.get-update kiosk_id (record found { assignee = assignee }) w.kiosks j in
            (ground (arith, at), ground (arith, at))
      ]

  unbind-OthersKept :
      (kiosk_id company : ℕ) (w : World) → OthersKept company w (unbind kiosk_id (some company) w).1
  unfolding unbind assert_company
  unbind-OthersKept kiosk_id company w j kiosk other =
      elim (Option-cases (sql.get kiosk_id w.kiosks)) [
        | inl e ↦ (ground arith, ground arith)
        | inr (found, e) ↦
            let at = sql.get-delete kiosk_id w.kiosks j in (ground (arith, at), ground (arith, at))
      ]

  bind-OthersKept :
      (req : KioskBindRequest) (w : World) → OthersKept req.company_id w (bind req w).1
  unfolding bind new_kiosk
  bind-OthersKept req w j kiosk other = elim (Option-cases (sql.insert (new_kiosk req) w.kiosks)) [
    | inl refused ↦ (ground arith, ground arith)
    | inr (row, e) ↦
        let at = sql.get-insert (new_kiosk req) w.kiosks row.0 row.1 j e in
        let fresh = sql.insert_fresh (new_kiosk req) w.kiosks row.0 row.1 e in
        (ground (arith, at, fresh), ground (arith, at, fresh))
  ]

  scoped_bind-OthersKept :
      (req : KioskBindRequest) (me : PrincipalDetails) (company : ℕ) (w : World)
      → get_company_scope me w ≡ (ok (some company), w)
      → OthersKept company w (bind_endpoint req me w).1
  unfolding bind_endpoint assert_company
  scoped_bind-OthersKept req me company w scope j kiosk other =
      elim (Bool-cases (req.company_id == company)) [
        | inl own ↦
            let kept = bind-OthersKept req w j kiosk in
            (ground (arith, scope, kept), ground (arith, scope, kept))
        | inr foreign ↦ (ground (arith, scope), ground (arith, scope))
      ]

  -- A charger of a company who binds a kiosk, sets an assignee or unbinds a kiosk leaves the kiosks of
  -- every other company as they were.
  pub charger_keeps_other_kiosks :
      (me : PrincipalDetails) (company : ℕ) (w : World) (req : KioskBindRequest) (kiosk_id : ℕ)
      (assignee : Option String)
      → get_company_scope me w ≡ (ok (some company), w)
      → OthersKept company w (bind_endpoint req me w).1
        × OthersKept company w (set_assignee_endpoint kiosk_id assignee me w).1
        × OthersKept company w (unbind_endpoint kiosk_id me w).1
  unfolding set_assignee_endpoint unbind_endpoint
  charger_keeps_other_kiosks me company w req kiosk_id assignee scope = (
    scoped_bind-OthersKept req me company w scope,
    λ j kiosk other.
        let kept = set_assignee-OthersKept kiosk_id assignee company w j kiosk other in
        (ground (arith, scope, kept), ground (arith, scope, kept)),
    λ j kiosk other.
        let kept = unbind-OthersKept kiosk_id company w j kiosk other in
        (ground (arith, scope, kept), ground (arith, scope, kept)),
  )
