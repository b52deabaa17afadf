-- ===== src/Kiosks/Binding.antt =====
-- A kiosk is bound to a company at most once.
use rooti_server.Base.{
  ℕ, ◌≡◌, ◌⊎◌, inl, inr, true, Option, some, arith, eq_iff, String, Option-cases,
}
use rooti_server.Sql.{Sql}
use rooti_server.Sql.Query.{first, first-none, NoRow}
use rooti_server.Redis.{Redis}
use rooti_server.Models.{CompanyKiosk}
use rooti_server.World.{World}
use rooti_server.Tenant.{CompanyScope, assert_company}
use rooti_server.Kiosks.{KioskBindRequest, is_bound, new_kiosk, bind, set_assignee, unbind}

pub data KioskCall : Type 0 where
  bind_call : KioskBindRequest → KioskCall
  set_assignee_call : ℕ → Option String → CompanyScope → KioskCall
  unbind_call : ℕ → CompanyScope → KioskCall

module _ ⦃sql : Sql⦄ ⦃redis : Redis⦄ where
  abbrev pub call : KioskCall → World → World
  call (bind_call req) w = (bind req w).1
  call (set_assignee_call kiosk_id assignee scope) w = (set_assignee kiosk_id assignee scope w).1
  call (unbind_call kiosk_id scope) w = (unbind kiosk_id scope w).1

  abbrev pub BoundOnce : World → Type 0
  BoundOnce w =
      (company : ℕ) (kiosk_id : String) (j k : ℕ) (r s : CompanyKiosk)
      → sql.get j w.kiosks ≡ some r
      → is_bound company kiosk_id j r ≡ true
      → sql.get k w.kiosks ≡ some s
      → is_bound company kiosk_id k s ≡ true
      → j ≡ k

  bind_effect :
      (req : KioskBindRequest) (w : World)
      → ((bind req w).1.kiosks ≡ w.kiosks)
        ⊎ (NoRow (is_bound req.company_id req.kiosk_id) w.kiosks
            × ((key : ℕ) × (sql.insert (new_kiosk req) w.kiosks
                  ≡ some (key, (bind req w).1.kiosks))))
  unfolding bind
  bind_effect req w =
      let p = is_bound req.company_id req.kiosk_id in
      elim (Option-cases (first (sql.select p w.kiosks))) [
        | inr (row, e) ↦ inl (ground arith)
        | inl e ↦ elim (Option-cases (sql.get req.company_id w.companies)) [
          | inl missing ↦ inl (ground arith)
          | inr (company, found) ↦ elim (Option-cases (sql.insert (new_kiosk req) w.kiosks)) [
            | inl refused ↦ inl (ground arith)
            | inr (row, accepted) ↦ inr (first-none p w.kiosks e, (row.0, ground arith))
          ]
        ]
      ]

  bind-BoundOnce : (req : KioskBindRequest) (w : World) → BoundOnce w → BoundOnce (bind req w).1
  unfolding new_kiosk
  bind-BoundOnce req w u = elim (bind_effect req w) [
    | inl e ↦ λ company kiosk_id j k r s gr pr gs ps.
        u company kiosk_id j k r s (rw e at gr) pr (rw e at gs) ps
    | inr (free, (key, e)) ↦ λ company kiosk_id j k r s gr pr gs ps.
        let at = λ (i : ℕ). sql.get-insert (new_kiosk req) w.kiosks key (bind req w).1.kiosks i e in
        ground (
          arith,
          at j,
          at k,
          u company kiosk_id j k r s,
          free j r,
          free k s,
          eq_iff r.kiosk_id kiosk_id,
          eq_iff r.kiosk_id req.kiosk_id,
          eq_iff s.kiosk_id kiosk_id,
          eq_iff s.kiosk_id req.kiosk_id,
          eq_iff req.kiosk_id kiosk_id,
        )
  ]

  set_assignee-BoundOnce :
      (kiosk_id : ℕ) (assignee : Option String) (scope : CompanyScope) (w : World)
      → BoundOnce w
      → BoundOnce (set_assignee kiosk_id assignee scope w).1
  unfolding set_assignee assert_company
  set_assignee-BoundOnce kiosk_id assignee scope w u company name j k r s gr pr gs ps =
      elim (Option-cases (sql.get kiosk_id w.kiosks)) [
        | inl missing ↦ ground (arith, u company name j k r s)
        | inr (kiosk, found) ↦
            let row = record kiosk { assignee = assignee } in
            let at = λ (i : ℕ). sql.get-update kiosk_id row w.kiosks i in
            ground (
              arith,
              at j,
              at k,
              u company name j k r s,
              u company name j k kiosk s,
              u company name j k r kiosk,
              u company name j k kiosk kiosk,
            )
      ]

  unbind-BoundOnce :
      (kiosk_id : ℕ) (scope : CompanyScope) (w : World)
      → BoundOnce w
      → BoundOnce (unbind kiosk_id scope w).1
  unfolding unbind assert_company
  unbind-BoundOnce kiosk_id scope w u company name j k r s gr pr gs ps =
      let at = λ (i : ℕ). sql.get-delete kiosk_id w.kiosks i in
      ground (arith, at j, at k, u company name j k r s)

  -- From tables where no company has a kiosk twice, every kiosk request keeps that so.
  pub call-BoundOnce : (c : KioskCall) (w : World) → BoundOnce w → BoundOnce (call c w)
  call-BoundOnce (bind_call req) w u = bind-BoundOnce req w u
  call-BoundOnce (set_assignee_call kiosk_id assignee scope) w u =
      set_assignee-BoundOnce kiosk_id assignee scope w u
  call-BoundOnce (unbind_call kiosk_id scope) w u = unbind-BoundOnce kiosk_id scope w u
