-- ===== src/Journals/Owner.antt =====
-- Whose journals a charger can download.
use rooti_server.Base.{ℕ, ◌≡◌, inl, inr, some, arith, opt_eq, Option-cases, Bool-cases}
use rooti_server.Exec.{ok}
use rooti_server.Sql.{Sql}
use rooti_server.Redis.{Redis}
use rooti_server.Models.{WorkSchedule}
use rooti_server.Models.Enums.{JournalFormat}
use rooti_server.World.{World}
use rooti_server.Tenant.{assert_company}
use rooti_server.Journals.{Bytes, Mailing, owner_company, check_owner, render}

module _ ⦃sql : Sql⦄ ⦃redis : Redis⦄ ⦃mailing : Mailing⦄ where
  -- A journal that is rendered for the scope of a company belongs to a schedule whose worker works
  -- at that company.
  pub render_of_company :
      (id : ℕ) (fmt : JournalFormat) (company : ℕ) (w w' : World) (body : Bytes)
      → render id fmt (some company) w ≡ (ok body, w')
      → (s : WorkSchedule) × (sql.get id w.schedules ≡ some s) × (owner_company w s ≡ some company)
  unfolding render check_owner assert_company
  render_of_company id fmt company w w' body h = elim (Option-cases (sql.get id w.schedules)) [
    | inl e ↦ ground arith
    | inr (s, e) ↦ elim (Bool-cases (opt_eq (owner_company w s) (some company))) [
      | inl owned ↦ (s, e, ground arith)
      | inr foreign ↦ ground arith
    ]
  ]
