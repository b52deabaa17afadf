-- ===== src/Journals/Selection.antt =====
-- What one bulk mail sends: the world it leaves, and the number of journals.
use Prim.Native.Nat.{min}
use rooti_server.Base.{
  ℕ, ◌≡◌, refl, ◌∙◌, inl, inr, none, some, List, [], ◌∷◌, String, arith, length, take, length-take,
  ltb, Option-cases,
}
use rooti_server.Exec.{ok, Result-cases, >>=-eq-ok}
use rooti_server.Sql.{Sql}
use rooti_server.Redis.{Redis}
use rooti_server.Models.{WorkSchedule}
use rooti_server.Models.Enums.{JournalFormat, pdf, hwp, xlsx}
use rooti_server.World.{World}
use rooti_server.Tenant.{CompanyScope, assert_company}
use rooti_server.Journals.{
  Bytes, title_of, journal_rows, Mailing, Email, render, render_as, check_owner,
}
use rooti_server.Journals.Bulk.{
  BulkResult, max_bulk_schedules, selected, render_all, send_email, mail_archive, send_selected,
  send, bulk_email,
}

module _ ⦃sql : Sql⦄ ⦃redis : Redis⦄ ⦃mailing : Mailing⦄ where
  check_owner_same :
      (scope : CompanyScope) (s : WorkSchedule) (w : World) → (check_owner scope s w).1 ≡ w
  unfolding check_owner assert_company
  check_owner_same none s w = refl
  check_owner_same (some c) s w = ground arith

  render_as_same :
      (fmt : JournalFormat) (title : String) (rows : List _) (w : World)
      → (render_as fmt title rows w).1 ≡ w
  unfolding render_as
  render_as_same pdf title rows w = ground arith
  render_as_same hwp title rows w = refl
  render_as_same xlsx title rows w = ground arith

  -- Rendering reads only, also for a caller of one company.
  pub render_same :
      (id : ℕ) (fmt : JournalFormat) (scope : CompanyScope) (w : World)
      → (render id fmt scope w).1 ≡ w
  unfolding render check_owner assert_company
  render_same id fmt scope w = elim (Option-cases (sql.get id w.schedules)) [
    | inl missing ↦ ground arith
    | inr (s, found) ↦ ground (
      arith,
      check_owner_same scope s w,
      render_as_same fmt (title_of id (sql.get s.job_standard_id w.job_standards))
          (journal_rows w id) w,
    )
  ]

  render_all_same :
      (fmt : JournalFormat) (rows : List (ℕ × WorkSchedule)) (w : World)
      → (render_all fmt rows w).1 ≡ w
  unfolding render_all
  render_all_same fmt [] w = refl
  render_all_same fmt ((id, s) ∷ rest) w =
      ground (arith, render_same id fmt none w, render_all_same fmt rest w)

  send_email_same : (email : Email) (w : World) → (send_email email w).1 ≡ w
  unfolding send_email
  send_email_same email w = ground arith

  mail_archive_same :
      (day : ℕ) (recipient : String) (total count : ℕ) (entries : List (String × Bytes)) (w : World)
      → (mail_archive day recipient total count entries w).1 ≡ w
  unfolding mail_archive
  mail_archive_same day recipient total count entries w =
      ground (arith, send_email_same (bulk_email recipient day total count entries) w)

  send_selected_same :
      (day : ℕ) (recipient : String) (fmt : JournalFormat) (rows : List (ℕ × WorkSchedule))
      (w : World)
      → (send_selected day recipient fmt rows w).1 ≡ w
  unfolding send_selected
  send_selected_same day recipient fmt [] w = refl
  send_selected_same day recipient fmt (s ∷ rest) w =
      let rows = take max_bulk_schedules (s ∷ rest) in
      elim (Result-cases (render_all fmt rows w).0) [
        | inl (entries, e) ↦ ground (
          arith,
          render_all_same fmt rows w,
          mail_archive_same day recipient (length (s ∷ rest)) (length rows) entries w,
        )
        | inr (x, e) ↦ ground (arith, render_all_same fmt rows w)
      ]

  -- A bulk mail changes no row, whether it succeeds or raises.
  pub send_same :
      (company_id day : ℕ) (recipient : String) (fmt : JournalFormat) (w : World)
      → (send company_id day recipient fmt w).1 ≡ w
  unfolding send
  send_same company_id day recipient fmt w =
      send_selected_same day recipient fmt (selected w company_id day) w

  mail_archive-count :
      (day : ℕ) (recipient : String) (total count : ℕ) (entries : List (String × Bytes))
      (w w' : World) (r : BulkResult)
      → mail_archive day recipient total count entries w ≡ (ok r, w')
      → (r.count ≡ count) × (r.truncated ≡ ltb max_bulk_schedules total)
  unfolding mail_archive
  mail_archive-count day recipient total count entries w w' r h = (ground (arith), ground (arith))

  send_selected-count :
      (day : ℕ) (recipient : String) (fmt : JournalFormat) (rows : List (ℕ × WorkSchedule))
      (w w' : World) (r : BulkResult)
      → send_selected day recipient fmt rows w ≡ (ok r, w')
      → (r.count ≡ min max_bulk_schedules (length rows))
        × (r.truncated ≡ ltb max_bulk_schedules (length rows))
  unfolding send_selected
  send_selected-count day recipient fmt [] w w' r h = (ground arith, ground arith)
  send_selected-count day recipient fmt (s ∷ rest) w w' r h =
      let rows = take max_bulk_schedules (s ∷ rest) in
      let (entries, w1, a, h1) =
        >>=-eq-ok (render_all fmt rows)
          (mail_archive day recipient (length (s ∷ rest)) (length rows)) w w' r h in
      let (c, t) =
        mail_archive-count day recipient (length (s ∷ rest)) (length rows) entries w1 w' r h1 in
      (c ∙ length-take max_bulk_schedules (s ∷ rest), t)

  pub send-count :
      (company_id day : ℕ) (recipient : String) (fmt : JournalFormat) (w w' : World)
      (r : BulkResult)
      → send company_id day recipient fmt w ≡ (ok r, w')
      → (r.count ≡ min max_bulk_schedules (length (selected w company_id day)))
        × (r.truncated ≡ ltb max_bulk_schedules (length (selected w company_id day)))
  unfolding send
  send-count company_id day recipient fmt w w' r h =
      send_selected-count day recipient fmt (selected w company_id day) w w' r h
