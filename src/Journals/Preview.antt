-- ===== src/Journals/Preview.antt =====
-- What the preview of a day shows, beside what the mail of the day sends.
use Prim.Native.Nat.{min}
use rooti_server.Base.{
  ℕ, ◌≡◌, ◌↔◌, refl, sym, ap, ◌∙◌, inl, inr, false, Option, none, some, List, [], ◌∷◌, arith,
  String, length, In, ltb, is_none, Option-cases,
}
use mathlib.Core.Path.{subst}
use rooti_server.Exec.{ok}
use rooti_server.Sql.{Sql, asc}
use rooti_server.Sql.Query.{inner_join, cons_some, In-inner_join, In-inner_join-In}
use rooti_server.Redis.{Redis}
use rooti_server.Models.{WorkSchedule, CompanyWorker, ChallengedWorker}
use rooti_server.Models.Enums.{JournalFormat}
use rooti_server.World.{World}
use rooti_server.Journals.{Mailing}
use rooti_server.Journals.Bulk.{
  BulkResult, BulkPreviewItem, BulkPreviewResponse, max_bulk_schedules, company_row, on_day,
  selected, schedule_start, send, preview_row, preview_items, preview, item_start, item_name,
}
use rooti_server.Journals.Selection.{send-count}

length-cons_some :
    {A B : Type 0} (o : Option A) (p : Option B) (xs : List A) (ys : List B)
    → is_none o ≡ is_none p
    → length xs ≡ length ys
    → length (cons_some o xs) ≡ length (cons_some p ys)
length-cons_some none none xs ys h e = e
length-cons_some none (some b) xs ys h e = cc
length-cons_some (some a) none xs ys h e = cc
length-cons_some (some a) (some b) xs ys h e = ap ℕ.suc e

-- Joins that find a partner for the same rows are equally long.
length-inner_join :
    {A B C : Type 0} (f : A → Option B) (g : A → Option C) (xs : List A)
    → ((a : A) → In a xs → is_none (f a) ≡ is_none (g a))
    → length (inner_join f xs) ≡ length (inner_join g xs)
length-inner_join f g [] h = refl
length-inner_join f g (x ∷ xs) h =
    length-cons_some (f x) (g x) (inner_join f xs) (inner_join g xs) (h x (inl refl))
      (length-inner_join f g xs (λ a m. h a (inr m)))

module _ ⦃sql : Sql⦄ ⦃redis : Redis⦄ where
  -- The foreign keys of the schema that the joins follow: a company worker's worker, a worker's
  -- user and a schedule's job standard exist.
  pub record HasReferences (w : World) : Type 0 where
    pub worker_of :
        (id : ℕ) (cw : CompanyWorker)
        → sql.get id w.company_workers ≡ some cw
        → is_none (sql.get cw.challenged_worker_id w.workers) ≡ false
    pub user_of :
        (id : ℕ) (c : ChallengedWorker)
        → sql.get id w.workers ≡ some c
        → is_none (sql.get c.user_id w.users) ≡ false
    pub standard_of :
        (id : ℕ) (s : WorkSchedule)
        → sql.get id w.schedules ≡ some s
        → is_none (sql.get s.job_standard_id w.job_standards) ≡ false

module _ ⦃sql : Sql⦄ ⦃redis : Redis⦄ ⦃mailing : Mailing⦄ where
  -- A schedule of the table is previewed exactly if the mail selects it, under its own id.
  same_rows :
      (w : World) (company_id id : ℕ) (s : WorkSchedule)
      → HasReferences w
      → sql.get id w.schedules ≡ some s
      → is_none (company_row w company_id (id, s)) ≡ is_none (preview_row w company_id (id, s))
  same_rows w company_id id s refs found =
      elim (Option-cases (sql.get s.job_worker_id w.job_workers)) [
        | inl e ↦ ground arith
        | inr (jw, e) ↦ elim (Option-cases (sql.get jw.company_worker_id w.company_workers)) [
          | inl f ↦ ground arith
          | inr (cw, f) ↦ elim (Option-cases (sql.get cw.challenged_worker_id w.workers)) [
            | inl g ↦ ground (arith, refs.worker_of jw.company_worker_id cw f)
            | inr (c, g) ↦
                ground
                  (arith, refs.user_of cw.challenged_worker_id c g, refs.standard_of id s found)
          ]
        ]
      ]

  length-preview_items :
      (w : World) (company_id day : ℕ)
      → HasReferences w
      → length (preview_items w company_id day) ≡ length (selected w company_id day)
  unfolding preview_items selected
  length-preview_items w company_id day refs =
      sql.length-order_by asc item_name _
      ∙ sql.length-order_by asc item_start _
      ∙ sym (
          length-inner_join (company_row w company_id) (preview_row w company_id)
            (sql.select (on_day day) w.schedules)
            (λ (id, s) m.
              same_rows w company_id id s refs
                (sql.select_sound (on_day day) w.schedules id s m).0))
      ∙ sym (sql.length-order_by asc schedule_start _)

  preview_row_lem :
      (w : World) (company_id id : ℕ) (s : WorkSchedule) (item : BulkPreviewItem)
      → preview_row w company_id (id, s) ≡ some item
      → (item.schedule_id ≡ id) × (company_row w company_id (id, s) ≡ some (id, s))
  preview_row_lem w company_id id s item h = (ground arith, ground arith)

  company_row-same :
      (w : World) (company_id : ℕ) (a b : ℕ × WorkSchedule)
      → company_row w company_id a ≡ some b
      → a ≡ b
  company_row-same w company_id (id, s) b h = ground arith

  previewed-selected :
      (w : World) (company_id day : ℕ) (item : BulkPreviewItem)
      → In item (preview_items w company_id day)
      → (s : WorkSchedule) × In (item.schedule_id, s) (selected w company_id day)
  unfolding preview_items selected
  previewed-selected w company_id day item m =
      let rows = sql.select (on_day day) w.schedules in
      let ((id, s), k, e) =
        In-inner_join (preview_row w company_id) rows item
          (sql.In-order_by asc item_start _ item (sql.In-order_by asc item_name _ item m)) in
      let (same, row) = preview_row_lem w company_id id s item e in
      (
        s,
        subst (λ i. In (i, s) (selected w company_id day)) (sym same)
            (sql.In_order_by_In asc schedule_start _ (id, s)
              (In-inner_join-In (company_row w company_id) rows (id, s) (id, s) k row)),
      )

  selected-previewed :
      (w : World) (company_id day id : ℕ) (s : WorkSchedule)
      → HasReferences w
      → In (id, s) (selected w company_id day)
      → (item : BulkPreviewItem) × In item (preview_items w company_id day)
        × (item.schedule_id ≡ id)
  unfolding preview_items selected
  selected-previewed w company_id day id s refs m =
      let rows = sql.select (on_day day) w.schedules in
      let (a, k, e) =
        In-inner_join (company_row w company_id) rows (id, s)
          (sql.In-order_by asc schedule_start _ (id, s) m) in
      let same : a ≡ (id, s) = company_row-same w company_id a (id, s) e in
      let here : In (id, s) rows = subst (λ x. In x rows) same k in
      let found = (sql.select_sound (on_day day) w.schedules id s here).0 in
      let row : company_row w company_id (id, s) ≡ some (id, s) =
        subst (λ x. company_row w company_id x ≡ some (id, s)) same e in
      elim (Option-cases (preview_row w company_id (id, s))) [
        | inl gone ↦ cc (same_rows w company_id id s refs found)
        | inr (item, shown) ↦ (
          item,
          sql.In_order_by_In asc item_name _ item (
              sql.In_order_by_In asc item_start _ item
                (In-inner_join-In (preview_row w company_id) rows (id, s) item here shown)),
          (preview_row_lem w company_id id s item shown).0,
        )
      ]

  preview-items :
      (company_id day : ℕ) (w w' : World) (p : BulkPreviewResponse)
      → preview company_id day w ≡ (ok p, w')
      → (p.items ≡ preview_items w company_id day)
        × (p.journal_count ≡ length (preview_items w company_id day))
  unfolding preview
  preview-items company_id day w w' p h = (ground arith, ground arith)

  -- While the references of workers, users and job standards hold, the preview of a company's day
  -- agrees with its mail: the previewed schedules are exactly the selected ones, and a mail that
  -- succeeds counts the smaller of 300 and the previewed number, and says that it left some out
  -- exactly if that number is over 300.
  pub preview-send :
      (company_id day : ℕ) (recipient : String) (fmt : JournalFormat) (w w' w'' : World)
      (p : BulkPreviewResponse) (r : BulkResult) (id : ℕ)
      → HasReferences w
      → preview company_id day w ≡ (ok p, w')
      → send company_id day recipient fmt w ≡ (ok r, w'')
      → (((item : BulkPreviewItem) × In item p.items × (item.schedule_id ≡ id))
          ↔ ((s : WorkSchedule) × In (id, s) (selected w company_id day)))
        × (r.count ≡ min max_bulk_schedules p.journal_count)
        × (r.truncated ≡ ltb max_bulk_schedules p.journal_count)
  preview-send company_id day recipient fmt w w' w'' p r id refs shown sent =
      let (items, number) = preview-items company_id day w w' p shown in
      let (count, truncated) = send-count company_id day recipient fmt w w'' r sent in
      let long = number ∙ length-preview_items w company_id day refs in
      rw (items, long)
        (
          (
            (λ (item, m, e).
                let (s, k) = previewed-selected w company_id day item m in (s, rw (← e) k)),
            (λ (s, m). selected-previewed w company_id day id s refs m),
          ),
          count,
          truncated,
        )
