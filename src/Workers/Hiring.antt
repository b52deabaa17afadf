-- ===== src/Workers/Hiring.antt =====
-- A worker has one mapping per company, also after being fired.
use rooti_server.Base.{ℕ, ◌≡◌, ◌⊎◌, inl, inr, Bool, true, false, some, arith, is_none, Option-cases}
use rooti_server.Errors.{business, worker_already_hired}
use rooti_server.Exec.{err}
use rooti_server.Sql.{Sql}
use rooti_server.Sql.Query.{first, first-none, NoRow}
use rooti_server.Redis.{Redis}
use rooti_server.Models.{CompanyWorker}
use rooti_server.World.{World}
use rooti_server.Workers.{is_mapping, hire, fire}

module _ ⦃sql : Sql⦄ ⦃redis : Redis⦄ where
  -- A company and a worker share at most one mapping.
  abbrev pub MappedOnce : World → Type 0
  MappedOnce w =
      (company worker j k : ℕ) (r s : CompanyWorker)
      → sql.get j w.company_workers ≡ some r
      → is_mapping company worker j r ≡ true
      → sql.get k w.company_workers ≡ some s
      → is_mapping company worker k s ≡ true
      → j ≡ k

  abbrev pub new_mapping : ℕ → ℕ → CompanyWorker
  new_mapping company worker = record {
    company_id = company;
    challenged_worker_id = worker;
    is_hired = true;
  }

  hire_effect :
      (company worker : ℕ) (w : World)
      → ((hire company worker w).1.company_workers ≡ w.company_workers)
        ⊎ (NoRow (is_mapping company worker) w.company_workers
            × ((key : ℕ) × (sql.insert (new_mapping company worker) w.company_workers
                  ≡ some (key, (hire company worker w).1.company_workers))))
  unfolding hire
  hire_effect company worker w =
      let p = is_mapping company worker in
      elim (Option-cases (first (sql.select p w.company_workers))) [
        | inr (row, e) ↦ inl (ground arith)
        | inl e ↦ elim (Option-cases (sql.insert (new_mapping company worker) w.company_workers)) [
          | inl refused ↦ inl (ground arith)
          | inr (row, accepted) ↦ elim (Option-cases (sql.get company w.companies)) [
            | inl missing ↦ inl (ground arith)
            | inr (c, found) ↦ elim (Option-cases (sql.get worker w.workers)) [
              | inl missing ↦ inl (ground arith)
              | inr (k, there) ↦ elim (Option-cases (sql.get k.user_id w.users)) [
                | inl missing ↦ inl (ground arith)
                | inr (u, known) ↦ inr (first-none p w.company_workers e, (row.0, ground arith))
              ]
            ]
          ]
        ]
      ]

  hire-MappedOnce :
      (company worker : ℕ) (w : World) → MappedOnce w → MappedOnce (hire company worker w).1
  hire-MappedOnce company worker w u = elim (hire_effect company worker w) [
    | inl e ↦ λ c k i j r s gr pr gs ps. u c k i j r s (rw e at gr) pr (rw e at gs) ps
    | inr (free, (key, e)) ↦ λ c k i j r s gr pr gs ps.
        let at = λ (x : ℕ).
          sql.get-insert (new_mapping company worker) w.company_workers key
            (hire company worker w).1.company_workers x e in
        ground (arith, at i, at j, u c k i j r s, free i r, free j s)
  ]

  fire-MappedOnce : (id : ℕ) (w : World) → MappedOnce w → MappedOnce (fire id w).1
  unfolding fire
  fire-MappedOnce id w u c k i j r s gr pr gs ps =
      elim (Option-cases (sql.get id w.company_workers)) [
        | inl missing ↦ ground (arith, u c k i j r s)
        | inr (cw, found) ↦
            let at =
              λ (x : ℕ). sql.get-update id (record cw { is_hired = false }) w.company_workers x in
            ground
              (arith, at i, at j, u c k i j r s, u c k i j cw s, u c k i j r cw, u c k i j cw cw)
      ]

  -- Hiring and firing keep at most one mapping of a worker to a company.
  pub mapped_once :
      (company worker id : ℕ) (w : World)
      → MappedOnce w
      → MappedOnce (hire company worker w).1 × MappedOnce (fire id w).1
  mapped_once company worker id w u = (hire-MappedOnce company worker w u, fire-MappedOnce id w u)

  taken :
      {R : Type 0} (p : ℕ → R → Bool) (t : sql.Table R) (k : ℕ) (r : R)
      → sql.get k t ≡ some r
      → p k r ≡ true
      → is_none (first (sql.select p t)) ≡ false
  taken p t k r found passes = elim (Option-cases (first (sql.select p t))) [
    | inl e ↦ absurd (cc (first-none p t e k r found, passes))
    | inr (row, e) ↦ ground arith
  ]

  -- A worker who was fired cannot be hired again by the company: the mapping stays, and hiring is
  -- refused as a duplicate without a change.
  pub fired_cannot_return :
      (id : ℕ) (cw : CompanyWorker) (w : World)
      → sql.get id w.company_workers ≡ some cw
      → let w' = (fire id w).1 in
        (sql.get id w'.company_workers ≡ some (record cw { is_hired = false }))
        × (hire cw.company_id cw.challenged_worker_id w'
            ≡ (err (business worker_already_hired), w'))
  unfolding fire hire
  fired_cannot_return id cw w found =
      let row = record cw { is_hired = false } in
      let t = sql.update id row w.company_workers in
      let at : sql.get id t ≡ some row =
        ground (arith, sql.get-update id row w.company_workers id) in
      let dup =
        taken (is_mapping cw.company_id cw.challenged_worker_id) t id row at (ground arith) in
      (ground (arith, at), ground (arith, dup))
