-- ===== src/Journals/Machine.antt =====
-- The life of the bulk mail jobs: requests, and the two steps of the runners, which interleave.
use rooti_server.Base.{
  ℕ, ◌≤◌, ◌≡◌, refl, ◌∙◌, inl, inr, ◌⊎◌, ltb→lt, false, Option, none, some, arith, String, ltb,
  ◌==◌, if◌then◌else◌, is_none, Option-cases, Bool-cases, length,
}
use rooti_server.Exec.{ok, Result-cases}
use rooti_server.Sql.{Sql}
use rooti_server.Redis.{Redis}
use rooti_server.Models.{BulkEmailJob}
use rooti_server.Models.Enums.{JournalFormat, JobStatus, queued, sending, success, failed}
use rooti_server.World.{World}
use rooti_server.Text.{str_length, str_length-str_take-le}
use rooti_server.Journals.{Mailing}
use rooti_server.Journals.Bulk.{BulkResult, max_bulk_schedules, selected, send}
use rooti_server.Journals.Jobs.{
  BulkEmailJobResponse, new_job, started, finished, create_job, mark_sending, complete_job,
}
use rooti_server.Journals.Selection.{send-count}
use rooti_server.Journals.Rows.{create_job-row, mark_sending-row, complete_job-row, outcome}

-- What a row says at each status.
abbrev Fits : JobStatus → BulkEmailJob → Type 0
Fits queued j =
    (j.started_at ≡ none)
    × (j.finished_at ≡ none)
    × (j.schedule_count ≡ 0)
    × (j.message_id ≡ none)
    × (j.error_message ≡ none)
Fits sending j =
    (is_none j.started_at ≡ false)
    × (j.finished_at ≡ none)
    × (j.schedule_count ≡ 0)
    × (j.message_id ≡ none)
    × (j.error_message ≡ none)
Fits success j =
    (is_none j.started_at ≡ false)
    × (is_none j.finished_at ≡ false)
    × (j.error_message ≡ none)
    × (j.schedule_count ≤ max_bulk_schedules)
    × ((j.truncated ≡ false) ⊎ (j.schedule_count ≡ max_bulk_schedules))
Fits failed j =
    (is_none j.started_at ≡ false)
    × (is_none j.finished_at ≡ false)
    × (j.schedule_count ≡ 0)
    × (j.message_id ≡ none)
    × ((text : String) × (j.error_message ≡ some text) × (str_length text ≤ 1000))

abbrev pub IsConsistent : BulkEmailJob → Type 0
IsConsistent j = Fits j.status j

-- How far the task of a job is.
pub data Phase : Type 0 where
  idle waiting active : Phase

abbrev pub set_phase : (ℕ → Phase) → ℕ → Phase → ℕ → Phase
set_phase f id p j = if id == j then p else f j

abbrev pub InPhase : Phase → JobStatus → Type 0
InPhase idle s = Unit
InPhase waiting s = s ≡ queued
InPhase active s = s ≡ sending

module _ ⦃sql : Sql⦄ ⦃redis : Redis⦄ ⦃mailing : Mailing⦄ where
  -- The server: the world, and the tasks that wait or run.
  pub record Server : Type 0 where
    pub world : World
    pub phase : ℕ → Phase

  -- A request commits a job and adds its task; a task marks its job and commits; it completes it
  -- and commits. In between the clock and the other tables change, and a restart loses all tasks.
  pub data Step : Server → Server → Type 0 where
    request :
        (company_id day : ℕ) (recipient : String) (fmt : JournalFormat) (requested_by : Option ℕ)
        (s : Server) (r : BulkEmailJobResponse) (w : World)
        → create_job company_id day recipient fmt requested_by s.world ≡ (ok r, w)
        → Step s (record { world = w; phase = set_phase s.phase r.id waiting })
    mark :
        (id : ℕ) (s : Server)
        → s.phase id ≡ waiting
        → Step s
            (record { world = (mark_sending id s.world).1; phase = set_phase s.phase id active })
    complete :
        (id : ℕ) (s : Server)
        → s.phase id ≡ active
        → Step s (record { world = (complete_job id s.world).1; phase = set_phase s.phase id idle })
    other :
        (s : Server) (w : World)
        → w.bulk_email_jobs ≡ s.world.bulk_email_jobs
        → Step s (record { world = w; phase = s.phase })
    restart : (s : Server) → Step s (record { world = s.world; phase = λ _. idle })

  pub data Steps : Server → Server → Type 0 where
    done : (s : Server) → Steps s s
    then_step : (s t u : Server) → Steps s t → Step t u → Steps s u

  -- A job is consistent, and stands where its task is.
  abbrev pub IsSound : Server → Type 0
  IsSound s =
      (id : ℕ) (job : BulkEmailJob)
      → sql.get id s.world.bulk_email_jobs ≡ some job
      → IsConsistent job × InPhase (s.phase id) job.status

  new_job-IsConsistent :
      (company_id day : ℕ) (recipient : String) (fmt : JournalFormat) (requested_by : Option ℕ)
      → IsConsistent (new_job company_id day recipient fmt requested_by)
  unfolding new_job
  new_job-IsConsistent company_id day recipient fmt requested_by = (refl, refl, refl, refl, refl)

  started-Fits :
      (job : BulkEmailJob) (now : ℕ) (s : JobStatus)
      → s ≡ queued
      → Fits s job
      → IsConsistent (started job now)
  unfolding started
  started-Fits job now queued e (a, b, c, d, g) = (refl, b, c, d, g)
  started-Fits job now sending e h = cc
  started-Fits job now success e h = cc
  started-Fits job now failed e h = cc

  sent_bounded :
      (w : World) (job : BulkEmailJob) (r : BulkResult)
      → outcome w job ≡ ok r
      → (r.count ≤ max_bulk_schedules) × ((r.truncated ≡ false) ⊎ (r.count ≡ max_bulk_schedules))
  sent_bounded w job r e =
      let (c, t) =
        send-count job.company_id job.target_date job.recipient_email job.format w
          (send job.company_id job.target_date job.recipient_email job.format w).1 r
          (ground arith) in
      (
        omega (arith, c),
        elim (Bool-cases
            (ltb max_bulk_schedules (length (selected w job.company_id job.target_date)))) [
              | inl more ↦ inr (omega (arith, c, ltb→lt _ _ more))
              | inr all ↦ inl (t ∙ all)
            ],
      )

  finished-Fits :
      (w : World) (job : BulkEmailJob) (now : ℕ) (s : JobStatus)
      → s ≡ sending
      → Fits s job
      → IsConsistent (finished job (outcome w job) now)
  unfolding finished
  finished-Fits w job now queued e h = cc
  finished-Fits w job now success e h = cc
  finished-Fits w job now failed e h = cc
  finished-Fits w job now sending e (a, b, c, d, g) = elim (Result-cases (outcome w job)) [
    | inl (r, sent) ↦ let (n, t) = sent_bounded w job r sent in rw sent (a, refl, g, n, t)
    | inr (x, raised) ↦
        rw raised (a, refl, c, d, (_, refl, str_length-str_take-le 1000 (mailing.text_of x)))
  ]

  new_job-status :
      (company_id day : ℕ) (recipient : String) (fmt : JournalFormat) (requested_by : Option ℕ)
      → (new_job company_id day recipient fmt requested_by).status ≡ queued
  unfolding new_job
  new_job-status company_id day recipient fmt requested_by = refl

  started-status : (job : BulkEmailJob) (now : ℕ) → (started job now).status ≡ sending
  unfolding started
  started-status job now = refl

  request-IsSound :
      (company_id day : ℕ) (recipient : String) (fmt : JournalFormat) (requested_by : Option ℕ)
      (s : Server) (r : BulkEmailJobResponse) (w : World)
      → create_job company_id day recipient fmt requested_by s.world ≡ (ok r, w)
      → IsSound s
      → IsSound (record { world = w; phase = set_phase s.phase r.id waiting })
  request-IsSound company_id day recipient fmt requested_by s r w h sound id job g =
      let row = create_job-row company_id day recipient fmt requested_by s.world w r id h in
      elim (Bool-cases (r.id == id)) [
        | inl e ↦
            let same : new_job company_id day recipient fmt requested_by ≡ job = ground arith in
            rw (e, ← same)
              (
                new_job-IsConsistent company_id day recipient fmt requested_by,
                new_job-status company_id day recipient fmt requested_by,
              )
        | inr e ↦ rw e (sound id job (ground arith))
      ]

  mark-IsSound :
      (id : ℕ) (s : Server)
      → s.phase id ≡ waiting
      → IsSound s
      → IsSound
          (record { world = (mark_sending id s.world).1; phase = set_phase s.phase id active })
  mark-IsSound id s p sound j job g =
      let row = mark_sending-row id s.world j in
      elim (Bool-cases (id == j)) [
        | inl e ↦ elim (Option-cases (sql.get j s.world.bulk_email_jobs)) [
          | inl gone ↦ ground arith
          | inr (old, found) ↦
              let same : started old s.world.now ≡ job = ground arith in
              let (c, q) = sound j old found in
              let here : id ≡ j = ground arith in
              let was : old.status ≡ queued = rw (← here, p) at q in
              rw (e, ← same)
                (started-Fits old s.world.now old.status was c, started-status old s.world.now)
        ]
        | inr e ↦ rw e (sound j job (ground arith))
      ]

  complete-IsSound :
      (id : ℕ) (s : Server)
      → s.phase id ≡ active
      → IsSound s
      → IsSound (record { world = (complete_job id s.world).1; phase = set_phase s.phase id idle })
  complete-IsSound id s p sound j job g =
      let row = complete_job-row id s.world j in
      elim (Bool-cases (id == j)) [
        | inl e ↦ elim (Option-cases (sql.get j s.world.bulk_email_jobs)) [
          | inl gone ↦ ground arith
          | inr (old, found) ↦
              let same : finished old (outcome s.world old) s.world.now ≡ job = ground arith in
              let (c, q) = sound j old found in
              let here : id ≡ j = ground arith in
              let was : old.status ≡ sending = rw (← here, p) at q in
              rw (e, ← same) (finished-Fits s.world old s.world.now old.status was c, tt)
        ]
        | inr e ↦ rw e (sound j job (ground arith))
      ]

  Step-IsSound : (s t : Server) → Step s t → IsSound s → IsSound t
  Step-IsSound _ _ (request company_id day recipient fmt requested_by s r w h) sound =
      request-IsSound company_id day recipient fmt requested_by s r w h sound
  Step-IsSound _ _ (mark id s p) sound = mark-IsSound id s p sound
  Step-IsSound _ _ (complete id s p) sound = complete-IsSound id s p sound
  Step-IsSound _ _ (other s w same) sound = λ id job g. sound id job (rw (← same) g)
  Step-IsSound _ _ (restart s) sound = λ id job g. ((sound id job g).0, tt)

  Steps-IsSound : (s t : Server) → Steps s t → IsSound s → IsSound t
  Steps-IsSound _ _ (done s) sound = sound
  Steps-IsSound _ _ (then_step s t u before last) sound =
      Step-IsSound t u last (Steps-IsSound s t before sound)

  -- From a server without jobs, however requests, the two steps of the runners, restarts and other
  -- work interleave, every job is consistent with its status: queued and sending rows hold no
  -- result, a success tells at most 300 journals and exactly 300 if some were left out, a failure
  -- has a text of at most 1000 characters and no result; and the row of a task that waits is
  -- queued, of one that runs, sending.
  pub jobs-IsConsistent :
      (s t : Server)
      → ((id : ℕ) → sql.get id s.world.bulk_email_jobs ≡ none)
      → Steps s t
      → (id : ℕ) (job : BulkEmailJob) → sql.get id t.world.bulk_email_jobs ≡ some job
      → IsConsistent job × InPhase (t.phase id) job.status
  jobs-IsConsistent s t empty steps = Steps-IsSound s t steps (λ id job g. cc (empty id))
