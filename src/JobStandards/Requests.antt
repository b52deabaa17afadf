-- ===== src/JobStandards/Requests.antt =====
-- app/schemas/job.py: the requests and the answer on job standards, and the rows they make.
use rooti_server.Base.{
  ℕ, Bool, true, false, ◌||◌, Option, none, some, List, [], ◌∷◌, String, ◌==◌, if◌then◌else◌,
}
use rooti_server.Models.{JobStandard, JobProcess}
use rooti_server.Companies.{given, given_option}

pub record ProcessUpsertRequest : Type 0 where
  pub id : Option ℕ
  pub name : String
  pub sequence : ℕ
  pub video_path : Option String
  pub start_message : Option String
  pub end_message : Option String
  pub context : Option String
  pub process_time_seconds : ℕ

pub record JobStandardCreateRequest : Type 0 where
  pub company_id : ℕ
  pub name : String
  pub routine_start_time : Option ℕ
  pub standard_work_time_seconds : Option ℕ
  pub standard_rest_time_seconds : Option ℕ
  pub start_message : Option String
  pub end_message : Option String
  pub context : Option String
  pub for_journal : Option Bool
  pub processes : List ProcessUpsertRequest

pub record JobStandardUpdateRequest : Type 0 where
  pub name : Option String
  pub routine_start_time : Option ℕ
  pub standard_work_time_seconds : Option ℕ
  pub standard_rest_time_seconds : Option ℕ
  pub start_message : Option String
  pub end_message : Option String
  pub context : Option String
  pub for_journal : Option Bool

-- The rows with their keys; the answer of the API renames two columns.
pub record JobStandardResponse : Type 0 where
  pub id : ℕ
  pub standard : JobStandard
  pub company_name : Option String
  pub processes : List (ℕ × JobProcess)

abbrev pub or_default : {A : Type 0} → Option A → A → A
or_default none d = d
or_default (some a) d = a

unfoldable pub new_standard : JobStandardCreateRequest → JobStandard
new_standard req = record {
  company_id = req.company_id;
  name = req.name;
  use_flag = true;
  routine_start_time = req.routine_start_time;
  standard_work_time = or_default req.standard_work_time_seconds 0;
  standard_rest_time = or_default req.standard_rest_time_seconds 0;
  start_message = req.start_message;
  end_message = req.end_message;
  context = req.context;
  for_journal = or_default req.for_journal false;
}

unfoldable pub changed_standard : JobStandardUpdateRequest → JobStandard → JobStandard
changed_standard req s = record s {
  name = given req.name s.name;
  routine_start_time = given_option req.routine_start_time s.routine_start_time;
  standard_work_time = given req.standard_work_time_seconds s.standard_work_time;
  standard_rest_time = given req.standard_rest_time_seconds s.standard_rest_time;
  start_message = given_option req.start_message s.start_message;
  end_message = given_option req.end_message s.end_message;
  context = given_option req.context s.context;
  for_journal = given req.for_journal s.for_journal;
}

-- The row of a new process, and of one that a request replaces: every column but the key.
unfoldable pub new_process : ℕ → ProcessUpsertRequest → JobProcess
new_process standard_id p = record {
  job_standard_id = standard_id;
  name = p.name;
  sequence = p.sequence;
  video_path = p.video_path;
  start_message = p.start_message;
  end_message = p.end_message;
  context = p.context;
  process_time = p.process_time_seconds;
}

abbrev pub requested : ℕ → List ProcessUpsertRequest → Bool
requested id [] = false
requested id (p ∷ ps) = elim p.id [ none ↦ false | some k ↦ k == id ] || requested id ps

abbrev pub has_id : {R : Type 0} → ℕ → List (ℕ × R) → Bool
has_id id [] = false
has_id id ((k, r) ∷ rows) = k == id || has_id id rows

abbrev pub replace_row : {R : Type 0} → ℕ → R → List (ℕ × R) → List (ℕ × R)
replace_row id r [] = []
replace_row id r ((k, q) ∷ rows) = (k, if k == id then r else q) ∷ replace_row id r rows

abbrev pub is_requested : List ProcessUpsertRequest → ℕ × JobProcess → Bool
is_requested incoming (id, p) = requested id incoming
