-- ===== src/Session/Store/Jobs.antt =====
-- internal/session/memory_store.go: the outbox of review jobs.
use fluentwork_backend.Session.Types.{
  Job, JobStatus, pending, processing, done, failed, JobType, job_type_eq, job_status_eq,
  max_job_attempts, default_job_lease,
}
use fluentwork_backend.Session.Store.Defs.{
  MemoryStore, StoreError, not_found, conflict, duplicate_job,
}
use fluentwork_backend.Base.{
  ℕ, ◌+◌, String, Bool, true, false, ◌&&◌, ◌||◌, none, some, List, [], ◌∷◌, str_eq, ltb, leb, ◌==◌,
  if◌then◌else◌, is_some, ℤ, any, str_lt, Dict, lookup, insert, values, add_time, Result, ok, err,
}

-- `EnqueueJob`
unfoldable pub enqueue_job : Job → MemoryStore → Result StoreError (Unit {0}) × MemoryStore
enqueue_job job s =
    if is_some (lookup job.id s.jobs)
    then (err duplicate_job, s)
    else (ok tt, record s { jobs = insert job.id job s.jobs })

abbrev pub is_job_of : String → JobType → List JobStatus → Job → Bool
is_job_of session_id job_type statuses job =
    str_eq job.session_id session_id
    && job_type_eq job.job_type job_type
    && any (job_status_eq job.status) statuses

-- `HasSessionJob`
unfoldable pub has_session_job : String → JobType → List JobStatus → MemoryStore → Bool
has_session_job session_id job_type statuses s =
    any (is_job_of session_id job_type statuses) (values s.jobs)

-- The `switch` of `ClaimNextJob`: a pending job that is due, or a processing one whose lease has run
-- out. `LockedAt.After(at - lease)` is written without the subtraction.
unfoldable pub claimable_at : JobStatus → ℕ → Job → Bool
claimable_at pending at job = leb job.available_at at
claimable_at processing at job = elim job.locked_at [
  | none ↦ false
  | some locked_at ↦ leb (locked_at + default_job_lease) at
]
claimable_at _ at job = false

abbrev pub is_claimable : ℕ → Job → Bool
is_claimable at job = claimable_at job.status at job

-- An older job, or one as old with a smaller id.
unfoldable pub is_before : Job → Job → Bool
is_before a b = ltb a.created_at b.created_at || a.created_at == b.created_at && str_lt a.id b.id

-- Go's zero `Job`.
abbrev pub zero_job : Job
zero_job = record {
  id = "";
  session_id = "";
  job_type = JobType.other "";
  status = JobStatus.other "";
  attempts = 0;
  available_at = 0;
  locked_at = none;
  locked_by = none;
  last_error = none;
  created_at = 0;
  updated_at = 0;
}

-- The body of the loop of `ClaimNextJob`: an entry of the map against the selected id, "" for none
-- yet, and the selected job.
unfoldable pub better : ℕ → String × Job → String × Job → String × Job
unfolding claimable_at is_before
better at (id, job) (selected_id, selected) =
    if is_claimable at job && (str_eq selected_id "" || is_before job selected)
    then (id, job)
    else (selected_id, selected)

-- The loop of `ClaimNextJob`.
unfoldable pub select_job : ℕ → Dict Job → String × Job → String × Job
select_job at [] selected = selected
select_job at (e ∷ rest) selected = select_job at rest (better at e selected)

-- The claimed job.
abbrev pub claimed : String → ℕ → Job → Job
claimed worker_id at job = record job {
  status = processing;
  attempts = job.attempts + 1;
  locked_at = some at;
  locked_by = some worker_id;
  updated_at = at;
}

-- `ClaimNextJob`
unfoldable pub claim_next_job : String → ℕ → MemoryStore → Result StoreError Job × MemoryStore
unfolding better select_job
claim_next_job worker_id at s =
    let (selected_id, selected) = select_job at s.jobs ("", zero_job) in
    if str_eq selected_id "" then (err not_found, s) else (
      ok (claimed worker_id at selected),
      record s { jobs = insert selected_id (claimed worker_id at selected) s.jobs },
    )

abbrev pub is_processing : JobStatus → Bool
is_processing processing = true
is_processing _ = false

-- The guard and the write of `CompleteJob` and `FailJob`.
abbrev pub finish_job :
    String → (Job → Job) → MemoryStore → Result StoreError (Unit {0}) × MemoryStore
finish_job job_id change s = elim (lookup job_id s.jobs) [
  | none ↦ (err not_found, s)
  | some job ↦
      if is_processing job.status
      then (ok tt, record s { jobs = insert job_id (change job) s.jobs })
      else (err conflict, s)
]

-- `CompleteJob`
unfoldable pub complete_job : String → ℕ → MemoryStore → Result StoreError (Unit {0}) × MemoryStore
complete_job job_id at =
    finish_job job_id
      λ job. record job { status = done; locked_at = none; locked_by = none; updated_at = at }

abbrev pub failed_job : ℕ → String → ℤ → Job → Job
failed_job at err_msg retry_delay job =
    if ltb job.attempts max_job_attempts
    then record job {
      last_error = some err_msg;
      locked_at = none;
      locked_by = none;
      updated_at = at;
      status = pending;
      available_at = add_time at retry_delay;
    }
    else record job {
      last_error = some err_msg;
      locked_at = none;
      locked_by = none;
      updated_at = at;
      status = failed;
    }

-- `FailJob`
unfoldable pub fail_job :
    String → ℕ → String → ℤ → MemoryStore → Result StoreError (Unit {0}) × MemoryStore
fail_job job_id at err_msg retry_delay = finish_job job_id (failed_job at err_msg retry_delay)
