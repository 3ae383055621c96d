-- ===== src/Examples/Session.antt =====
-- internal/session: its store at concrete inputs.
use fluentwork_backend.Base.{
  String, ◌≡◌, refl, ◌⊎◌, false, none, some, List, [], ◌∷◌, arith, str_eq, eq_iff, pos, All, str_lt,
  lookup, insert, HasKeysOnce, ok, err,
}
use fluentwork_backend.Session.Types.{
  Session, created, abandoned, Ticket, Job, pending, session_finished,
}
use fluentwork_backend.Session.Store.Leases.{claim_next_job-leases}
use fluentwork_backend.Session.Store.{
  better, select_job, claimable_at, is_before, MemoryStore, ticket_used, not_found, consume_ticket,
  claimed, claim_next_job, StoreCall, activates, fails, ends, consumes, reviews, store_calls,
  store_call, mark_session_active, activate_at, fail_job,
}
use fluentwork_backend.Session.Store.Course.{KeepsCourse}
use fluentwork_backend.Session.Store.Lifecycle.{store_calls-KeepsCourse}
use fluentwork_backend.Session.Store.Tickets.{consume_ticket-once}
use fluentwork_backend.Session.Store.Claims.{
  IsOutbox, IsDue, IsFirstOf, leased_to, claim_next_job-IsLeast,
}

abbrev talk : Session
talk = record {
  id = "s1";
  user_id = "anna";
  material_id = none;
  scene_type = "demo";
  session_length = "standard";
  status = created;
  duration_sec = pos 0;
  review_json = "";
  created_at = 10;
  updated_at = 10;
  deleted_at = none;
}

abbrev pass : Ticket
pass = record {
  id = "k1";
  session_id = "s1";
  user_id = "anna";
  hash = "h1";
  expires_at = 70;
  used_at = none;
  created_at = 10;
}

abbrev work : Job
work = record {
  id = "j1";
  session_id = "s1";
  job_type = session_finished;
  status = pending;
  attempts = 0;
  available_at = 20;
  locked_at = none;
  locked_by = none;
  last_error = none;
  created_at = 20;
  updated_at = 20;
}

abbrev opened : MemoryStore
opened = record {
  sessions = ("s1", talk) ∷ [];
  tickets = ("h1", pass) ∷ [];
  utterances = [];
  jobs = ("j1", work) ∷ ("j0", record work { id = "j0"; created_at = 15 }) ∷ [];
  cost_logs = [];
  rescue_events = [];
}

abbrev a_life : List StoreCall
a_life =
    activates "s1" 30
    ∷ ends "s1" false (pos 60) [] [] 90 none
    ∷ reviews "s1" "{}" 95
    ∷ consumes "h1" 96
    ∷ []

consume_ticket-once_example :
    let t = store_calls a_life (consume_ticket "h1" 20 opened).1 in
    consume_ticket "h1" 60 t ≡ (err ticket_used, t)
consume_ticket-once_example =
    consume_ticket-once "h1" 20 60 opened (record pass { used_at = some 20 }) a_life
      (unfold consume_ticket lookup in refl)

store_calls-KeepsCourse_example : KeepsCourse opened.sessions (store_calls a_life opened).sessions
store_calls-KeepsCourse_example = store_calls-KeepsCourse a_life opened

-- The session, abandoned.
abbrev left : MemoryStore
left = record opened { sessions = ("s1", record talk { status = abandoned }) ∷ [] }

opened_keyed : (id : String) (job : Job) → lookup id opened.jobs ≡ some job → job.id ≡ id
unfolding lookup
opened_keyed id job h = ground (arith, eq_iff "j1" id, eq_iff "j0" id)

opened-IsOutbox : IsOutbox opened.jobs
opened-IsOutbox = record {
  once = unfold HasKeysOnce lookup in (refl, (refl, tt));
  keyed = opened_keyed;
  named = (refl, (refl, tt));
}

claim_next_job-IsLeast_example :
    ((claim_next_job "w1" 30 opened ≡ (err not_found, opened))
      × All (λ e. ¬ IsDue 30 e.1) opened.jobs)
    ⊎ ((id : String) × (job : Job) × (lookup id opened.jobs ≡ some job)
        × IsDue 30 job
        × All (λ e. IsDue 30 e.1 → IsFirstOf job e.1) opened.jobs
        × (claim_next_job "w1" 30 opened ≡ (
          ok (leased_to "w1" 30 job),
          record opened { jobs = insert id (leased_to "w1" 30 job) opened.jobs },
        )))
claim_next_job-IsLeast_example = claim_next_job-IsLeast "w1" 30 opened opened-IsOutbox

-- Between the two claims the session is activated, and a third worker reports a job that it does not hold.
abbrev between : List StoreCall
between = activates "s1" 32 ∷ fails "j1" 35 "down" (pos 0) ∷ []

claim_next_job-leases_example :
    (lookup "j0" (store_calls between (claim_next_job "w1" 30 opened).1).jobs
      ≡ some (claimed "w1" 30 (record work { id = "j0"; created_at = 15 })))
    × (str_eq "j1" "j0" ≡ false)
claim_next_job-leases_example =
    claim_next_job-leases "w1" "w2" 30 40 opened
      (claimed "w1" 30 (record work { id = "j0"; created_at = 15 })) (claimed "w2" 40 work) between
      opened-IsOutbox
      (unfold claim_next_job better select_job claimable_at is_before str_lt insert in refl)
      (refl, (refl, tt)) (omega arith)
      (unfold claim_next_job better select_job claimable_at is_before str_lt insert store_calls
          store_call mark_session_active activate_at fail_job lookup in
        refl)
