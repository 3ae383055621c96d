-- ===== src/Session/Store/Leases.antt =====
-- internal/session/memory_store.go: how long a claimed job is its worker's alone.
use fluentwork_backend.Session.Types.{Job, default_job_lease}
use fluentwork_backend.Session.Store.Defs.{MemoryStore}
use fluentwork_backend.Session.Store.Jobs.{
  is_claimable, claimable_at, claimed, claim_next_job, enqueue_job, finish_job, is_processing,
  complete_job, fail_job, failed_job,
}
use fluentwork_backend.Session.Store.Users.{
  reassign_user, soft_delete_for_user, restore_deleted_for_user,
}
use fluentwork_backend.Session.Store.Calls.{
  StoreCall, creates, issues, opens, consumes, activates, ends, reviews, reviews_with_cost,
  evaluates, enqueues, claims, completes, fails, reassigns, soft_deletes, restores, terminal,
  store_call, store_calls,
}
use fluentwork_backend.Session.Store.Rows.{
  create_session-jobs, create_ticket-jobs, create_session_with_ticket-jobs, consume_ticket-jobs,
  mark_session_active-jobs, end_session-jobs, mark_session_reviewed-jobs,
  mark_session_reviewed_with_cost-jobs, save_utterance_eval-jobs,
}
use fluentwork_backend.Session.Store.Claims.{IsOutbox, claim_next_job_lem}
use fluentwork_backend.Base.{
  ℕ, ◌+◌, ◌<◌, String, ◌≡◌, refl, sym, ap, ◌∙◌, subst, inl, inr, Bool, true, false, not, some, List,
  [], ◌∷◌, arith, str_eq, eq_iff, ltb, is_some, Bool-cases, Option-cases, ℤ, All, Dict, lookup,
  insert, lookup-insert, lookup-insert_self, insert-HasKeysOnce, ok, insert-HasKeysOnce,
  lookup-insert, insert-HasKeysOnce,
}

abbrev IsNamed : String × Job → Type 0
IsNamed e = str_eq e.0 "" ≡ false

insert-All :
    (key : String) (job : Job) (jobs : Dict Job)
    → str_eq key "" ≡ false
    → All IsNamed jobs
    → All IsNamed (insert key job jobs)
unfolding insert
insert-All key job [] name h = (name, tt)
insert-All key job ((other, old) ∷ jobs) name (first, h) = elim (Bool-cases (str_eq other key)) [
  | inl e ↦ rw (e, insert) (name, h)
  | inr e ↦ rw (e, insert) (first, insert-All key job jobs name h)
]

lookup-named :
    (key : String) (job : Job) (jobs : Dict Job)
    → All IsNamed jobs
    → lookup key jobs ≡ some job
    → str_eq key "" ≡ false
unfolding lookup
lookup-named key job [] h e = cc
lookup-named key job ((other, old) ∷ jobs) (first, h) e = elim (Bool-cases (str_eq other key)) [
  | inl same ↦ rw ((eq_iff other key).0 same) at first
  | inr differ ↦ lookup-named key job jobs h (rw differ at e)
]

-- A job that is written under its own nonempty id keeps the outbox one.
insert-IsOutbox :
    (key : String) (job : Job) (jobs : Dict Job)
    → job.id ≡ key
    → str_eq key "" ≡ false
    → IsOutbox jobs
    → IsOutbox (insert key job jobs)
insert-IsOutbox key job jobs own name h = record {
  once = insert-HasKeysOnce key job jobs h.once;
  keyed = keyed;
  named = insert-All key job jobs name h.named;
}
  where
    written : (id : String) → str_eq key id ≡ true → lookup id (insert key job jobs) ≡ some job
    written id k = lookup-insert key id job jobs ∙ (rw k refl)

    keyed :
        (id : String) (found : Job) → lookup id (insert key job jobs) ≡ some found → found.id ≡ id
    keyed id found l = elim (Bool-cases (str_eq key id)) [
      | inl k ↦ cc (sym (written id k) ∙ l, own, (eq_iff key id).0 k)
      | inr k ↦ h.keyed id found (sym (lookup-insert key id job jobs ∙ (rw k refl)) ∙ l)
    ]

-- A claimed job may not be claimed again while its lease runs.
claimed_leased :
    (worker_id : String) (at later : ℕ) (job : Job)
    → later < at + default_job_lease
    → is_claimable later (claimed worker_id at job) ≡ false
unfolding claimable_at
claimed_leased worker_id at later job h = ground arith

-- What a claim that hands out a job does, on an outbox.
abbrev Claims : String → ℕ → MemoryStore → Job → MemoryStore → Type 0
Claims worker_id at s job t =
    (id : String) × (old : Job) × (lookup id s.jobs ≡ some old)
    × (is_claimable at old ≡ true)
    × (job ≡ claimed worker_id at old)
    × (t.jobs ≡ insert id job s.jobs)

claim_next_job-Claims :
    (worker_id : String) (at : ℕ) (s : MemoryStore) (job : Job)
    → IsOutbox s.jobs
    → (claim_next_job worker_id at s).0 ≡ ok job
    → Claims worker_id at s job (claim_next_job worker_id at s).1
claim_next_job-Claims worker_id at s job outbox h =
    elim (claim_next_job_lem worker_id at s outbox) [
      | inl (e, _) ↦ absurd (cc (h, ap (λ x. x.0) e))
      | inr (id, old, found, may, _, e) ↦ (
        id,
        old,
        found,
        may,
        cc (h, ap (λ x. x.0) e),
        cc (h, ap (λ x. x.0) e, ap (λ x. x.1.jobs) e),
      )
    ]

-- The outbox is one, and holds this job under this id.
abbrev Holds : String → Job → Dict Job → Type 0
Holds id job jobs = IsOutbox jobs × (lookup id jobs ≡ some job)

-- Another job may be written.
insert-Holds :
    (id key : String) (job new_job : Job) (jobs after : Dict Job)
    → Holds id job jobs
    → after ≡ insert key new_job jobs
    → new_job.id ≡ key
    → str_eq key "" ≡ false
    → str_eq key id ≡ false
    → Holds id job after
insert-Holds id key job new_job jobs after (outbox, found) written own name apart = (
  subst IsOutbox (sym written) (insert-IsOutbox key new_job jobs own name outbox),
  ap (lookup id) written ∙ (lookup-insert key id new_job jobs ∙ (rw apart found)),
)

same-Holds :
    (id : String) (job : Job) (jobs after : Dict Job)
    → after ≡ jobs
    → Holds id job jobs
    → Holds id job after
same-Holds id job jobs after same (outbox, found) =
    (subst IsOutbox (sym same) outbox, ap (lookup id) same ∙ found)

-- A job that may be claimed is not one that is leased.
not_claimed :
    (id key : String) (at : ℕ) (job old : Job) (jobs : Dict Job)
    → lookup id jobs ≡ some job
    → is_claimable at job ≡ false
    → lookup key jobs ≡ some old
    → is_claimable at old ≡ true
    → str_eq key id ≡ false
not_claimed id key at job old jobs found leased held may = elim (Bool-cases (str_eq key id)) [
  | inr apart ↦ apart
  | inl k ↦
      let key_is : key ≡ id = (eq_iff key id).0 k in
      let same : job ≡ old = cc (found, held, key_is) in absurd (cc (leased, may, same))
]

claim_next_job-Holds :
    (id worker_id : String) (at : ℕ) (job : Job) (s : MemoryStore)
    → is_claimable at job ≡ false
    → Holds id job s.jobs
    → Holds id job (claim_next_job worker_id at s).1.jobs
claim_next_job-Holds id worker_id at job s leased h = elim (claim_next_job_lem worker_id at s h.0) [
  | inl (e, idle) ↦ same-Holds id job s.jobs _ (ap (λ x. x.1.jobs) e) h
  | inr (key, old, held, may, least, e) ↦
      insert-Holds id key job (claimed worker_id at old) s.jobs _ h (ap (λ x. x.1.jobs) e)
        (h.0.keyed key old held) (lookup-named key old s.jobs h.0.named held)
        (not_claimed id key at job old s.jobs h.1 leased held may)
]

enqueue_job-Holds :
    (id : String) (job new_job : Job) (s : MemoryStore)
    → str_eq new_job.id "" ≡ false
    → Holds id job s.jobs
    → Holds id job (enqueue_job new_job s).1.jobs
unfolding enqueue_job
enqueue_job-Holds id job new_job s name h = elim (Bool-cases (is_some (lookup new_job.id s.jobs))) [
  | inl taken ↦ rw taken h
  | inr free ↦
      rw free (insert-Holds id new_job.id job new_job s.jobs _ h refl refl name (fresh free))
]
  where
    fresh : is_some (lookup new_job.id s.jobs) ≡ false → str_eq new_job.id id ≡ false
    fresh free = elim (Bool-cases (str_eq new_job.id id)) [
      | inr apart ↦ apart
      | inl k ↦
          let same : new_job.id ≡ id = (eq_iff new_job.id id).0 k in
          absurd (cc (rw (same, h.1) at free))
    ]

finish_job-Holds :
    (id key : String) (change : Job → Job) (job : Job) (s : MemoryStore)
    → ((old : Job) → (change old).id ≡ old.id)
    → str_eq key id ≡ false
    → Holds id job s.jobs
    → Holds id job (finish_job key change s).1.jobs
finish_job-Holds id key change job s keeps apart h = elim (Option-cases (lookup key s.jobs)) [
  | inl missing ↦ rw (finish_job, missing) h
  | inr (old, held) ↦ elim (Bool-cases (is_processing old.status)) [
    | inr idle ↦ rw (finish_job, held, idle) h
    | inl busy ↦
        rw (finish_job, held, busy)
          (insert-Holds id key job (change old) s.jobs _ h refl (keeps old ∙ h.0.keyed key old held)
            (lookup-named key old s.jobs h.0.named held) apart)
  ]
]

-- Whether a call is none that could end a lease: no CompleteJob or FailJob of the job, no claim from the end of the
-- lease on, and no job without an id.
abbrev pub leaves_lease : String → ℕ → StoreCall → Bool
leaves_lease id deadline (enqueues job) = not (str_eq job.id "")
leaves_lease id deadline (claims worker_id at) = ltb at deadline
leaves_lease id deadline (completes job_id at) = not (str_eq job_id id)
leaves_lease id deadline (fails job_id at err_msg delay) = not (str_eq job_id id)
leaves_lease id deadline _ = true

not-true : (b : Bool) → not b ≡ true → b ≡ false
not-true b h = ground arith

failed_job-id :
    (at : ℕ) (err_msg : String) (delay : ℤ) (old : Job)
    → (failed_job at err_msg delay old).id ≡ old.id
failed_job-id at err_msg delay old = ground arith

module _ (id : String) (job : Job) (deadline : ℕ)
    (leased : (at : ℕ) → at < deadline → is_claimable at job ≡ false) where
  store_call-Holds :
      (c : StoreCall) (s : MemoryStore)
      → leaves_lease id deadline c ≡ true
      → Holds id job s.jobs
      → Holds id job (store_call c s).jobs
  unfolding store_call complete_job fail_job reassign_user soft_delete_for_user
      restore_deleted_for_user
  store_call-Holds (enqueues new_job) s ok_call h =
      enqueue_job-Holds id job new_job s (not-true (str_eq new_job.id "") ok_call) h
  store_call-Holds (claims worker_id at) s ok_call h =
      claim_next_job-Holds id worker_id at job s (leased at (ground (arith, ok_call))) h
  store_call-Holds (completes job_id at) s ok_call h =
      finish_job-Holds id job_id _ job s (λ old. refl) (not-true (str_eq job_id id) ok_call) h
  store_call-Holds (fails job_id at err_msg delay) s ok_call h =
      finish_job-Holds id job_id _ job s (failed_job-id at err_msg delay)
        (not-true (str_eq job_id id) ok_call) h
  store_call-Holds (creates session) s ok_call h =
      same-Holds id job s.jobs _ (create_session-jobs session s) h
  store_call-Holds (issues ticket) s ok_call h =
      same-Holds id job s.jobs _ (create_ticket-jobs ticket s) h
  store_call-Holds (opens session ticket) s ok_call h =
      same-Holds id job s.jobs _ (create_session_with_ticket-jobs session ticket s) h
  store_call-Holds (consumes hash at) s ok_call h =
      same-Holds id job s.jobs _ (consume_ticket-jobs hash at s) h
  store_call-Holds (activates session_id at) s ok_call h =
      same-Holds id job s.jobs _ (mark_session_active-jobs session_id at s) h
  store_call-Holds (ends session_id abandon duration utterances events at log) s ok_call h =
      same-Holds id job s.jobs _
        (end_session-jobs session_id (terminal abandon) duration utterances events at log s) h
  store_call-Holds (reviews session_id review_json at) s ok_call h =
      same-Holds id job s.jobs _ (mark_session_reviewed-jobs session_id review_json at s) h
  store_call-Holds (reviews_with_cost session_id review_json at log) s ok_call h =
      same-Holds id job s.jobs _
        (mark_session_reviewed_with_cost-jobs session_id review_json at log s) h
  store_call-Holds (evaluates utterance_id eval_json) s ok_call h =
      same-Holds id job s.jobs _ (save_utterance_eval-jobs utterance_id eval_json s) h
  store_call-Holds (reassigns from_user_id to_user_id now) s ok_call h = h
  store_call-Holds (soft_deletes user_id at) s ok_call h = h
  store_call-Holds (restores user_id) s ok_call h = h

  store_calls-Holds :
      (cs : List StoreCall) (s : MemoryStore)
      → All (λ c. leaves_lease id deadline c ≡ true) cs
      → Holds id job s.jobs
      → Holds id job (store_calls cs s).jobs
  unfolding store_calls
  store_calls-Holds [] s ok_calls h = h
  store_calls-Holds (c ∷ cs) s ok_calls h =
      store_calls-Holds cs (store_call c s) ok_calls.1 (store_call-Holds c s ok_calls.0 h)

-- A claim that hands out a job leaves it in the outbox as it was handed out.
claimed-Holds :
    (worker_id : String) (at : ℕ) (s : MemoryStore) (job : Job)
    → IsOutbox s.jobs
    → (claim_next_job worker_id at s).0 ≡ ok job
    → Holds job.id job (claim_next_job worker_id at s).1.jobs
      × ((later : ℕ) → later < at + default_job_lease → is_claimable later job ≡ false)
claimed-Holds worker_id at s job outbox h =
    let t = (claim_next_job worker_id at s).1 in
    let (id, old, found, may, same, written) = claim_next_job-Claims worker_id at s job outbox h in
    let own : job.id ≡ id = ap (λ x. x.id) same ∙ outbox.keyed id old found in
    let stored : Holds id job t.jobs = (
      subst IsOutbox (sym written) (
          insert-IsOutbox id job s.jobs own (lookup-named id old s.jobs outbox.named found) outbox),
      ap (lookup id) written ∙ lookup-insert_self id job s.jobs,
    ) in
    (
      subst (λ name. Holds name job t.jobs) (sym own) stored,
      λ later early. ap (is_claimable later) same ∙ claimed_leased worker_id at later old early,
    )

-- On an outbox, once a worker has claimed a job, and whatever calls of the store follow, with claims by any workers
-- before the end of the lease, but no CompleteJob or FailJob of this job and no job entered without an id: the job
-- stands as it was handed out, and a claim by any worker before the end of the lease does not hand it out.
pub claim_next_job-leases :
    (worker_id rival_id : String) (at later : ℕ) (s : MemoryStore) (job other : Job)
    (cs : List StoreCall)
    → IsOutbox s.jobs
    → (claim_next_job worker_id at s).0 ≡ ok job
    → All (λ c. leaves_lease job.id (at + default_job_lease) c ≡ true) cs
    → later < at + default_job_lease
    → (claim_next_job rival_id later (store_calls cs (claim_next_job worker_id at s).1)).0
      ≡ ok other
    → (lookup job.id (store_calls cs (claim_next_job worker_id at s).1).jobs ≡ some job)
      × (str_eq other.id job.id ≡ false)
claim_next_job-leases worker_id rival_id at later s job other cs outbox claim calls early rivals =
    let (first, leased) = claimed-Holds worker_id at s job outbox claim in
    let t = store_calls cs (claim_next_job worker_id at s).1 in
    let (after, found) =
      store_calls-Holds job.id job (at + default_job_lease) leased cs
        (claim_next_job worker_id at s).1 calls first in
    let (key, old, held, may, same, written) =
      claim_next_job-Claims rival_id later t other after rivals in
    let own : other.id ≡ key = ap (λ x. x.id) same ∙ after.keyed key old held in
    (
      found,
      rw own (not_claimed job.id key later job old t.jobs found (leased later early) held may),
    )
