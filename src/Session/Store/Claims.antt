-- ===== src/Session/Store/Claims.antt =====
-- internal/session/memory_store.go: which job `ClaimNextJob` hands to a worker.
use fluentwork_backend.Session.Types.{
  Job, JobStatus, pending, processing, done, failed, default_job_lease,
}
use fluentwork_backend.Session.Store.Defs.{MemoryStore, not_found}
use fluentwork_backend.Session.Store.Jobs.{
  is_claimable, claimable_at, is_before, select_job, better, claimed, claim_next_job, zero_job,
}
use fluentwork_backend.Base.{
  ℕ, suc, ◌+◌, ◌≤◌, ◌<◌, String, ◌≡◌, refl, sym, ap, ◌∙◌, ◌↔◌, ◌⊎◌, inl, inr, Bool, true, false,
  ◌&&◌, ◌||◌, some, [], ◌∷◌, arith, str_eq, eq_iff, eq_refl, if◌then◌else◌, is_some, Bool-cases,
  Option-cases, All, All-mono, str_lt, Dict, lookup, insert, HasKeysOnce, str_lt_trans,
  str_lt_irrefl, ok, err, str_lt_cotrans,
}

-- The jobs as the outbox holds them: one row to a key, each under its own id, which is not empty.
pub record IsOutbox (jobs : Dict Job) : Type 0 where
  pub once : HasKeysOnce jobs
  pub keyed : (id : String) (job : Job) → lookup id jobs ≡ some job → job.id ≡ id
  pub named : All (λ e. str_eq e.0 "" ≡ false) jobs

is_before_trans : (a b c : Job) → is_before a b ≡ true → is_before b c ≡ true → is_before a c ≡ true
unfolding is_before
is_before_trans a b c h k = ground (arith, str_lt_trans a.id b.id c.id)

is_before_cotrans : (a b c : Job) → is_before a c ≡ true → (is_before a b || is_before b c) ≡ true
unfolding is_before
is_before_cotrans a b c h = ground (arith, str_lt_cotrans a.id b.id c.id)

is_before_irrefl : (a : Job) → is_before a a ≡ false
unfolding is_before
is_before_irrefl a = ground (arith, str_lt_irrefl a.id)

-- No claimable job among these comes before the one given.
abbrev pub IsLeast : ℕ → Job → Dict Job → Type 0
IsLeast at job = All (λ e. is_claimable at e.1 ≡ true → is_before e.1 job ≡ false)

-- What the loop ends with, from a selected job: one that no earlier candidate comes before.
abbrev Selects : ℕ → Dict Job → String × Job → String × Job → Type 0
Selects at jobs from to =
    All (λ e. is_claimable at e.1 ≡ true → (str_eq to.0 "" ≡ false) × (is_before e.1 to.1 ≡ false))
      jobs
    × (str_eq from.0 "" ≡ false → (str_eq to.0 "" ≡ false) × (is_before from.1 to.1 ≡ false))

abbrev is_better : ℕ → String × Job → String × Job → Bool
is_better at e selected = is_claimable at e.1 && (str_eq selected.0 "" || is_before e.1 selected.1)

better-cases :
    (at : ℕ) (e selected : String × Job)
    → ((is_better at e selected ≡ true) × (better at e selected ≡ e))
      ⊎ ((is_better at e selected ≡ false) × (better at e selected ≡ selected))
unfolding better
better-cases at e selected = elim (Bool-cases (is_better at e selected)) [
  | inl chosen ↦ inl (chosen, rw (chosen, better))
  | inr passed ↦ inr (passed, rw (passed, better))
]

Selects-better :
    (at : ℕ) (e selected to : String × Job) (rest : Dict Job)
    → str_eq e.0 "" ≡ false
    → Selects at rest (better at e selected) to
    → Selects at (e ∷ rest) selected to
Selects-better at e selected to rest name h = elim (better-cases at e selected) [
  | inl (chosen, same) ↦ after_chosen chosen (rw same at h)
  | inr (passed, same) ↦ after_passed passed (rw same at h)
]
  where
    after_chosen :
        is_better at e selected ≡ true → Selects at rest e to → Selects at (e ∷ rest) selected to
    after_chosen chosen (least, kept) = (
      (λ h. kept name, least),
      λ h. ((kept name).0, ground (arith, is_before_trans e.1 selected.1 to.1, (kept name).1)),
    )

    after_passed :
        is_better at e selected ≡ false
        → Selects at rest selected to
        → Selects at (e ∷ rest) selected to
    after_passed passed (least, kept) =
        ((λ h. ground (arith, is_before_cotrans e.1 selected.1 to.1), least), kept)

select_job-Selects :
    (at : ℕ) (jobs : Dict Job) (from : String × Job)
    → All (λ e. str_eq e.0 "" ≡ false) jobs
    → Selects at jobs from (select_job at jobs from)
unfolding select_job
select_job-Selects at [] from named = (tt, λ h. (h, is_before_irrefl from.1))
select_job-Selects at (e ∷ rest) from (name, named) =
    Selects-better at e from (select_job at rest (better at e from)) rest name
      (select_job-Selects at rest (better at e from) named)

-- The selected job is the one it started from, or stands in the outbox and may be claimed.
abbrev Found : ℕ → Dict Job → String × Job → String × Job → Type 0
Found at jobs from to =
    (to ≡ from) ⊎ ((lookup to.0 jobs ≡ some to.1) × (is_claimable at to.1 ≡ true))

Found-better :
    (at : ℕ) (e selected to : String × Job) (rest : Dict Job)
    → is_some (lookup e.0 rest) ≡ false
    → Found at rest (better at e selected) to
    → Found at (e ∷ rest) selected to
unfolding lookup
Found-better at e selected to rest fresh (inr (there, c)) = inr (ground (arith, eq_iff e.0 to.0), c)
Found-better at e selected to rest fresh (inl h) = elim (better-cases at e selected) [
  | inl (chosen, same) ↦ inr (own (h ∙ same), rw (h ∙ same) (ground arith))
  | inr (passed, same) ↦ inl (h ∙ same)
]
  where
    own : to ≡ e → (if str_eq e.0 to.0 then some e.1 else lookup to.0 rest) ≡ some to.1
    own q = rw q (rw (eq_refl e.0) refl)

select_job-Found :
    (at : ℕ) (jobs : Dict Job) (from : String × Job)
    → HasKeysOnce jobs
    → Found at jobs from (select_job at jobs from)
unfolding select_job HasKeysOnce
select_job-Found at [] from once = inl refl
select_job-Found at (e ∷ rest) from (fresh, once) =
    Found-better at e from (select_job at rest (better at e from)) rest fresh
      (select_job-Found at rest (better at e from) once)

-- A claim by the loop's own tests.
pub claim_next_job_lem :
    (worker_id : String) (at : ℕ) (s : MemoryStore)
    → IsOutbox s.jobs
    → ((claim_next_job worker_id at s ≡ (err not_found, s))
        × All (λ e. is_claimable at e.1 ≡ false) s.jobs)
      ⊎ ((id : String) × (job : Job) × (lookup id s.jobs ≡ some job)
          × (is_claimable at job ≡ true)
          × IsLeast at job s.jobs
          × (claim_next_job worker_id at s ≡ (
            ok (claimed worker_id at job),
            record s { jobs = insert id (claimed worker_id at job) s.jobs },
          )))
unfolding claim_next_job
claim_next_job_lem worker_id at s outbox =
    elim (Bool-cases (str_eq (select_job at s.jobs ("", zero_job)).0 "")) [
      | inl blank ↦ inl (rw (blank, claim_next_job), none_claimable blank)
      | inr name ↦ inr (
        (select_job at s.jobs ("", zero_job)).0,
        (select_job at s.jobs ("", zero_job)).1,
        (found name).0,
        (found name).1,
        All-mono
            (λ e.
              is_claimable at e.1 ≡ true
              → (str_eq (select_job at s.jobs ("", zero_job)).0 "" ≡ false)
                × (is_before e.1 (select_job at s.jobs ("", zero_job)).1 ≡ false))
            (λ e.
              is_claimable at e.1 ≡ true
              → is_before e.1 (select_job at s.jobs ("", zero_job)).1 ≡ false)
            s.jobs (λ e h c. (h c).1) selects.0,
        rw (name, claim_next_job),
      )
    ]
  where
    selects : Selects at s.jobs ("", zero_job) (select_job at s.jobs ("", zero_job))
    selects = select_job-Selects at s.jobs ("", zero_job) outbox.named

    found :
        str_eq (select_job at s.jobs ("", zero_job)).0 "" ≡ false
        → (lookup (select_job at s.jobs ("", zero_job)).0 s.jobs
            ≡ some (select_job at s.jobs ("", zero_job)).1)
          × (is_claimable at (select_job at s.jobs ("", zero_job)).1 ≡ true)
    found name = elim (select_job-Found at s.jobs ("", zero_job) outbox.once) [
      | inl same ↦ absurd (cc (name, ap (λ (x : String × Job). str_eq x.0 "") same))
      | inr there ↦ there
    ]

    none_claimable :
        str_eq (select_job at s.jobs ("", zero_job)).0 "" ≡ true
        → All (λ e. is_claimable at e.1 ≡ false) s.jobs
    none_claimable blank =
        All-mono
          (λ e.
            is_claimable at e.1 ≡ true
            → (str_eq (select_job at s.jobs ("", zero_job)).0 "" ≡ false)
              × (is_before e.1 (select_job at s.jobs ("", zero_job)).1 ≡ false))
          (λ e. is_claimable at e.1 ≡ false) s.jobs
          (λ e h. elim (Bool-cases (is_claimable at e.1)) [
            | inl c ↦ absurd (cc ((h c).0, blank))
            | inr c ↦ c
          ])
          selects.0

-- A job that waits and is available, or that a worker holds whose lease has run out.
abbrev pub IsDue : ℕ → Job → Type 0
IsDue at job =
    ((job.status ≡ pending) × (job.available_at ≤ at))
    ⊎ ((job.status ≡ processing)
        × ((locked_at : ℕ) × (job.locked_at ≡ some locked_at)
            × (locked_at + default_job_lease ≤ at)))

-- A job that is older than another, or as old with an id that is not greater.
abbrev pub IsFirstOf : Job → Job → Type 0
IsFirstOf job other =
    (job.created_at < other.created_at)
    ⊎ ((job.created_at ≡ other.created_at) × (str_lt other.id job.id ≡ false))

claimable_at-IsDue :
    (status : JobStatus) (at : ℕ) (job : Job)
    → job.status ≡ status
    → (claimable_at status at job ≡ true) ↔ IsDue at job
unfolding claimable_at
claimable_at-IsDue pending at job e = (
  λ h. inl (e, ground arith),
  λ h. elim h [ inl (f, low) ↦ ground arith | inr (f, held) ↦ absurd (cc (e, f)) ],
)
claimable_at-IsDue processing at job e = elim (Option-cases job.locked_at) [
  | inl none_held ↦ (
    λ h. absurd (cc (rw none_held at h)),
    λ h. elim h [
      | inl (f, low) ↦ absurd (cc (e, f))
      | inr (f, (locked_at, held, low)) ↦ absurd (cc (none_held, held))
    ],
  )
  | inr (locked_at, held) ↦ (
    λ h. inr (e, (locked_at, held, ground (arith, rw held at h))),
    λ h. elim h [
      | inl (f, low) ↦ absurd (cc (e, f))
      | inr (f, (since, held_since, low)) ↦
          let same : since ≡ locked_at = cc (held, held_since) in
          rw held (ground (arith, low, same))
    ],
  )
]
claimable_at-IsDue done at job e = (
  λ h. absurd (cc h),
  λ h. elim h [ inl (f, low) ↦ absurd (cc (e, f)) | inr (f, held) ↦ absurd (cc (e, f)) ],
)
claimable_at-IsDue failed at job e = (
  λ h. absurd (cc h),
  λ h. elim h [ inl (f, low) ↦ absurd (cc (e, f)) | inr (f, held) ↦ absurd (cc (e, f)) ],
)
claimable_at-IsDue (JobStatus.other name) at job e = (
  λ h. absurd (cc h),
  λ h. elim h [ inl (f, low) ↦ absurd (cc (e, f)) | inr (f, held) ↦ absurd (cc (e, f)) ],
)

is_before-IsFirstOf : (job other : Job) → is_before other job ≡ false → IsFirstOf job other
unfolding is_before
is_before-IsFirstOf job other h = ground arith

-- The job as its worker gets it.
abbrev pub leased_to : String → ℕ → Job → Job
leased_to worker_id at job = record {
  id = job.id;
  session_id = job.session_id;
  job_type = job.job_type;
  status = processing;
  attempts = suc job.attempts;
  available_at = job.available_at;
  locked_at = some at;
  locked_by = some worker_id;
  last_error = job.last_error;
  created_at = job.created_at;
  updated_at = at;
}

claimed-leased_to :
    (worker_id : String) (at : ℕ) (job : Job)
    → claimed worker_id at job ≡ leased_to worker_id at job
claimed-leased_to worker_id at job =
    let more : job.attempts + 1 ≡ suc job.attempts = omega arith in rw more refl

-- A claim of an outbox, which holds each job once, under its own nonempty id. Either no job is due, that is, waits and
-- is available or has a lease that has run out, and the claim finds nothing and changes nothing. Or it hands out a
-- due job that is older than every other due one, or as old with an id that is not greater: that job is then
-- processing, locked by the worker from now on, with one attempt more, and no other job is changed.
pub claim_next_job-IsLeast :
    (worker_id : String) (at : ℕ) (s : MemoryStore)
    → IsOutbox s.jobs
    → ((claim_next_job worker_id at s ≡ (err not_found, s)) × All (λ e. ¬ IsDue at e.1) s.jobs)
      ⊎ ((id : String) × (job : Job) × (lookup id s.jobs ≡ some job)
          × IsDue at job
          × All (λ e. IsDue at e.1 → IsFirstOf job e.1) s.jobs
          × (claim_next_job worker_id at s ≡ (
            ok (leased_to worker_id at job),
            record s { jobs = insert id (leased_to worker_id at job) s.jobs },
          )))
claim_next_job-IsLeast worker_id at s outbox = elim (claim_next_job_lem worker_id at s outbox) [
  | inl (nothing, idle) ↦ inl (
    nothing,
    All-mono (λ e. is_claimable at e.1 ≡ false) (λ e. ¬ IsDue at e.1) s.jobs
        (λ e h due. absurd (cc (h, (claimable_at-IsDue e.1.status at e.1 refl).1 due))) idle,
  )
  | inr (id, job, found, may, least, taken) ↦ inr (
    id,
    job,
    found,
    (claimable_at-IsDue job.status at job refl).0 may,
    All-mono (λ e. is_claimable at e.1 ≡ true → is_before e.1 job ≡ false)
        (λ e. IsDue at e.1 → IsFirstOf job e.1) s.jobs
        (λ e h due.
          is_before-IsFirstOf job e.1 (h ((claimable_at-IsDue e.1.status at e.1 refl).1 due)))
        least,
    rw (sym (claimed-leased_to worker_id at job)) taken,
  )
]
