-- ===== src/AiCost/Ledger.antt =====
-- internal/aicost/memory_store.go, service.go and summary.go: the rows of the ledger, in the order in which they were
-- written, and the roll-ups over them. A time is formatted by a parameter.
pub mod Recent
pub mod Rollup
use fluentwork_backend.Base.{
  ℕ, ◌+◌, ◌-◌, ◌*◌, String, Bool, false, not, ◌&&◌, ◌||◌, Option, none, some, List, [], ◌∷◌, ◌++◌,
  map, str_eq, ltb, leb, ◌==◌, if◌then◌else◌, ℤ, pos, ltb_ℤ, leb_ℤ, length, take, keep_if,
  trim_space, str_lt, Dict, lookup, insert, values, sort_by, hour, add_ℤ, Result, ok, err,
}
use fluentwork_backend.Session.Types.{CostLog}

-- The constants of `groupBy`
abbrev pub group_by_task_type : String
group_by_task_type = "task_type"

abbrev pub group_by_model : String
group_by_model = "model"

abbrev pub group_by_day : String
group_by_day = "day"

-- `DefaultSummaryWindow`
abbrev pub default_summary_window : ℕ
default_summary_window = 168 * hour

-- `MaxSummaryWindow`
abbrev pub max_summary_window : ℕ
max_summary_window = 4_320 * hour

-- `maxSummaryRows`
abbrev pub max_summary_rows : ℕ
max_summary_rows = 500

pub record SummaryFilter : Type 0 where
  pub user_id : String
  pub since : ℕ
  pub until : ℕ
  pub group_by : String

pub record SummaryRow : Type 0 where
  pub key : String
  pub rows : ℕ
  pub tokens_in : ℤ
  pub tokens_out : ℤ
  pub audio_sec : ℤ
  pub chars : ℤ
  pub cost_micro_yuan : ℤ

pub record RecordRequest : Type 0 where
  pub user_id : String
  pub task_type : String
  pub model : String
  pub tokens_in : ℤ
  pub tokens_out : ℤ
  pub audio_sec : ℤ
  pub chars : ℤ
  pub cost_micro_yuan : ℤ

-- An apierr value with its message.
pub data CostError : Type 0 where
  invalid_argument : String → CostError

-- Whether a row belongs to the user.
abbrev pub is_row_of : String → CostLog → Bool
is_row_of user_id log = elim log.user_id [ none ↦ false | some id ↦ str_eq id user_id ]

-- Whether a row passes the filter of `SummarizeCosts`.
abbrev pub in_window : SummaryFilter → CostLog → Bool
in_window filter log =
    (str_eq filter.user_id "" || is_row_of filter.user_id log)
    && leb filter.since log.created_at
    && ltb log.created_at filter.until

-- `summaryKey`
unfoldable pub summary_key : (ℕ → String) → CostLog → String → String
summary_key day log group_by =
    if str_eq group_by group_by_model
    then log.model
    else if str_eq group_by group_by_day
    then day log.created_at
    else log.task_type

-- `SummaryRow{Key: key}`
abbrev pub empty_row : String → SummaryRow
empty_row key = record {
  key = key;
  rows = 0;
  tokens_in = pos 0;
  tokens_out = pos 0;
  audio_sec = pos 0;
  chars = pos 0;
  cost_micro_yuan = pos 0;
}

-- A bucket with one row more.
abbrev pub add_log : SummaryRow → CostLog → SummaryRow
add_log row log = record row {
  rows = row.rows + 1;
  tokens_in = add_ℤ row.tokens_in log.tokens_in;
  tokens_out = add_ℤ row.tokens_out log.tokens_out;
  audio_sec = add_ℤ row.audio_sec log.audio_sec;
  chars = add_ℤ row.chars log.chars;
  cost_micro_yuan = add_ℤ row.cost_micro_yuan log.cost_micro_yuan;
}

-- The bucket of a key, a new one if there is none.
abbrev pub bucket : String → Dict SummaryRow → SummaryRow
bucket key buckets = elim (lookup key buckets) [ none ↦ empty_row key | some row ↦ row ]

-- The loop of `SummarizeCosts`. A new key is entered at the end, so the buckets stand in the order of `order`.
unfoldable pub fill_buckets :
    (ℕ → String) → SummaryFilter → List CostLog → Dict SummaryRow → Dict SummaryRow
unfolding summary_key
fill_buckets day filter [] buckets = buckets
fill_buckets day filter (log ∷ logs) buckets =
    let key = summary_key day log filter.group_by in
    let kept =
      fill_buckets day filter logs (insert key (add_log (bucket key buckets) log) buckets) in
    let skipped = fill_buckets day filter logs buckets in
    if in_window filter log then kept else skipped

-- The order of keys
abbrev pub key_before : SummaryRow → SummaryRow → Bool
key_before left right = str_lt left.key right.key

-- `SummarizeCosts`: a bucket stands under its own key, so that to sort the keys is to sort the buckets.
unfoldable pub summarize_costs : (ℕ → String) → SummaryFilter → List CostLog → List SummaryRow
unfolding fill_buckets
summarize_costs day filter logs = sort_by key_before (values (fill_buckets day filter logs []))

-- The loop of `ListRecent` over the rows from the last: how many have been taken, and those that are listed, which
-- `slices.Reverse` puts in the order of the ledger.
unfoldable pub recent_from : String → ℤ → ℕ → List CostLog → List CostLog → List CostLog
recent_from user_id limit taken listed [] = listed
recent_from user_id limit taken listed (log ∷ logs) =
    let longer = recent_from user_id limit (taken + 1) (log ∷ listed) logs in
    let same = recent_from user_id limit taken listed logs in
    if not (str_eq user_id "") && not (is_row_of user_id log)
    then same
    else if ltb_ℤ (pos 0) limit && leb_ℤ limit (pos (taken + 1))
    then log ∷ listed
    else longer

abbrev pub reverse_logs : List CostLog → List CostLog → List CostLog
reverse_logs [] logs = logs
reverse_logs (log ∷ rest) logs = reverse_logs rest (log ∷ logs)

-- `ListRecent` of the store
unfoldable pub list_recent : String → ℤ → List CostLog → List CostLog
unfolding recent_from
list_recent user_id limit logs = recent_from (trim_space user_id) limit 0 [] (reverse_logs logs [])

-- `AnonymizeUser`
unfoldable pub anonymize_user : String → List CostLog → ℕ × List CostLog
anonymize_user user_id logs = (
  length (keep_if (is_row_of user_id) logs),
  map
      (λ log.
        if is_row_of user_id log
        then record log { user_id_anonymized = log.user_id; user_id = none }
        else log)
      logs,
)

-- Whether a row belonged to the user before it was anonymized.
abbrev pub was_row_of : String → CostLog → Bool
was_row_of user_id log = elim log.user_id_anonymized [ none ↦ false | some id ↦ str_eq id user_id ]

-- `RestoreUser`
unfoldable pub restore_user : String → List CostLog → ℕ × List CostLog
restore_user user_id logs = (
  length (keep_if (was_row_of user_id) logs),
  map
      (λ log.
        if was_row_of user_id log
        then record log { user_id = log.user_id_anonymized; user_id_anonymized = none }
        else log)
      logs,
)

-- The row that `Record` writes.
abbrev pub log_of : RecordRequest → String → ℕ → CostLog
log_of req id now = record {
  id = id;
  user_id = if str_eq (trim_space req.user_id) "" then none else some (trim_space req.user_id);
  user_id_anonymized = none;
  task_type = trim_space req.task_type;
  model = trim_space req.model;
  tokens_in = req.tokens_in;
  tokens_out = req.tokens_out;
  audio_sec = req.audio_sec;
  chars = req.chars;
  cost_micro_yuan = req.cost_micro_yuan;
  created_at = now;
}

abbrev pub is_negative : ℤ → Bool
is_negative n = ltb_ℤ n (pos 0)

-- `Record`, with `CreateLog` of the store
unfoldable pub record_cost :
    RecordRequest → String → ℕ → List CostLog → Result CostError CostLog × List CostLog
record_cost req id now logs =
    if str_eq (trim_space req.task_type) ""
    then (err (CostError.invalid_argument "task_type is required"), logs)
    else if str_eq (trim_space req.model) ""
    then (err (CostError.invalid_argument "model is required"), logs)
    else if is_negative req.tokens_in
        || is_negative req.tokens_out
        || is_negative req.audio_sec
        || is_negative req.chars
        || is_negative req.cost_micro_yuan
    then (
      err (
          CostError.invalid_argument "tokens/audio_sec/chars/cost_micro_yuan must be non-negative"),
      logs,
    )
    else (ok (log_of req id now), logs ++ log_of req id now ∷ [])

-- The grouping that `Summary` takes for a text.
unfoldable pub group_of : String → Option String
group_of raw =
    let group_by = trim_space raw in
    if str_eq group_by group_by_task_type
      || str_eq group_by group_by_model
      || str_eq group_by group_by_day
    then some group_by
    else if str_eq group_by ""
    then some group_by_task_type
    else none

-- `Summary`, with the rows that it answers
unfoldable pub summary :
    (ℕ → String) → SummaryFilter → ℕ → List CostLog → Result CostError (List SummaryRow)
unfolding summarize_costs group_of
summary day filter now logs = elim (group_of filter.group_by) [
  | none ↦ err (CostError.invalid_argument "group_by must be task_type, model or day")
  | some group_by ↦
      let until = if filter.until == 0 then now else filter.until in
      let since = if filter.since == 0 then until - default_summary_window else filter.since in
      let asked : SummaryFilter = record {
        user_id = trim_space filter.user_id;
        since = since;
        until = until;
        group_by = group_by;
      } in
      if leb until since
      then err (CostError.invalid_argument "since must be before until")
      else if ltb max_summary_window (until - since)
      then err (CostError.invalid_argument "window is too wide")
      else ok (take max_summary_rows (summarize_costs day asked logs))
]
