-- ===== src/AiCost/Ledger/Rollup.antt =====
-- internal/aicost/memory_store.go: a roll-up against the rows of each key taken by themselves.
use fluentwork_backend.Base.{
  ℕ, ◌+◌, String, Bool, false, not, ◌&&◌, ◌||◌, Option, none, some, List, [], ◌∷◌, str_eq, ltb, leb,
  if◌then◌else◌, ℤ, pos, length, keep_if, lookup-insert, sort_by-perm, add_ℤ, lookup-insert,
  sort_by-perm,
}
use fluentwork_backend.Session.Types.{CostLog}
use fluentwork_backend.AiCost.Ledger.{
  SummaryFilter, SummaryRow, in_window, summary_key, empty_row, add_log,
}

-- What the loop enters for one key, from its rows in the window.
abbrev rolled : String → Option SummaryRow → List CostLog → Option SummaryRow
rolled key total [] = total
rolled key total (log ∷ logs) =
    rolled key (some (add_log (elim total [ none ↦ empty_row key | some row ↦ row ]) log)) logs

module _ (day : ℕ → String) (filter : SummaryFilter) where
  -- Whether a row of the ledger counts for a key.
  abbrev is_counted : String → CostLog → Bool
  is_counted key log = in_window filter log && str_eq (summary_key day log filter.group_by) key

-- How many rows of the ledger the rows of a roll-up count.
abbrev pub counted : List SummaryRow → ℕ
counted [] = 0
counted (row ∷ rows) = row.rows + counted rows

-- The key of a row: its day, its model, or else its task.
abbrev pub key_of_log : (ℕ → String) → String → CostLog → String
key_of_log day group_by log =
    if str_eq group_by "day"
    then day log.created_at
    else if str_eq group_by "model"
    then log.model
    else log.task_type

-- Whether a row is the user's, where one is asked for, from `since` on and before `until`.
abbrev pub is_in_window : SummaryFilter → CostLog → Bool
is_in_window filter log =
    (str_eq filter.user_id ""
      || elim log.user_id [ none ↦ false | some id ↦ str_eq id filter.user_id ])
    && not (ltb log.created_at filter.since)
    && not (leb filter.until log.created_at)

-- The rows that count for a key.
abbrev pub logs_for : (ℕ → String) → SummaryFilter → String → List CostLog → List CostLog
logs_for day filter key logs =
    keep_if (λ log. is_in_window filter log && str_eq (key_of_log day filter.group_by log) key) logs

-- A column of some rows, added up onto a total.
abbrev pub add_up : (CostLog → ℤ) → ℤ → List CostLog → ℤ
add_up column total [] = total
add_up column total (log ∷ logs) = add_up column (add_ℤ total (column log)) logs

-- The row of a summary for a key: how many rows there are, and the sum of each column.
abbrev pub summed : String → List CostLog → SummaryRow
summed key logs = record {
  key = key;
  rows = length logs;
  tokens_in = add_up (λ log. log.tokens_in) (pos 0) logs;
  tokens_out = add_up (λ log. log.tokens_out) (pos 0) logs;
  audio_sec = add_up (λ log. log.audio_sec) (pos 0) logs;
  chars = add_up (λ log. log.chars) (pos 0) logs;
  cost_micro_yuan = add_up (λ log. log.cost_micro_yuan) (pos 0) logs;
}

-- What a map has for a key, by the rows that count for it: nothing, or their sums.
abbrev pub total_of : String → List CostLog → Option SummaryRow
total_of key [] = none
total_of key (log ∷ logs) = some (summed key (log ∷ logs))
