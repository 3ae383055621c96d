-- ===== src/Session/Service/Continue.antt =====
-- internal/session/service.go: what a new session is told of an earlier one.
use fluentwork_backend.Session.Types.{Session, Utterance}
use fluentwork_backend.Session.Store.{
  MemoryStore, StoreError, not_found, get_session, list_utterances,
}
use fluentwork_backend.Session.Service.Types.{
  ServiceError, invalid_argument, api_not_found, store_error, ContinuationUtterance,
}
use fluentwork_backend.Base.{
  ℕ, ◌-◌, String, not, ◌||◌, List, map, str_eq, ltb, if◌then◌else◌, ℤ, pos, pos_part, ltb_ℤ, leb_ℤ,
  length, drop, trim_space, Result, ok, err,
}

-- The error of a `GetSession`, as `ContinuationContext` and `End` answer it.
unfoldable pub lookup_failure : StoreError → ServiceError
lookup_failure not_found = api_not_found "session not found"
lookup_failure e = store_error e

-- The limit of `ContinuationContext`, defaulted and capped.
unfoldable pub continuation_limit : ℤ → ℕ
continuation_limit limit =
    if leb_ℤ limit (pos 0) then 6 else if ltb_ℤ (pos 20) limit then 20 else pos_part limit

-- `all[len(all)-limit:]` where there are more
unfoldable pub tail_of {ℓ} : {A : Type ℓ} → ℕ → List A → List A
tail_of limit all = if ltb limit (length all) then drop (length all - limit) all else all

abbrev pub continuation_utterance : Utterance → ContinuationUtterance
continuation_utterance u = record { seq = u.seq; speaker = u.speaker; text = u.text }

-- `ContinuationContext` of two sessions that are found.
unfoldable pub continue_from :
    Session → Session → String → ℕ → MemoryStore → Result ServiceError (List ContinuationUtterance)
continue_from current previous previous_session_id limit s =
    if not (str_eq previous.user_id current.user_id)
    then err (api_not_found "session not found")
    else elim (list_utterances previous_session_id s) [
      | err e ↦ err (store_error e)
      | ok all ↦ ok (map continuation_utterance (tail_of limit all))
    ]

-- `ContinuationContext`
unfoldable pub continuation_context :
    String → String → ℤ → MemoryStore → Result ServiceError (List ContinuationUtterance)
unfolding lookup_failure continuation_limit continue_from
continuation_context current_session_id previous_session_id limit s =
    let current_id = trim_space current_session_id in
    let previous_id = trim_space previous_session_id in
    if str_eq current_id "" || str_eq previous_id ""
    then err (invalid_argument "current_session_id and previous_session_id are required")
    else elim (get_session current_id s) [
      | err e ↦ err (lookup_failure e)
      | ok current ↦ elim (get_session previous_id s) [
        | err e ↦ err (lookup_failure e)
        | ok previous ↦ continue_from current previous previous_id (continuation_limit limit) s
      ]
    ]
