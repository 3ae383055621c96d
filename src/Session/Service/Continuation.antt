-- ===== src/Session/Service/Continuation.antt =====
-- internal/session/service.go: whose transcript is handed on, and how much of it.
use fluentwork_backend.Session.Types.{Session, Utterance}
use fluentwork_backend.Session.Store.{MemoryStore, get_session, list_utterances}
use fluentwork_backend.Session.Service.{
  api_not_found, ContinuationUtterance, tail_of, continuation_utterance, continuation_limit,
  continue_from, continuation_context, lookup_failure,
}
use fluentwork_backend.Base.{
  ℕ, ◌-◌, ◌≤◌, String, ◌≡◌, refl, sym, ◌∙◌, inl, inr, false, ◌||◌, none, some, List, [], ◌++◌, map,
  arith, str_eq, eq_iff, ltb, Bool-cases, Option-cases, ℤ, length, take, length-drop,
  take-append-drop, trim_space, lookup, ok, err, Result-cases, take-append-drop, length-drop,
}

-- Asking for the transcript of another user's session gets the very answer that asking for a session
-- that does not exist gets.
pub continuation_context-hides_others :
    (current_id previous_id missing_id : String) (limit : ℤ) (s : MemoryStore)
    (current previous : Session)
    → lookup (trim_space current_id) s.sessions ≡ some current
    → lookup (trim_space previous_id) s.sessions ≡ some previous
    → str_eq previous.user_id current.user_id ≡ false
    → lookup (trim_space missing_id) s.sessions ≡ none
    → str_eq (trim_space current_id) "" ≡ false
    → str_eq (trim_space previous_id) "" ≡ false
    → str_eq (trim_space missing_id) "" ≡ false
    → (continuation_context current_id previous_id limit s
        ≡ continuation_context current_id missing_id limit s)
      × (continuation_context current_id missing_id limit s
          ≡ err (api_not_found "session not found"))
unfolding continuation_context get_session continue_from lookup_failure
continuation_context-hides_others current_id previous_id missing_id limit s current previous c p
      other m x y z =
    (refused ∙ sym missed, missed)
  where
    missed :
        continuation_context current_id missing_id limit s ≡ err (api_not_found "session not found")
    missed = rw (x, z, c, m, continuation_context)

    refused :
        continuation_context current_id previous_id limit s
        ≡ err (api_not_found "session not found")
    refused = rw (x, y, c, p, other, continuation_context)

continuation_limit-le : (limit : ℤ) → continuation_limit limit ≤ 20
unfolding continuation_limit
continuation_limit-le limit = ground arith

length-tail_of-le {ℓ} : {A : Type ℓ} (n : ℕ) (all : List A) → length (tail_of n all) ≤ n
unfolding tail_of
length-tail_of-le n all = ground (arith, length-drop (length all - n) all)

tail_of-append {ℓ} :
    {A : Type ℓ} (n : ℕ) (all : List A) → (before : List A) × (before ++ tail_of n all ≡ all)
unfolding tail_of
tail_of-append n all = elim (Bool-cases (ltb n (length all))) [
  | inl e ↦ (take (length all - n) all, rw e (take-append-drop (length all - n) all))
  | inr e ↦ ([], rw e refl)
]

-- The texts are those of the last rows, at most 20 of them, of the transcript of a session of the
-- same user.
abbrev pub IsTail : Session → Session → String → MemoryStore → List ContinuationUtterance → Type 0
IsTail current previous previous_id s out =
    (previous.user_id ≡ current.user_id)
    × ((all : List Utterance) × (before : List Utterance) × (tail : List Utterance)
        × (list_utterances previous_id s ≡ ok all)
        × (before ++ tail ≡ all)
        × (length tail ≤ 20)
        × (out ≡ map continuation_utterance tail))

continue_from-IsTail :
    (current previous : Session) (previous_id : String) (n : ℕ) (s : MemoryStore)
    (out : List ContinuationUtterance)
    → n ≤ 20
    → continue_from current previous previous_id n s ≡ ok out
    → IsTail current previous previous_id s out
unfolding continue_from
continue_from-IsTail current previous previous_id n s out capped h =
    elim (Bool-cases (str_eq previous.user_id current.user_id)) [
      | inr other ↦ absurd (cc (rw other at h))
      | inl own ↦ elim (Result-cases (list_utterances previous_id s)) [
        | inr (e, bad) ↦ absurd (cc (rw (own, bad) at h))
        | inl (all, listed) ↦ (
          (eq_iff previous.user_id current.user_id).0 own,
          (
            all,
            (tail_of-append n all).0,
            tail_of n all,
            listed,
            (tail_of-append n all).1,
            omega (arith, length-tail_of-le n all),
            cc (rw (own, listed) at h),
          ),
        )
      ]
    ]

-- What is handed on of a previous session is the end of its transcript, at most 20 rows, and
-- only where both sessions exist and belong to the same user.
pub continuation_context-IsTail :
    (current_id previous_id : String) (limit : ℤ) (s : MemoryStore)
    (out : List ContinuationUtterance)
    → continuation_context current_id previous_id limit s ≡ ok out
    → (current : Session) × (previous : Session) × (lookup (trim_space current_id) s.sessions
        ≡ some current)
      × (lookup (trim_space previous_id) s.sessions ≡ some previous)
      × IsTail current previous (trim_space previous_id) s out
unfolding continuation_context get_session
continuation_context-IsTail current_id previous_id limit s out h =
    elim (Bool-cases (str_eq (trim_space current_id) "" || str_eq (trim_space previous_id) "")) [
      | inl blank ↦ absurd (cc (rw blank at h))
      | inr named ↦ elim (Option-cases (lookup (trim_space current_id) s.sessions)) [
        | inl c ↦ absurd (cc (rw (named, c) at h))
        | inr (current, c) ↦ elim (Option-cases (lookup (trim_space previous_id) s.sessions)) [
          | inl p ↦ absurd (cc (rw (named, c, p) at h))
          | inr (previous, p) ↦ (
            current,
            previous,
            c,
            p,
            continue_from-IsTail current previous (trim_space previous_id)
                (continuation_limit limit) s out (continuation_limit-le limit)
                (rw (named, c, p) at h),
          )
        ]
      ]
    ]
