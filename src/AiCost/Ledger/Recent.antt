-- ===== src/AiCost/Ledger/Recent.antt =====
-- internal/aicost/memory_store.go: the recent rows of the ledger are the last ones that match.
use fluentwork_backend.Base.{
  ℕ, suc, ◌+◌, ◌<◌, String, ◌≡◌, refl, sym, ap, ◌∙◌, inl, inr, Bool, true, false, not, ◌&&◌, ◌||◌,
  List, [], ◌∷◌, ◌++◌, arith, str_eq, Bool-cases, pos, ltb_ℤ, leb_ℤ, length, keep_if, length-append,
  trim_space, append_assoc, min, append-[],
}
use fluentwork_backend.Session.Types.{CostLog}
use fluentwork_backend.AiCost.Ledger.{is_row_of, recent_from, reverse_logs, list_recent}

-- Whether a row is listed for a user, or for anyone.
abbrev pub is_asked : String → CostLog → Bool
is_asked user_id log = str_eq user_id "" || is_row_of user_id log

keep_if-append :
    (test : CostLog → Bool) (xs ys : List CostLog)
    → keep_if test (xs ++ ys) ≡ keep_if test xs ++ keep_if test ys
keep_if-append test [] ys = refl
keep_if-append test (x ∷ xs) ys = elim (Bool-cases (test x)) [
  | inl e ↦ rw e (ap (◌∷◌ x) (keep_if-append test xs ys))
  | inr e ↦ rw e (keep_if-append test xs ys)
]

reverse_logs-onto : (xs ys : List CostLog) → reverse_logs xs ys ≡ reverse_logs xs [] ++ ys
reverse_logs-onto [] ys = refl
reverse_logs-onto (x ∷ xs) ys =
    reverse_logs-onto xs (x ∷ ys)
    ∙ sym (
        ap (λ zs. zs ++ ys) (reverse_logs-onto xs (x ∷ []))
        ∙ append_assoc (reverse_logs xs []) (x ∷ []) ys)

-- The matching rows of the part of the ledger that has not been met, from the first.
abbrev before : String → List CostLog → List CostLog
before user_id logs = keep_if (is_asked user_id) (reverse_logs logs [])

before-∷ :
    (user_id : String) (log : CostLog) (logs : List CostLog)
    → before user_id (log ∷ logs) ≡ before user_id logs ++ keep_if (is_asked user_id) (log ∷ [])
before-∷ user_id log logs =
    ap (keep_if (is_asked user_id)) (reverse_logs-onto logs (log ∷ []))
    ∙ keep_if-append (is_asked user_id) (reverse_logs logs []) (log ∷ [])

-- What the loop leaves: the end of the matching rows, as many as were asked for or all.
abbrev pub IsEnd : ℕ → List CostLog → List CostLog → Type 0
IsEnd n matching listed =
    (older : List CostLog) × (older ++ listed ≡ matching)
    × (length listed ≡ min n (length matching))

before-skipped :
    (user_id : String) (log : CostLog) (logs listed : List CostLog)
    → is_asked user_id log ≡ false
    → before user_id (log ∷ logs) ++ listed ≡ before user_id logs ++ listed
before-skipped user_id log logs listed e =
    rw (before-∷ user_id log logs, e, append-[] (before user_id logs)) refl

before-matched :
    (user_id : String) (log : CostLog) (logs listed : List CostLog)
    → is_asked user_id log ≡ true
    → before user_id (log ∷ logs) ++ listed ≡ before user_id logs ++ (log ∷ listed)
before-matched user_id log logs listed e =
    rw (before-∷ user_id log logs, e, append_assoc (before user_id logs) (log ∷ []) listed) refl

skip_test : (a b : Bool) → (a || b) ≡ false → (not a && not b) ≡ true
skip_test true b h = absurd (cc h)
skip_test false true h = absurd (cc h)
skip_test false false h = refl

keep_test : (a b : Bool) → (a || b) ≡ true → (not a && not b) ≡ false
keep_test true b h = refl
keep_test false true h = refl
keep_test false false h = absurd (cc h)

recent_from-IsEnd :
    (user_id : String) (n : ℕ) (listed logs : List CostLog)
    → length listed < n
    → IsEnd n
        (before user_id logs ++ listed)
        (recent_from user_id (pos n) (length listed) listed logs)
unfolding recent_from
recent_from-IsEnd user_id n listed [] room = ([], refl, omega (arith, room))
recent_from-IsEnd user_id n listed (log ∷ logs) room = elim (Bool-cases (is_asked user_id log)) [
  | inr e ↦
      rw
        (
          before-skipped user_id log logs listed e,
          skip_test (str_eq user_id "") (is_row_of user_id log) e,
        )
        (recent_from-IsEnd user_id n listed logs room)
  | inl e ↦ elim (Bool-cases (ltb_ℤ (pos 0) (pos n) && leb_ℤ (pos n) (pos (length listed + 1)))) [
    | inl f ↦
        rw
          (
            before-matched user_id log logs listed e,
            keep_test (str_eq user_id "") (is_row_of user_id log) e,
            f,
          )
          (
            before user_id logs,
            refl,
            ground (arith, length-append (before user_id logs) (log ∷ listed)),
          )
    | inr f ↦
        let room_left : suc (length listed) < n = ground arith in
        let one_more : length listed + 1 ≡ suc (length listed) = omega arith in
        rw
          (
            before-matched user_id log logs listed e,
            keep_test (str_eq user_id "") (is_row_of user_id log) e,
            f,
            one_more,
          )
          (recent_from-IsEnd user_id n (log ∷ listed) logs room_left)
  ]
]

reverse_logs-twice :
    (xs ys zs : List CostLog) → reverse_logs (reverse_logs xs ys) zs ≡ reverse_logs ys (xs ++ zs)
reverse_logs-twice [] ys zs = refl
reverse_logs-twice (x ∷ xs) ys zs = reverse_logs-twice xs (x ∷ ys) zs

-- For a positive limit, the recent rows are the end of the rows of the user, or of all rows where no user is named,
-- in the order of the ledger: as many as the limit, or all of them where there are fewer.
pub list_recent-IsEnd :
    (user_id : String) (n : ℕ) (logs : List CostLog)
    → 0 < n
    → IsEnd n (keep_if (is_asked (trim_space user_id)) logs) (list_recent user_id (pos n) logs)
unfolding list_recent
list_recent-IsEnd user_id n logs some_asked =
    rw
      (
        append-[] (before (trim_space user_id) (reverse_logs logs [])),
        reverse_logs-twice logs [] [],
        append-[] logs,
      )
      at (recent_from-IsEnd (trim_space user_id) n [] (reverse_logs logs []) some_asked)
