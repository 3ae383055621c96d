-- ===== src/Topic/Streaks.antt =====
-- internal/topic/streak.go: a streak counts the days in a row on which there was a check-in.
use fluentwork_backend.Base.{
  ℕ, zero, suc, ◌+◌, ◌-◌, ◌*◌, ◌/◌, ◌≤◌, ◌<◌, String, ◌≡◌, refl, sym, subst, inl, inr, true, false,
  none, some, List, [], ◌∷◌, arith, ◌==◌, Bool-cases, Option-cases, All, contains,
  lookup-insert_self,
}
use fluentwork_backend.Topic.Store.{Streak, MemoryStore, day_length, utc_date, get_streak}
use fluentwork_backend.Topic.Service.{advance_streak, update_on_checkin}

-- The number of the day of a time.
abbrev pub day_of : ℕ → ℕ
day_of t = t / day_length

-- The streak after check-ins of a user at these times, the newest first.
unfoldable pub check_ins : String → List ℕ → MemoryStore → MemoryStore
unfolding update_on_checkin
check_ins user_id [] s = s
check_ins user_id (now ∷ earlier) s =
    (update_on_checkin user_id now (check_ins user_id earlier s)).1

-- The days of the times, the newest first.
abbrev pub days_of : List ℕ → List ℕ
days_of [] = []
days_of (t ∷ times) = day_of t ∷ days_of times

-- No time is before one that stands after it.
abbrev pub IsNewestFirst : List ℕ → Type 0
IsNewestFirst [] = Unit
IsNewestFirst (t ∷ times) = All (λ earlier. earlier ≤ t) times × IsNewestFirst times

-- A run of n days that ends on day d: each of them has a check-in, the day before them has none, and no check-in is later.
unfoldable pub IsRun : List ℕ → ℕ → ℕ → Type 0
IsRun days d n =
    ((k : ℕ) → k < n → contains (d - k) days ≡ true)
    × (n ≤ d → contains (d - n) days ≡ false)
    × ((e : ℕ) → contains e days ≡ true → e ≤ d)
    × (1 ≤ n)
    × (n ≤ d + 1)

same_day : (days : List ℕ) (d n : ℕ) → IsRun days d n → IsRun (d ∷ days) d n
unfolding IsRun
same_day days d n (each, before, latest, some_day, bound) = (
  λ k h. ground (arith, each k h),
  λ h. ground (arith, before h),
  λ e h. ground (arith, latest e),
  some_day,
  bound,
)

next_each :
    (days : List ℕ) (d n : ℕ)
    → ((k : ℕ) → k < n → contains (d - k) days ≡ true)
    → (k : ℕ) → k < n + 1
    → contains (suc d - k) (suc d ∷ days) ≡ true
next_each days d n each zero h = ground arith
next_each days d n each (suc k) h =
    let shifted : suc d - suc k ≡ d - k = omega arith in
    let held : contains (suc d - suc k) days ≡ true =
      subst (λ e. contains e days ≡ true) (sym shifted) (each k (omega (arith, h))) in
    ground (arith, held)

next_day : (days : List ℕ) (d n : ℕ) → IsRun days d n → IsRun (suc d ∷ days) (suc d) (n + 1)
unfolding IsRun
next_day days d n (each, before, latest, some_day, bound) = (
  λ k h. next_each days d n each k h,
  λ h.
      let shifted : suc d - (n + 1) ≡ d - n = omega arith in
      let free : contains (suc d - (n + 1)) days ≡ false =
        subst (λ e. contains e days ≡ false) (sym shifted) (before (omega (arith, h))) in
      ground (arith, free),
  λ e h. ground (arith, latest e),
  omega (arith, some_day),
  omega (arith, bound),
)

after_gap : (days : List ℕ) (d t : ℕ) (n : ℕ) → suc d < t → IsRun days d n → IsRun (t ∷ days) t 1
unfolding IsRun
after_gap days d t n gap (each, before, latest, some_day, bound) = (
  λ k h. ground arith,
  λ h. ground (arith, latest (t - 1)),
  λ e h. ground (arith, latest e),
  omega arith,
  omega (arith, gap),
)

-- What a streak says of the check-ins of its user, of which there is one at least.
abbrev pub Tells : Streak → List ℕ → ℕ → Type 0
Tells st days d =
    (st.last_checkin_date ≡ some (d * day_length))
    × IsRun days d st.current_streak
    × (st.current_streak ≤ st.longest_streak)

date_day : (d : ℕ) → utc_date (d * day_length) ≡ d * day_length
date_day d = omega arith

advance_streak-first :
    (user_id : String) (now : ℕ) (st : Streak)
    → st.last_checkin_date ≡ none
    → Tells (advance_streak user_id now st) (day_of now ∷ []) (day_of now)
unfolding advance_streak IsRun
advance_streak-first user_id now st none_yet = rw none_yet (
  refl,
  (λ k h. ground arith, λ h. ground arith, λ e h. ground arith, omega arith, omega arith),
  omega arith,
)

advance_streak-Tells :
    (user_id : String) (now d : ℕ) (days : List ℕ) (st : Streak)
    → d ≤ day_of now
    → Tells st days d
    → Tells (advance_streak user_id now st) (day_of now ∷ days) (day_of now)
unfolding advance_streak
advance_streak-Tells user_id now d days st later (last, run, longest) =
    elim (Bool-cases (utc_date (d * day_length) == utc_date now)) [
      | inl e ↦
          let same : day_of now ≡ d = ground arith in
          rw (last, e, same) (refl, same_day days d st.current_streak run, longest)
      | inr e ↦ elim (Bool-cases (utc_date (d * day_length) + day_length == utc_date now)) [
        | inl f ↦
            let next : day_of now ≡ suc d = ground arith in
            rw (last, e, f, next) (refl, next_day days d st.current_streak run, omega arith)
        | inr f ↦
            let gap : suc d < day_of now = ground arith in
            rw (last, e, f)
              (refl, after_gap days d (day_of now) st.current_streak gap run, omega arith)
      ]
    ]

advance_streak-user_id :
    (user_id : String) (now : ℕ) (st : Streak) → (advance_streak user_id now st).user_id ≡ user_id
unfolding advance_streak
advance_streak-user_id user_id now st = elim (Option-cases st.last_checkin_date) [
  | inl e ↦ rw e refl
  | inr (last, e) ↦ elim (Bool-cases (utc_date last == utc_date now)) [
    | inl f ↦ rw (e, f) refl
    | inr f ↦ rw (e, f) refl
  ]
]

get_streak-update :
    (user_id : String) (now : ℕ) (s : MemoryStore)
    → get_streak user_id (update_on_checkin user_id now s).1
      ≡ advance_streak user_id now (get_streak user_id s)
unfolding update_on_checkin get_streak
get_streak-update user_id now s =
    rw (get_streak, advance_streak-user_id user_id now (get_streak user_id s), lookup-insert_self)
      refl

-- The streak of a user after check-ins, from a store that has none of the user, the times from the newest: the current
-- streak is the number of days in a row, up to that of the last check-in, which all have a check-in while the day
-- before them has none; the longest streak is not shorter.
pub check_ins-Tells :
    (user_id : String) (now : ℕ) (earlier : List ℕ) (s : MemoryStore)
    → IsNewestFirst (now ∷ earlier)
    → (get_streak user_id s).last_checkin_date ≡ none
    → Tells
        (get_streak user_id (check_ins user_id (now ∷ earlier) s))
        (days_of (now ∷ earlier))
        (day_of now)
unfolding check_ins
check_ins-Tells user_id now [] s sorted fresh =
    subst (λ (st : Streak). Tells st (day_of now ∷ []) (day_of now))
      (sym (get_streak-update user_id now s))
      (advance_streak-first user_id now (get_streak user_id s) fresh)
check_ins-Tells user_id now (before ∷ earlier) s (late, sorted) fresh =
    let held = check_ins user_id (before ∷ earlier) s in
    subst (λ (st : Streak). Tells st (days_of (now ∷ before ∷ earlier)) (day_of now))
      (sym (get_streak-update user_id now held))
      (advance_streak-Tells user_id now (day_of before) (days_of (before ∷ earlier))
        (get_streak user_id held) (omega (arith, late.0))
        (check_ins-Tells user_id before earlier s sorted fresh))
