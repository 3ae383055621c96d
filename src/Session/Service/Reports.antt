-- ===== src/Session/Service/Reports.antt =====
-- internal/session/service.go: what is kept of the rescue events that the gateway reports.
use fluentwork_backend.Session.Types.{Session, RescueEvent}
use fluentwork_backend.Session.Service.{
  RescueEventItem, cap_runes, rescue_path, rescue_event_of, rescue_step, rescue_each,
  normalize_end_rescue_events, max_rescue_events,
}
use fluentwork_backend.Session.Service.Transcripts.{AreNew}
use fluentwork_backend.Base.{
  ℕ, suc, ◌≤◌, String, ◌≡◌, refl, subst, ◌⊎◌, inl, inr, Bool, true, false, ◌||◌, Option, none, some,
  List, [], ◌∷◌, arith, str_eq, ltb, if◌then◌else◌, is_some, Bool-cases, ℤ, pos, ◌≤ℤ◌, length, All,
  any, trim_space, rune_count, rune_count-take_runes-le, eq_ℤ, rune_count,
}

abbrev pub is_known : String → Bool
is_known path = str_eq path "incomplete" || str_eq path "silent"

-- A row as it may be stored: of this session and its user, numbered from 1 to 200, at a rung from 1 to
-- 3, on a known path, with capped texts, and without an anchor where the user never spoke.
pub record IsReported (session : Session) (e : RescueEvent) : Type 0 where
  pub session_id : e.session_id ≡ session.id
  pub user : e.user_id ≡ session.user_id
  pub first : pos 1 ≤ℤ e.seq
  pub last : e.seq ≤ℤ pos max_rescue_events
  pub lowest : pos 1 ≤ℤ e.level
  pub highest : e.level ≤ℤ pos 3
  pub known : is_known e.path ≡ true
  pub turn : rune_count e.turn_id ≤ 64
  pub ladder : rune_count e.ladder ≤ 512
  pub anchor : rune_count e.anchor ≤ 512
  pub unspoken : e.user_opened ≡ false → e.anchor ≡ ""

abbrev pub event_seqs : List RescueEvent → List ℤ
event_seqs [] = []
event_seqs (e ∷ events) = e.seq ∷ event_seqs events

rune_count-cap_runes-le : (s : String) (n : ℕ) → rune_count (cap_runes s n) ≤ n
unfolding cap_runes
rune_count-cap_runes-le s n = ground (arith, rune_count-take_runes-le n s)

cap_runes_blank : (n : ℕ) → cap_runes "" n ≡ ""
unfolding cap_runes
cap_runes_blank n = ground arith

silent_known : is_known "silent" ≡ true
silent_known = refl

rescue_path-known : (path known : String) → rescue_path path ≡ some known → is_known known ≡ true
unfolding rescue_path
rescue_path-known path known h = elim (Bool-cases (is_known path)) [
  | inl e ↦ cc (e, rw e at h)
  | inr e ↦ elim (Bool-cases (str_eq path "")) [
    | inl blank ↦ cc (silent_known, rw (e, blank) at h)
    | inr other ↦ absurd (cc (rw (e, other) at h))
  ]
]

kept-IsReported :
    (session : Session) (now : ℕ) (id : String) (seen : List ℤ) (item : RescueEventItem)
    (path : String)
    → (rescue_step seen item).1 ≡ some path
    → IsReported session (rescue_event_of session now id item path)
unfolding rescue_step
kept-IsReported session now id seen item path h = record {
  session_id = refl;
  user = refl;
  first = ground arith;
  last = ground arith;
  lowest = ground arith;
  highest = ground arith;
  known = rescue_path-known (trim_space item.path) path (ground arith);
  turn = rune_count-cap_runes-le (trim_space item.turn_id) 64;
  ladder = rune_count-cap_runes-le (trim_space item.ladder) 512;
  anchor = rune_count-cap_runes-le (if item.user_opened then trim_space item.anchor else "") 512;
  unspoken = λ e. rw e (cap_runes_blank 512);
}

fresh_event :
    (seen : List ℤ) (item : RescueEventItem) (path : String)
    → (rescue_step seen item).1 ≡ some path
    → (any (eq_ℤ item.seq) seen ≡ false) × ((rescue_step seen item).0 ≡ item.seq ∷ seen)
unfolding rescue_step
fresh_event seen item path h = ground arith

-- A dropped item either leaves the seen numbers or adds its own.
dropped_event :
    (seen : List ℤ) (item : RescueEventItem)
    → ((rescue_step seen item).0 ≡ seen) ⊎ ((rescue_step seen item).0 ≡ item.seq ∷ seen)
unfolding rescue_step
dropped_event seen item = ground arith

AreNew-mono :
    (seen fewer seqs : List ℤ)
    → ((x : ℤ) → any (eq_ℤ x) seen ≡ false → any (eq_ℤ x) fewer ≡ false)
    → AreNew seen seqs
    → AreNew fewer seqs
AreNew-mono seen fewer [] f h = tt
AreNew-mono seen fewer (seq ∷ seqs) f (fresh, h) =
    (f seq fresh, AreNew-mono (seq ∷ seen) (seq ∷ fewer) seqs (λ x k. ground (arith, f x)) h)

AreNew-dropped :
    (seen seen' seqs : List ℤ) (seq : ℤ)
    → (seen' ≡ seen) ⊎ (seen' ≡ seq ∷ seen)
    → AreNew seen' seqs
    → AreNew seen seqs
AreNew-dropped seen seen' seqs seq (inl e) h = subst (λ s. AreNew s seqs) e h
AreNew-dropped seen seen' seqs seq (inr e) h =
    AreNew-mono (seq ∷ seen) seen seqs (λ x k. ground arith) (subst (λ s. AreNew s seqs) e h)

-- What is kept of a list of events.
abbrev pub AreReported : Session → List ℤ → List RescueEvent → Type 0
AreReported session seen events = All (IsReported session) events × AreNew seen (event_seqs events)

add_event :
    (new_id : ℕ → String) (session : Session) (now n : ℕ) (seen : List ℤ) (item : RescueEventItem)
    (kept : Option String) (rest : List RescueEvent)
    → (rescue_step seen item).1 ≡ kept
    → AreReported session (rescue_step seen item).0 rest
    → AreReported session seen (elim kept [
      | none ↦ rest
      | some path ↦ rescue_event_of session now (new_id n) item path ∷ rest
    ])
add_event new_id session now n seen item none rest e (all, new) = (
  all,
  AreNew-dropped seen (rescue_step seen item).0 (event_seqs rest) item.seq (dropped_event seen item)
      new,
)
add_event new_id session now n seen item (some path) rest e (all, new) = (
  (kept-IsReported session now (new_id n) seen item path e, all),
  (
    (fresh_event seen item path e).0,
    subst (λ s. AreNew s (event_seqs rest)) (fresh_event seen item path e).1 new,
  ),
)

rescue_each-AreReported :
    (new_id : ℕ → String) (session : Session) (now n : ℕ) (seen : List ℤ)
    (items : List RescueEventItem)
    → AreReported session seen (rescue_each new_id session now n seen items)
unfolding rescue_each
rescue_each-AreReported new_id session now n seen [] = (tt, tt)
rescue_each-AreReported new_id session now n seen (item ∷ items) =
    add_event new_id session now n seen item (rescue_step seen item).1
      (rescue_each new_id session now (if is_some (rescue_step seen item).1 then suc n else n)
        (rescue_step seen item).0 items)
      refl
      (rescue_each-AreReported new_id session now
        (if is_some (rescue_step seen item).1 then suc n else n) (rescue_step seen item).0 items)

-- Whatever the gateway reports, the session ends with rows that are valid: each belongs to the session
-- and its user, is numbered from 1 to 200 with no number twice, has a rung from 1 to 3, a
-- known path, texts of at most 64 and 512 characters, and no anchor where the user never spoke.
pub normalize_end_rescue_events-AreReported :
    (new_id : ℕ → String) (n : ℕ) (session : Session) (items : List RescueEventItem) (now : ℕ)
    → AreReported session [] (normalize_end_rescue_events new_id n session items now)
unfolding normalize_end_rescue_events
normalize_end_rescue_events-AreReported new_id n session items now =
    elim (Bool-cases (ltb max_rescue_events (length items))) [
      | inl e ↦ rw e (tt, tt)
      | inr e ↦ rw e (rescue_each-AreReported new_id session now n [] items)
    ]
