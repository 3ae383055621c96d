-- ===== src/Account/Privacy/Undo.antt =====
-- internal/account/privacy_service.go: a deletion that fails undoes what its wipers did.
use fluentwork_backend.Base.{
  ℕ, String, ◌≡◌, refl, ap, subst, inl, inr, Option, none, some, List, [], ◌∷◌, str_eq, is_some,
  Bool-cases, Option-cases, trim_space, Dict, insert, Result, ok, err,
}
use fluentwork_backend.Account.Types.{User, AccountError, confirmation_delete_my_data}
use fluentwork_backend.Account.Store.{MemoryStore, get_user, mark_deleted}
use fluentwork_backend.Account.Privacy.{
  DataWiper, HardDeleter, PrivacyState, DeleteDataResult, restore_wipers, wipe_all, delete_hard,
  cascade, with_wiped, after_wipers, after_cascade, delete_user, delete_all_data,
}

-- What the interface promises for one user, up to a relation between rows, such as "the same but for the times
-- of change": to restore undoes a wipe, and a wipe that fails changes nothing.
pub record CanRestore (B : Type 0) (Same : B → B → Type 0) (wiper : DataWiper B) : Type 0 where
  pub restore-wipe :
      (user_id : String) (now n : ℕ) (b after later : B)
      → wiper.wipe user_id now b ≡ (ok n, after)
      → Same later after
      → Same ((wiper.restore user_id later).1) b
  pub wipe-failed :
      (user_id : String) (now : ℕ) (e : String) (b after : B)
      → wiper.wipe user_id now b ≡ (err e, after)
      → Same after b

abbrev pub CanRestoreAll : {B : Type 0} → (B → B → Type 0) → List (Option (DataWiper B)) → Type 0
CanRestoreAll Same [] = Unit
CanRestoreAll Same (none ∷ wipers) = CanRestoreAll Same wipers
CanRestoreAll {B = B} Same (some wiper ∷ wipers) =
    CanRestore B Same wiper × CanRestoreAll Same wipers

-- A hard deleter that fails changes nothing.
abbrev pub FailsClean : {B : Type 0} → (B → B → Type 0) → String → Option (HardDeleter B) → Type 0
FailsClean Same user_id none = Unit
FailsClean {B = B} Same user_id (some deleter) =
    (message : String) (b after : B)
    → deleter.delete user_id b ≡ (err message, after)
    → Same after b

mark_deleted-found :
    (user_id : String) (at tombstone_at : ℕ) (s : MemoryStore) (user : User)
    → get_user user_id s ≡ some user
    → (mark_deleted user_id at tombstone_at s).0 ≡ none
unfolding mark_deleted
mark_deleted-found user_id at tombstone_at s user found =
    rw (mark_deleted, found)
      (elim (Bool-cases (is_some user.deleted_at)) [ inl e ↦ rw e refl | inr e ↦ rw e refl ])

module _ {B : Type 0} (Same : B → B → Type 0) (user_id : String) (now : ℕ) where
  -- To restore those that have wiped leads from these rows back to the first.
  abbrev Undoes : B → List (DataWiper B) → B → Type 0
  Undoes start wiped b =
      (later : B) → Same later b → Same (restore_wipers user_id wiped later) start

  -- What holds after the loop over the wipers, by its outcome.
  abbrev Wiped : B → Result String (Dict ℕ × List (DataWiper B)) × B → Type 0
  Wiped start (err e, b) = Same b start
  Wiped start (ok (cascaded, wiped), b) = Undoes start wiped b

  Undoes-step :
      (wiper : DataWiper B)
      → CanRestore B Same wiper
      → (start b after : B) (n : ℕ) (wiped : List (DataWiper B)) → Undoes start wiped b
      → wiper.wipe user_id now b ≡ (ok n, after)
      → Undoes start (wiper ∷ wiped) after
  unfolding restore_wipers
  Undoes-step wiper law start b after n wiped h e later same =
      h ((wiper.restore user_id later).1) (law.restore-wipe user_id now n b after later e same)

  -- One wiper and the rest, by what the wiper answers.
  wipe_one :
      (start : B) (wiper : DataWiper B) (wipers : List (Option (DataWiper B))) (cascaded : Dict ℕ)
      (wiped : List (DataWiper B)) (b : B) (answer : Result String ℕ × B)
      → wiper.wipe user_id now b ≡ answer
      → CanRestore B Same wiper
      → Undoes start wiped b
      → ((n : ℕ)
          → Undoes start (wiper ∷ wiped) answer.1
          → Wiped start (
              wipe_all user_id now wipers
                (insert wiper.entity_type n cascaded)
                (wiper ∷ wiped)
                answer.1))
      → Wiped start (wipe_all user_id now (some wiper ∷ wipers) cascaded wiped b)
  unfolding wipe_all
  wipe_one start wiper wipers cascaded wiped b (ok n, after) e law h rest =
      rw (ap (λ a. a.0) e, ap (λ a. a.1) e)
        (rest n (Undoes-step wiper law start b after n wiped h e))
  wipe_one start wiper wipers cascaded wiped b (err message, after) e law h rest =
      rw (ap (λ a. a.0) e, ap (λ a. a.1) e)
        (h after (law.wipe-failed user_id now message b after e))

  wipe_all-Wiped :
      (start : B) (wipers : List (Option (DataWiper B))) (cascaded : Dict ℕ)
      (wiped : List (DataWiper B)) (b : B)
      → CanRestoreAll Same wipers
      → Undoes start wiped b
      → Wiped start (wipe_all user_id now wipers cascaded wiped b)
  unfolding wipe_all
  wipe_all-Wiped start [] cascaded wiped b laws h = h
  wipe_all-Wiped start (none ∷ wipers) cascaded wiped b laws h =
      wipe_all-Wiped start wipers cascaded wiped b laws h
  wipe_all-Wiped start (some wiper ∷ wipers) cascaded wiped b (law, laws) h =
      wipe_one start wiper wipers cascaded wiped b (wiper.wipe user_id now b) refl law h
        (λ n undone.
          wipe_all-Wiped start wipers (insert wiper.entity_type n cascaded) (wiper ∷ wiped)
            ((wiper.wipe user_id now b).1) laws undone)

  -- What holds of rows if a step failed.
  abbrev IfFailed : {A : Type 0} → B → Result String A × B → Type 0
  IfFailed start (err e, b) = Same b start
  IfFailed start (ok value, b) = Unit

  -- The hard deleter, of which there is at most one, by what it answers: its failure undoes the wipers.
  delete_one :
      (start : B) (deleter : HardDeleter B) (cascaded : Dict ℕ) (wiped : List (DataWiper B)) (b : B)
      (answer : Result String ℕ × B)
      → deleter.delete user_id b ≡ answer
      → FailsClean Same user_id (some deleter)
      → Undoes start wiped b
      → IfFailed start (delete_hard user_id (some deleter ∷ []) cascaded wiped b)
  unfolding delete_hard
  delete_one start deleter cascaded wiped b (ok n, after) e law h = rw (ap (λ a. a.0) e) tt
  delete_one start deleter cascaded wiped b (err message, after) e law h =
      rw (ap (λ a. a.0) e, ap (λ a. a.1) e) (h after (law message b after e))

  delete_hard-IfFailed :
      (start : B) (deleter : Option (HardDeleter B)) (cascaded : Dict ℕ)
      (wiped : List (DataWiper B)) (b : B)
      → FailsClean Same user_id deleter
      → Undoes start wiped b
      → IfFailed start (delete_hard user_id (deleter ∷ []) cascaded wiped b)
  unfolding delete_hard
  delete_hard-IfFailed start none cascaded wiped b law h = tt
  delete_hard-IfFailed start (some deleter) cascaded wiped b law h =
      delete_one start deleter cascaded wiped b (deleter.delete user_id b) refl law h

  with_wiped-IfFailed :
      (start : B) (wiped : List (DataWiper B)) (second : Result String (Dict ℕ) × B)
      → IfFailed start second
      → IfFailed start (with_wiped wiped second)
  unfolding with_wiped
  with_wiped-IfFailed start wiped (err e, rows) h = h
  with_wiped-IfFailed start wiped (ok all, rows) h = tt

  after_wipers-IfFailed :
      (start : B) (deleter : Option (HardDeleter B))
      (first : Result String (Dict ℕ × List (DataWiper B)) × B)
      → FailsClean Same user_id deleter
      → Wiped start first
      → IfFailed start (after_wipers user_id (deleter ∷ []) first)
  unfolding after_wipers
  after_wipers-IfFailed start deleter (err e, rows) law h = h
  after_wipers-IfFailed start deleter (ok (cascaded, wiped), rows) law h =
      with_wiped-IfFailed start wiped (delete_hard user_id (deleter ∷ []) cascaded wiped rows)
        (delete_hard-IfFailed start deleter cascaded wiped rows law h)

  cascade-IfFailed :
      (start : B) (wipers : List (Option (DataWiper B))) (deleter : Option (HardDeleter B))
      → CanRestoreAll Same wipers
      → FailsClean Same user_id deleter
      → IfFailed start (cascade user_id now wipers (deleter ∷ []) start)
  unfolding cascade
  cascade-IfFailed start wipers deleter laws law =
      after_wipers-IfFailed start deleter (wipe_all user_id now wipers [] [] start) law
        (wipe_all-Wiped start wipers [] [] start laws (λ later same. same))

  -- A deletion that failed leaves the account rows as they were, and the business rows the same.
  abbrev Kept :
      PrivacyState → B → Result AccountError DeleteDataResult × (PrivacyState × B) → Type 0
  Kept s b (err e, (after, rows)) = (after ≡ s) × Same rows b
  Kept s b (ok answer, (after, rows)) = Unit

  after_cascade-Kept :
      (new_id : ℕ → String) (s : PrivacyState) (b : B) (user : User)
      (outcome : Result String (Dict ℕ × List (DataWiper B)) × B)
      → get_user user_id s.users ≡ some user
      → IfFailed b outcome
      → Kept s b (after_cascade new_id user_id now s outcome)
  unfolding after_cascade
  after_cascade-Kept new_id s b user (err e, rows) found h = (refl, h)
  after_cascade-Kept new_id s b user (ok (counts, wiped), rows) found h =
      rw (Kept, mark_deleted-found user_id now now s.users user found) tt

-- What a deletion that answers an error leaves, by the relation that the wipers' restoring keeps.
pub delete_all_data_lem :
    {B : Type 0} (Same : B → B → Type 0)
    → ((b : B) → Same b b)
    → (new_id : ℕ → String) (wipers : List (Option (DataWiper B)))
      (deleter : Option (HardDeleter B)) (raw_id code : String) (now : ℕ) (s : PrivacyState) (b : B)
    → CanRestoreAll Same wipers
    → FailsClean Same (trim_space raw_id) deleter
    → (e : AccountError) (after : PrivacyState) (rows : B)
    → delete_all_data new_id wipers (deleter ∷ []) raw_id code now s b ≡ (err e, (after, rows))
    → (after ≡ s) × Same rows b
unfolding delete_all_data delete_user
delete_all_data_lem Same same new_id wipers deleter raw_id code now s b laws law e after rows h =
    subst (Kept Same (trim_space raw_id) now s b) h
      (elim (Bool-cases (str_eq (trim_space raw_id) "")) [
        | inl no_id ↦ rw no_id (refl, same b)
        | inr has_id ↦
            rw has_id (elim (Bool-cases (str_eq (trim_space code) confirmation_delete_my_data)) [
              | inr wrong ↦ rw wrong (refl, same b)
              | inl right ↦ rw right (elim (Option-cases (get_user (trim_space raw_id) s.users)) [
                | inl missing ↦ rw missing (refl, same b)
                | inr (user, found) ↦ rw found (elim (Bool-cases (is_some user.deleted_at)) [
                  | inl gone ↦ rw gone tt
                  | inr here ↦ rw here (
                      after_cascade-Kept Same (trim_space raw_id) now new_id s b user
                        (cascade (trim_space raw_id) now wipers (deleter ∷ []) b) found
                        (cascade-IfFailed Same (trim_space raw_id) now b wipers deleter laws law))
                ])
              ])
            ])
      ])
