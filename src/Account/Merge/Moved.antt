-- ===== src/Account/Merge/Moved.antt =====
-- internal/account/service.go: what an answered merge leaves of the guest, in the account store and in the stores of the
-- other modules.
use fluentwork_backend.Base.{
  ℕ, String, ◌≡◌, refl, sym, ap, subst, inl, inr, Bool, true, false, not, ◌&&◌, none, some, arith,
  str_eq, eq_iff, Bool-cases, Option-cases, lookup, lookup-insert, lookup-insert_self, Result, ok,
  err, Result-cases, lookup-insert, lookup-remove_where, pair_eq,
}
use fluentwork_backend.Account.Types.{
  User, UserStatus, RefreshToken, MergeResponse, AccountError, is_active, is_merged,
}
use fluentwork_backend.Account.Store.{
  MemoryStore, get_user, active_user, get_active_by_device_id, mark_merged, merge_rows,
  delete_refresh_tokens_for_user, is_token_of,
}
use fluentwork_backend.Account.Service.{AccountState, normalize_device_id}
use fluentwork_backend.Account.Store.Consistent.{AreKeyed}
use fluentwork_backend.Account.Merge.{Reassigner, chain_reassign, merge_guest, merge}
use fluentwork_backend.Account.Merge.Rows.{Rows, reassigners, OwnsNothing, reassigners-OwnsNothing}

-- What the account store holds of a guest that was merged: the device stands for the target, the guest is
-- archived, and has no refresh token.
abbrev pub IsMerged : String → String → String → MemoryStore → Type 0
IsMerged guest_id target_id device_id s =
    ((holder : User) × (get_active_by_device_id device_id s ≡ some holder)
      × (holder.id ≡ target_id)
      × (holder.device_id ≡ some device_id))
    × ((guest : User) × (get_user guest_id s ≡ some guest)
        × (is_merged guest.status ≡ true)
        × (guest.merged_into_user_id ≡ some target_id))
    × ((hash : String) (token : RefreshToken)
        → lookup hash s.tokens ≡ some token
        → is_token_of guest_id token ≡ false)

merge_rows-IsMerged :
    (guest target : User) (guest_id target_id device_id : String) (at : ℕ) (s : MemoryStore)
    → str_eq target_id guest_id ≡ false
    → is_active target.status ≡ true
    → target.id ≡ target_id
    → IsMerged guest_id target_id device_id (
        merge_rows guest target guest_id target_id device_id at
          (delete_refresh_tokens_for_user guest_id s))
unfolding merge_rows get_active_by_device_id active_user delete_refresh_tokens_for_user is_merged
merge_rows-IsMerged guest target guest_id target_id device_id at s apart live named = (
  (
    record target { device_id = some device_id; updated_at = at },
    rw
        (
          get_active_by_device_id, merge_rows, lookup-insert_self, active_user, merge_rows,
          lookup-insert_self, live,
        )
        refl,
    named,
    refl,
  ),
  (
    record guest {
      device_id = none;
      status = UserStatus.merged;
      merged_into_user_id = some target_id;
      updated_at = at;
    },
    rw (lookup-insert, apart, lookup-insert_self) refl,
    refl,
    refl,
  ),
  (λ hash token h. lookup-remove_where (is_token_of guest_id) hash token s.tokens h),
)

-- The store that an answered `MarkMerged` leaves, by the rows that it found.
mark_merged-found :
    (guest_id target_id device_id : String) (at : ℕ) (s after : MemoryStore)
    → mark_merged guest_id target_id device_id at s ≡ (none, after)
    → (guest : User) × (target : User) × (get_user target_id s ≡ some target)
      × (is_active target.status ≡ true)
      × (after ≡ merge_rows guest target guest_id target_id device_id at s)
unfolding mark_merged
mark_merged-found guest_id target_id device_id at s after h =
    elim (Option-cases (get_user guest_id s)) [
      | inl e ↦ absurd (cc (rw (mark_merged, e) at h))
      | inr (guest, e) ↦ elim (Bool-cases (guest.is_guest && is_active guest.status)) [
        | inr f ↦ absurd (cc (rw (mark_merged, e, f) at h))
        | inl f ↦ elim (Option-cases (get_user target_id s)) [
          | inl g ↦ absurd (cc (rw (mark_merged, e, f, g) at h))
          | inr (target, g) ↦ elim (Bool-cases (is_active target.status)) [
            | inr k ↦ absurd (cc (rw (mark_merged, e, f, g, k) at h))
            | inl k ↦ (guest, target, g, k, ap (λ a. a.1) (sym (rw (mark_merged, e, f, g, k) at h)))
          ]
        ]
      ]
    ]

-- Whether an answer says that there was a merge.
abbrev merged_now : Result AccountError MergeResponse → Bool
merged_now (ok answer) = not answer.already_merged
merged_now (err e) = false

module _ {B : Type 0} (reassigner : Reassigner B) where
  -- What an answered merge has done, by its guest, its device and the rows that the other modules left.
  abbrev Moves : String → String → ℕ → AccountState → B → AccountState → B → Type 0
  Moves actor_id raw_device now s b after rows =
      (guest : User) × (actor : User) × (device : String) × (normalize_device_id raw_device
        ≡ ok device)
      × (guest.is_guest ≡ true)
      × (get_active_by_device_id device s.store ≡ some guest)
      × (get_user actor_id s.store ≡ some actor)
      × (str_eq guest.id actor.id ≡ false)
      × (reassigner.reassign_from_guest guest.id actor.id b ≡ (none, rows))
      × (mark_merged guest.id actor.id device now (delete_refresh_tokens_for_user guest.id s.store)
          ≡ (none, after.store))

  merge_guest-Moves :
      (guest actor : User) (device : String) (now : ℕ) (s after : AccountState) (b rows : B)
      (answer : Result AccountError MergeResponse)
      → merge_guest reassigner guest actor device now s b ≡ (answer, (after, rows))
      → merged_now answer ≡ true
      → (reassigner.reassign_from_guest guest.id actor.id b ≡ (none, rows))
        × (mark_merged guest.id actor.id device now
              (delete_refresh_tokens_for_user guest.id s.store)
            ≡ (none, after.store))
  unfolding merge_guest
  merge_guest-Moves guest actor device now s after b rows answer h told =
      let moved = reassigner.reassign_from_guest guest.id actor.id b in
      let marked =
        mark_merged guest.id actor.id device now
          (delete_refresh_tokens_for_user guest.id s.store) in
      elim (Option-cases (moved.0)) [
        | inr (e, f) ↦ absurd (cc (rw (sym (ap (λ a. a.0) h), merge_guest, f) at told))
        | inl f ↦ elim (Option-cases (marked.0)) [
          | inr (e, g) ↦ absurd (cc (rw (sym (ap (λ a. a.0) h), merge_guest, f, g) at told))
          | inl g ↦
              let done = rw (merge_guest, f, g) at h in
              (
                pair_eq moved none rows f (ap (λ a. a.1.1) done),
                pair_eq marked none after.store g (ap (λ a. a.1.0.store) done),
              )
        ]
      ]

  merge-Moves :
      (actor_id raw_device : String) (now : ℕ) (s after : AccountState) (b rows : B)
      (answer : Result AccountError MergeResponse)
      → merge reassigner actor_id raw_device now s b ≡ (answer, (after, rows))
      → merged_now answer ≡ true
      → Moves actor_id raw_device now s b after rows
  unfolding merge
  merge-Moves actor_id raw_device now s after b rows answer h told =
      elim (Result-cases (normalize_device_id raw_device)) [
        | inr (e, f) ↦ absurd (cc (rw (sym (ap (λ a. a.0) h), merge, f) at told))
        | inl (device, f) ↦ elim (Option-cases (get_user actor_id s.store)) [
          | inl g ↦ absurd (cc (rw (sym (ap (λ a. a.0) h), merge, f, g) at told))
          | inr (actor, g) ↦ elim (Bool-cases (actor.is_guest)) [
            | inl k ↦ absurd (cc (rw (sym (ap (λ a. a.0) h), merge, f, g, k) at told))
            | inr k ↦ elim (Bool-cases (is_active actor.status)) [
              | inr l ↦ absurd (cc (rw (sym (ap (λ a. a.0) h), merge, f, g, k, l) at told))
              | inl l ↦ elim (Option-cases (get_active_by_device_id device s.store)) [
                | inl m ↦ absurd (cc (rw (sym (ap (λ a. a.0) h), merge, f, g, k, l, m) at told))
                | inr (guest, m) ↦ elim (Bool-cases (str_eq guest.id actor.id)) [
                  | inl n ↦
                      absurd (cc (rw (sym (ap (λ a. a.0) h), merge, f, g, k, l, m, n) at told))
                  | inr n ↦ elim (Bool-cases (guest.is_guest)) [
                    | inr o ↦
                        absurd (cc (rw (sym (ap (λ a. a.0) h), merge, f, g, k, l, m, n, o) at told))
                    | inl o ↦
                        let (moved, marked) =
                          merge_guest-Moves guest actor device now s after b rows answer
                            (rw (merge, f, g, k, l, m, n, o) at h) told in
                        (guest, actor, device, f, o, m, g, n, moved, marked)
                  ]
                ]
              ]
            ]
          ]
        ]
      ]

apart_sym : (a b : String) → str_eq a b ≡ false → str_eq b a ≡ false
apart_sym a b h = ground (arith, eq_iff a b, eq_iff b a)

-- With the modules of sessions and of the corpus, and users that stand under their ids: where a merge answers that it
-- merged now, the device that the request names, normalized, was held by a guest; the device now stands for the
-- account, that guest is archived and has no refresh token, and no session, ticket or block belongs to it any more.
pub merge-IsMerged :
    (actor_id raw_device : String) (now : ℕ) (s after : AccountState) (b rows : Rows)
    (answer : Result AccountError MergeResponse)
    → AreKeyed s.store.users
    → merge
        (record { reassign_from_guest = chain_reassign (reassigners now) })
        actor_id
        raw_device
        now
        s
        b
      ≡ (answer, (after, rows))
    → merged_now answer ≡ true
    → (guest : User) × (device : String) × (normalize_device_id raw_device ≡ ok device)
      × (get_active_by_device_id device s.store ≡ some guest)
      × (guest.is_guest ≡ true)
      × IsMerged guest.id actor_id device after.store
      × OwnsNothing guest.id rows
unfolding delete_refresh_tokens_for_user
merge-IsMerged actor_id raw_device now s after b rows answer keyed h told =
    let (guest, actor, device, asked, was_guest, held, known, apart, moved, marked) =
      merge-Moves (record { reassign_from_guest = chain_reassign (reassigners now) }) actor_id
        raw_device now s after b rows answer h told in
    let (archived, target, known_target, live, written) =
      mark_merged-found guest.id actor.id device now
        (delete_refresh_tokens_for_user guest.id s.store) after.store marked in
    let distinct = apart_sym guest.id actor.id apart in
    (
      guest,
      device,
      asked,
      held,
      was_guest,
      subst (λ id. IsMerged guest.id id device after.store) (keyed actor_id actor known)
          (subst (IsMerged guest.id actor.id device) (sym written) (
            merge_rows-IsMerged archived target guest.id actor.id device now s.store distinct live
              (keyed actor.id target known_target))),
      subst (OwnsNothing guest.id) (ap (λ a. a.1) moved)
          (reassigners-OwnsNothing guest.id actor.id distinct now b).1,
    )
