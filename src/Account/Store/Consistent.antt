-- ===== src/Account/Store/Consistent.antt =====
-- internal/account/memory_store.go: what every sequence of the store's calls keeps.
use fluentwork_backend.Base.{
  ℕ, String, ◌≡◌, refl, ◌∙◌, subst, inl, inr, Bool, ◌&&◌, some, List, [], ◌∷◌, str_eq, eq_iff,
  is_some, Bool-cases, Option-cases, Dict, lookup, insert, HasKeysOnce, lookup-insert,
  insert-HasKeysOnce, insert-HasKeysOnce, lookup-insert, remove_where, remove_where-HasKeysOnce,
  remove_where-lookup, insert-HasKeysOnce,
}
use fluentwork_backend.Account.Types.{User, RefreshToken, Tombstone, AuditLog, is_active}
use fluentwork_backend.Account.Store.{
  MemoryStore, new_memory_store, key_of, is_taken, create_user, mark_merged, merge_rows,
  mark_deleted, clear_deleted, replace_refresh_token, delete_refresh_tokens_for_user,
  insert_tombstone, delete_tombstones_for_user, insert_audit, is_token_of,
}

-- The calls of the interface `Store` that change it.
pub data StoreCall : Type 0 where
  creates : User → StoreCall
  marks_merged : String → String → String → ℕ → StoreCall
  replaces_token : RefreshToken → StoreCall
  deletes_tokens : String → StoreCall
  marks_deleted : String → ℕ → ℕ → StoreCall
  clears_deleted : String → StoreCall
  inserts_tombstone : Tombstone → StoreCall
  deletes_tombstones : String → StoreCall
  inserts_audit : AuditLog → StoreCall

unfoldable pub store_call : StoreCall → MemoryStore → MemoryStore
store_call (StoreCall.creates user) s = (create_user user s).1
store_call (StoreCall.marks_merged guest_id target_id device_id at) s =
    (mark_merged guest_id target_id device_id at s).1
store_call (StoreCall.replaces_token token) s = replace_refresh_token token s
store_call (StoreCall.deletes_tokens user_id) s = delete_refresh_tokens_for_user user_id s
store_call (StoreCall.marks_deleted user_id at tombstone_at) s =
    (mark_deleted user_id at tombstone_at s).1
store_call (StoreCall.clears_deleted user_id) s = (clear_deleted user_id s).1
store_call (StoreCall.inserts_tombstone row) s = insert_tombstone row s
store_call (StoreCall.deletes_tombstones user_id) s = (delete_tombstones_for_user user_id s).1
store_call (StoreCall.inserts_audit row) s = insert_audit row s

unfoldable pub store_calls : List StoreCall → MemoryStore → MemoryStore
unfolding store_call
store_calls [] s = s
store_calls (call ∷ calls) s = store_calls calls (store_call call s)

-- Every user stands at its id.
abbrev pub AreKeyed : Dict User → Type 0
AreKeyed users = (key : String) (user : User) → lookup key users ≡ some user → user.id ≡ key

-- Every user stands at its id, no refresh token stands twice, and each token stands at its hash.
abbrev pub IsConsistent : MemoryStore → Type 0
IsConsistent s =
    AreKeyed s.users
    × HasKeysOnce s.tokens
    × ((hash : String) (token : RefreshToken)
        → lookup hash s.tokens ≡ some token
        → token.hash ≡ hash)

insert-AreKeyed :
    (key : String) (user : User) (users : Dict User)
    → user.id ≡ key
    → AreKeyed users
    → AreKeyed (insert key user users)
insert-AreKeyed key user users named h other found e = elim (Bool-cases (str_eq key other)) [
  | inl f ↦
      let stored : some user ≡ some found = rw (lookup-insert, f) at e in
      let same : user ≡ found = cc stored in
      subst (λ (u : User). u.id ≡ other) same (named ∙ (eq_iff key other).0 f)
  | inr f ↦ h other found (rw (lookup-insert, f) at e)
]

-- A call that keeps the users at their ids and leaves the tokens.
abbrev Keeps : MemoryStore → MemoryStore → Type 0
Keeps s after = AreKeyed after.users × (after.tokens ≡ s.tokens)

create_user-Keeps :
    (user : User) (s : MemoryStore) → AreKeyed s.users → Keeps s (create_user user s).1
unfolding create_user
create_user-Keeps user s h = elim (Bool-cases (is_some (lookup user.id s.users))) [
  | inl e ↦ rw (create_user, e) (h, refl)
  | inr e ↦ elim (Bool-cases (is_taken (key_of user.device_id) s.by_device)) [
    | inl f ↦ rw (create_user, e, f) (h, refl)
    | inr f ↦ elim (Bool-cases (is_taken (key_of user.email) s.by_email)) [
      | inl g ↦ rw (create_user, e, f, g) (h, refl)
      | inr g ↦ rw (create_user, e, f, g) (insert-AreKeyed user.id user s.users refl h, refl)
    ]
  ]
]

mark_merged-Keeps :
    (guest_id target_id device_id : String) (at : ℕ) (s : MemoryStore)
    → AreKeyed s.users
    → Keeps s (mark_merged guest_id target_id device_id at s).1
unfolding mark_merged merge_rows
mark_merged-Keeps guest_id target_id device_id at s h =
    elim (Option-cases (lookup guest_id s.users)) [
      | inl e ↦ rw (mark_merged, e) (h, refl)
      | inr (guest, e) ↦ elim (Bool-cases (guest.is_guest && is_active guest.status)) [
        | inr f ↦ rw (mark_merged, e, f) (h, refl)
        | inl f ↦ elim (Option-cases (lookup target_id s.users)) [
          | inl g ↦ rw (mark_merged, e, f, g) (h, refl)
          | inr (target, g) ↦ elim (Bool-cases (is_active target.status)) [
            | inr k ↦ rw (mark_merged, e, f, g, k) (h, refl)
            | inl k ↦
                rw (mark_merged, e, f, g, k)
                  (
                    insert-AreKeyed target_id _ _ (h target_id target g)
                        (insert-AreKeyed guest_id _ s.users (h guest_id guest e) h),
                    refl,
                  )
          ]
        ]
      ]
    ]

mark_deleted-Keeps :
    (user_id : String) (at tombstone_at : ℕ) (s : MemoryStore)
    → AreKeyed s.users
    → Keeps s (mark_deleted user_id at tombstone_at s).1
unfolding mark_deleted
mark_deleted-Keeps user_id at tombstone_at s h = elim (Option-cases (lookup user_id s.users)) [
  | inl e ↦ rw (mark_deleted, e) (h, refl)
  | inr (user, e) ↦ elim (Bool-cases (is_some user.deleted_at)) [
    | inl f ↦ rw (mark_deleted, e, f) (h, refl)
    | inr f ↦ rw (mark_deleted, e, f) (insert-AreKeyed user_id _ s.users (h user_id user e) h, refl)
  ]
]

clear_deleted-Keeps :
    (user_id : String) (s : MemoryStore) → AreKeyed s.users → Keeps s (clear_deleted user_id s).1
unfolding clear_deleted
clear_deleted-Keeps user_id s h = elim (Option-cases (lookup user_id s.users)) [
  | inl e ↦ rw (clear_deleted, e) (h, refl)
  | inr (user, e) ↦
      rw (clear_deleted, e) (insert-AreKeyed user_id _ s.users (h user_id user e) h, refl)
]

-- A token stands at its hash.
abbrev AtHash : Dict RefreshToken → Type 0
AtHash tokens =
    (hash : String) (token : RefreshToken) → lookup hash tokens ≡ some token → token.hash ≡ hash

insert-AtHash :
    (token : RefreshToken) (tokens : Dict RefreshToken)
    → AtHash tokens
    → AtHash (insert token.hash token tokens)
insert-AtHash token tokens h other found e = elim (Bool-cases (str_eq token.hash other)) [
  | inl f ↦
      let stored : some token ≡ some found = rw (lookup-insert, f) at e in
      let same : token ≡ found = cc stored in
      subst (λ (u : RefreshToken). u.hash ≡ other) same ((eq_iff token.hash other).0 f)
  | inr f ↦ h other found (rw (lookup-insert, f) at e)
]

remove_where-AtHash :
    (test : RefreshToken → Bool) (tokens : Dict RefreshToken)
    → HasKeysOnce tokens
    → AtHash tokens
    → AtHash (remove_where test tokens)
remove_where-AtHash test tokens once h hash token e =
    h hash token (remove_where-lookup test hash token tokens once e)

Keeps-IsConsistent : (s after : MemoryStore) → Keeps s after → IsConsistent s → IsConsistent after
Keeps-IsConsistent s after (keyed, same) h = (keyed, rw same h.1, rw same h.2)

-- A call keeps the store consistent.
store_call-IsConsistent :
    (call : StoreCall) (s : MemoryStore) → IsConsistent s → IsConsistent (store_call call s)
unfolding store_call replace_refresh_token delete_refresh_tokens_for_user delete_tombstones_for_user
store_call-IsConsistent (StoreCall.creates user) s h =
    Keeps-IsConsistent s (create_user user s).1 (create_user-Keeps user s h.0) h
store_call-IsConsistent (StoreCall.marks_merged guest_id target_id device_id at) s h =
    Keeps-IsConsistent s (mark_merged guest_id target_id device_id at s).1
      (mark_merged-Keeps guest_id target_id device_id at s h.0) h
store_call-IsConsistent (StoreCall.replaces_token token) s h =
    let test = is_token_of token.user_id in
    (
      h.0,
      insert-HasKeysOnce token.hash token (remove_where test s.tokens)
          (remove_where-HasKeysOnce test s.tokens h.1),
      insert-AtHash token (remove_where test s.tokens) (remove_where-AtHash test s.tokens h.1 h.2),
    )
store_call-IsConsistent (StoreCall.deletes_tokens user_id) s h =
    let test = is_token_of user_id in
    (h.0, remove_where-HasKeysOnce test s.tokens h.1, remove_where-AtHash test s.tokens h.1 h.2)
store_call-IsConsistent (StoreCall.marks_deleted user_id at tombstone_at) s h =
    Keeps-IsConsistent s (mark_deleted user_id at tombstone_at s).1
      (mark_deleted-Keeps user_id at tombstone_at s h.0) h
store_call-IsConsistent (StoreCall.clears_deleted user_id) s h =
    Keeps-IsConsistent s (clear_deleted user_id s).1 (clear_deleted-Keeps user_id s h.0) h
store_call-IsConsistent (StoreCall.inserts_tombstone row) s h = h
store_call-IsConsistent (StoreCall.deletes_tombstones user_id) s h = h
store_call-IsConsistent (StoreCall.inserts_audit row) s h = h

new_memory_store-IsConsistent : IsConsistent new_memory_store
unfolding lookup HasKeysOnce
new_memory_store-IsConsistent = ((λ key user h. absurd (cc h)), tt, (λ hash token h. absurd (cc h)))

store_calls-keep :
    (calls : List StoreCall) (s : MemoryStore) → IsConsistent s → IsConsistent (store_calls calls s)
unfolding store_calls
store_calls-keep [] s h = h
store_calls-keep (call ∷ calls) s h =
    store_calls-keep calls (store_call call s) (store_call-IsConsistent call s h)

-- Whatever calls a new store takes, each user stands at its id, each refresh token at its hash, and no hash twice.
pub store_calls-IsConsistent :
    (calls : List StoreCall) → IsConsistent (store_calls calls new_memory_store)
store_calls-IsConsistent calls =
    store_calls-keep calls new_memory_store new_memory_store-IsConsistent
