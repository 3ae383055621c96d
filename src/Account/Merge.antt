-- ===== src/Account/Merge.antt =====
-- internal/account/service.go: the merge of a guest into a registered account.
pub mod Rows
pub mod Moved
use fluentwork_backend.Base.{
  ℕ, String, true, false, not, Option, none, some, List, [], ◌∷◌, str_eq, if◌then◌else◌, Result, ok,
  err,
}
use fluentwork_backend.Account.Types.{User, MergeResponse, AccountError, is_active}
use fluentwork_backend.Account.Store.{
  MemoryStore, get_user, get_active_by_device_id, mark_merged, find_guest_merged_into,
  delete_refresh_tokens_for_user,
}
use fluentwork_backend.Account.Service.{AccountState, normalize_device_id}

-- `Reassigner`: a module moves a guest's rows; an error is a text.
pub record Reassigner {ℓ} (B : Type ℓ) : Type ℓ where
  pub reassign_from_guest : String → String → B → Option String × B

-- `ChainReassigner`: each in turn, nil ones skipped, until one fails.
unfoldable pub chain_reassign {ℓ} :
    {B : Type ℓ} → List (Option (Reassigner B)) → String → String → B → Option String × B
chain_reassign [] guest target b = (none, b)
chain_reassign (none ∷ items) guest target b = chain_reassign items guest target b
chain_reassign (some item ∷ items) guest target b =
    let (e, after) = item.reassign_from_guest guest target b in
    let rest = chain_reassign items guest target after in
    elim e [ some message ↦ (some message, after) | none ↦ rest ]

-- The writes of `Merge` on a guest that holds the device: the business rows first, then the tokens,
-- then the users.
unfoldable pub merge_guest {ℓ} :
    {B : Type ℓ}
    → Reassigner B
    → User
    → User
    → String
    → ℕ
    → AccountState
    → B
    → Result AccountError MergeResponse × (AccountState × B)
merge_guest reassigner holder actor device_id now s b =
    let (failure, after) = reassigner.reassign_from_guest holder.id actor.id b in
    let signed_out = delete_refresh_tokens_for_user holder.id s.store in
    let (not_marked, store) = mark_merged holder.id actor.id device_id now signed_out in
    elim failure [
      | some e ↦ (err (AccountError.business_error e), (s, after))
      | none ↦ elim not_marked [
        | some e ↦ (err (AccountError.store_error e), (record s { store = store }, after))
        | none ↦ (
          ok (record {
            user_id = actor.id;
            is_guest = false;
            merged_from_user_id = some holder.id;
            already_merged = false;
          }),
          (record s { store = store }, after),
        )
      ]
    ]

-- `mergedFrom`
abbrev merged_from : String → MemoryStore → Option String
merged_from target_id store = elim (find_guest_merged_into target_id store) [
  | none ↦ none
  | some guest ↦ some guest.id
]

-- The answer of `Merge` where the actor holds the device already.
abbrev already_merged_answer :
    User → AccountState → Result AccountError MergeResponse × AccountState
already_merged_answer actor s =
    let from = merged_from actor.id s.store in
    (
      ok (record {
        user_id = actor.id;
        is_guest = false;
        merged_from_user_id = from;
        already_merged = true;
      }),
      elim from [
        | none ↦ s
        | some id ↦ record s { store = delete_refresh_tokens_for_user id s.store }
      ],
    )

abbrev answer_with {ℓ} :
    {B : Type ℓ}
    → B
    → Result AccountError MergeResponse × AccountState
    → Result AccountError MergeResponse × (AccountState × B)
answer_with b (answer, s) = (answer, (s, b))

-- `Merge`
unfoldable pub merge {ℓ} :
    {B : Type ℓ}
    → Reassigner B
    → String
    → String
    → ℕ
    → AccountState
    → B
    → Result AccountError MergeResponse × (AccountState × B)
unfolding merge_guest normalize_device_id
merge reassigner actor_user_id device_id now s b = elim (normalize_device_id device_id) [
  | err e ↦ (err e, (s, b))
  | ok normalized ↦ elim (get_user actor_user_id s.store) [
    | none ↦ (err (AccountError.unauthenticated "invalid access token"), (s, b))
    | some actor ↦
        if actor.is_guest
        then (err (AccountError.permission_denied "registered account required"), (s, b))
        else if not (is_active actor.status)
        then (err (AccountError.unauthenticated "account is not active"), (s, b))
        else elim (get_active_by_device_id normalized s.store) [
          | none ↦ (err (AccountError.api_not_found "guest identity not found"), (s, b))
          | some holder ↦
              if str_eq holder.id actor.id
              then answer_with b (already_merged_answer actor s)
              else if not holder.is_guest
              then (err (AccountError.api_conflict "device_id is bound to another account"), (s, b))
              else merge_guest reassigner holder actor normalized now s b
        ]
  ]
]
