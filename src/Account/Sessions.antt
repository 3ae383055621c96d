-- ===== src/Account/Sessions.antt =====
-- internal/account/service.go, service_auth.go and token.go: a user has one refresh token, and what it is good for.
use fluentwork_backend.Base.{
  ℕ, String, ◌≡◌, refl, sym, ap, ◌∙◌, inl, inr, true, false, none, some, str_eq, eq_iff, eq_refl,
  ltb, Bool-cases, Option-cases, trim_space, lookup, HasKeysOnce, lookup-insert, lookup-insert_self,
  add_time, Result, ok, err, lookup-insert, remove_where, lookup-remove_where,
  lookup-remove_where_gone,
}
use fluentwork_backend.Account.Types.{User, RefreshToken, TokenResponse, AccountError, is_active}
use fluentwork_backend.Account.Store.{MemoryStore, get_user, replace_refresh_token, is_token_of}
use fluentwork_backend.Account.Store.Consistent.{AreKeyed}
use fluentwork_backend.Account.Service.{
  Service, AccountState, claims_of, refresh_of, issue_session, refresh,
}

-- Every token that a user has stands at this hash.
abbrev pub OnlyTokenAt : String → String → MemoryStore → Type 0
OnlyTokenAt user_id hash s =
    (other : String) (token : RefreshToken)
    → lookup other s.tokens ≡ some token
    → token.user_id ≡ user_id
    → other ≡ hash

replace_refresh_token-OnlyTokenAt :
    (token : RefreshToken) (s : MemoryStore)
    → OnlyTokenAt token.user_id token.hash (replace_refresh_token token s)
unfolding replace_refresh_token
replace_refresh_token-OnlyTokenAt token s other found h owned =
    elim (Bool-cases (str_eq token.hash other)) [
      | inl e ↦ sym ((eq_iff token.hash other).0 e)
      | inr e ↦
          let kept : lookup other (remove_where (is_token_of token.user_id) s.tokens) ≡ some found =
            rw (lookup-insert, e) at h in
          absurd (
            cc (
              rw (owned, eq_refl token.user_id) at
                (lookup-remove_where (is_token_of token.user_id) other found s.tokens kept)))
    ]

-- The refresh token and the user of an answer, or what stands for them where there is none.
abbrev told_by : Result AccountError TokenResponse → String → String
told_by (ok answer) raw = answer.refresh_token
told_by (err e) raw = raw

abbrev user_by : Result AccountError TokenResponse → String → String
user_by (ok answer) id = answer.user_id
user_by (err e) id = id

-- An issued session, by the token that it stored.
pub issue_session-stored :
    (service : Service) (user : User) (now : ℕ) (s after : AccountState) (answer : TokenResponse)
    → issue_session service user now s ≡ (ok answer, after)
    → (after.store
        ≡ replace_refresh_token (refresh_of service user now answer.refresh_token s) s.store)
      × (answer.user_id ≡ user.id)
unfolding issue_session
issue_session-stored service user now s after answer h =
    elim (Option-cases (service.sign (claims_of service user now s))) [
      | inl e ↦ absurd (cc (rw (issue_session, e) at h))
      | inr (access, e) ↦ elim (Option-cases (service.random_token s.draws)) [
        | inl f ↦ absurd (cc (rw (issue_session, e, f) at h))
        | inr (raw, f) ↦
            let done = rw (issue_session, e, f) at h in
            (
              ap (λ a. a.1.store) (sym done)
                  ∙ ap (λ told. replace_refresh_token (refresh_of service user now told s) s.store)
                      (ap (λ a. told_by a.0 raw) done),
              ap (λ a. user_by a.0 user.id) (sym done),
            )
      ]
    ]

-- What a refresh has found where it is answered.
abbrev Renewed : Service → String → ℕ → AccountState → AccountState → TokenResponse → Type 0
Renewed service raw now s after answer =
    (stored : RefreshToken) × (user : User) × (lookup (service.hash_token raw) s.store.tokens
      ≡ some stored)
    × (get_user stored.user_id s.store ≡ some user)
    × (is_active user.status ≡ true)
    × (ltb now stored.expires_at ≡ true)
    × (issue_session service user now s ≡ (ok answer, after))
    × (str_eq raw "" ≡ false)

refresh-Renewed :
    (service : Service) (token : String) (now : ℕ) (s after : AccountState) (answer : TokenResponse)
    → refresh service token now s ≡ (ok answer, after)
    → Renewed service (trim_space token) now s after answer
unfolding refresh
refresh-Renewed service token now s after answer h =
    elim (Bool-cases (str_eq (trim_space token) "")) [
      | inl e ↦ absurd (cc (rw (refresh, e) at h))
      | inr e ↦
          elim (Option-cases (lookup (service.hash_token (trim_space token)) s.store.tokens)) [
            | inl f ↦ absurd (cc (rw (refresh, e, f) at h))
            | inr (stored, f) ↦ elim (Bool-cases (ltb now stored.expires_at)) [
              | inr g ↦ absurd (cc (rw (refresh, e, f, g) at h))
              | inl g ↦ elim (Option-cases (get_user stored.user_id s.store)) [
                | inl k ↦ absurd (cc (rw (refresh, e, f, g, k) at h))
                | inr (user, k) ↦ elim (Bool-cases (is_active user.status)) [
                  | inr l ↦ absurd (cc (rw (refresh, e, f, g, k, l) at h))
                  | inl l ↦ (stored, user, f, k, l, g, rw (refresh, e, f, g, k, l) at h, e)
                ]
              ]
            ]
          ]
    ]

unknown_token :
    (service : Service) (token : String) (later : ℕ) (s : AccountState)
    → str_eq (trim_space token) "" ≡ false
    → lookup (service.hash_token (trim_space token)) s.store.tokens ≡ none
    → refresh service token later s
      ≡ (err (AccountError.unauthenticated "invalid refresh token"), s)
unfolding refresh
unknown_token service token later s named missing = rw (refresh, named, missing) refl

-- What a rotation leaves at the old hash and at the new one.
replace_refresh_token-gone :
    (token stored : RefreshToken) (hash : String) (s : MemoryStore)
    → HasKeysOnce s.tokens
    → lookup hash s.tokens ≡ some stored
    → stored.user_id ≡ token.user_id
    → str_eq token.hash hash ≡ false
    → lookup hash (replace_refresh_token token s).tokens ≡ none
unfolding replace_refresh_token
replace_refresh_token-gone token stored hash s once found owned other =
    rw (replace_refresh_token, lookup-insert, other)
      (lookup-remove_where_gone (is_token_of token.user_id) hash stored s.tokens once found
        (rw (owned) (eq_refl token.user_id)))

replace_refresh_token-found :
    (token : RefreshToken) (s : MemoryStore)
    → lookup token.hash (replace_refresh_token token s).tokens ≡ some token
unfolding replace_refresh_token
replace_refresh_token-found token s =
    lookup-insert_self token.hash token (remove_where (is_token_of token.user_id) s.tokens)

-- An answered refresh replaces the token: the one it was given is not accepted any more at any time, unless the
-- new one has the same hash, and the new one is the only one that the user has.
pub refresh-rotates :
    (service : Service) (token : String) (now later : ℕ) (s after : AccountState)
    (answer : TokenResponse)
    → HasKeysOnce s.store.tokens
    → AreKeyed s.store.users
    → refresh service token now s ≡ (ok answer, after)
    → str_eq (service.hash_token answer.refresh_token) (service.hash_token (trim_space token))
      ≡ false
    → (refresh service token later after
        ≡ (err (AccountError.unauthenticated "invalid refresh token"), after))
      × OnlyTokenAt answer.user_id (service.hash_token answer.refresh_token) after.store
      × ((stored : RefreshToken) × (lookup
              (service.hash_token answer.refresh_token)
              after.store.tokens
            ≡ some stored)
          × (stored.user_id ≡ answer.user_id)
          × (stored.expires_at ≡ add_time now service.refresh_token_ttl))
refresh-rotates service token now later s after answer once keyed h other =
    let (stored, user, held, known, live, valid, issued, named) =
      refresh-Renewed service token now s after answer h in
    let (written, named_user) = issue_session-stored service user now s after answer issued in
    let new = refresh_of service user now answer.refresh_token s in
    let owned : stored.user_id ≡ user.id = sym (keyed stored.user_id user known) in
    (
      unknown_token service token later after named (
          rw (written) (
            replace_refresh_token-gone new stored (service.hash_token (trim_space token)) s.store
              once held owned other)),
      rw (written, named_user) (replace_refresh_token-OnlyTokenAt new s.store),
      (new, rw (written) (replace_refresh_token-found new s.store), sym named_user, refl),
    )
