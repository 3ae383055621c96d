-- ===== src/Account/SignIn/Return.antt =====
-- internal/account/service_auth.go: who has registered can sign in with the same password.
use fluentwork_backend.Base.{
  ℕ, ◌+◌, String, ◌≡◌, refl, sym, ap, subst, inl, inr, false, none, some, List, str_eq, is_some,
  Bool-cases, Option-cases, length, trim_space, lookup, lookup-insert_self, ok, pair_eq,
}
use fluentwork_backend.Account.Types.{User, TokenResponse, is_active}
use fluentwork_backend.Account.Store.{
  MemoryStore, key_of, create_user, active_user, get_active_by_email, replace_refresh_token,
}
use fluentwork_backend.Account.Password.{
  IsCrypto, hash_password, validate_password, verify_password-hash_password,
}
use fluentwork_backend.Account.Service.{Service, AccountState, issue_session}
use fluentwork_backend.Account.Sessions.{issue_session-stored}
use fluentwork_backend.Account.SignIn.{
  normalize_email, registered_user, register_user, register_email, drawn_hash, after_check,
  login_email,
}

normalize_email-named :
    (service : Service) (email normalized : String)
    → normalize_email service email ≡ some normalized
    → str_eq normalized "" ≡ false
unfolding normalize_email
normalize_email-named service email normalized h =
    elim (Bool-cases (str_eq (service.to_lower (trim_space email)) "")) [
      | inl e ↦ absurd (cc (rw (normalize_email, e) at h))
      | inr e ↦ elim (Option-cases (service.parse_address (service.to_lower (trim_space email)))) [
        | inl f ↦ absurd (cc (rw (normalize_email, e, f) at h))
        | inr (address, f) ↦
            elim (Bool-cases (str_eq address (service.to_lower (trim_space email)))) [
              | inr g ↦ absurd (cc (rw (normalize_email, e, f, g) at h))
              | inl g ↦
                  let same : some (service.to_lower (trim_space email)) ≡ some normalized =
                    rw (normalize_email, e, f, g) at h in
                  subst (λ text. str_eq text "" ≡ false) (cc same) e
            ]
      ]
    ]

-- A registered user stands in the store under its email.
abbrev Stands : User → String → MemoryStore → Type 0
Stands user email s = get_active_by_email email s ≡ some user

create_user-Stands :
    (id email hash : String) (now : ℕ) (s after : MemoryStore)
    → str_eq email "" ≡ false
    → create_user (registered_user id email hash now) s ≡ (none, after)
    → Stands (registered_user id email hash now) email after
unfolding create_user key_of get_active_by_email active_user is_active
create_user-Stands id email hash now s after named h =
    elim (Bool-cases (is_some (lookup id s.users))) [
      | inl e ↦ absurd (cc (rw (create_user, e) at h))
      | inr e ↦ elim (Bool-cases (is_some (lookup email s.by_email))) [
        | inl f ↦ absurd (cc (rw (create_user, e, named, f) at h))
        | inr f ↦
            let done = rw (create_user, e, key_of, named, f) at h in
            subst (Stands (registered_user id email hash now) email) (ap (λ a. a.1) done)
              (rw (get_active_by_email, lookup-insert_self, active_user, lookup-insert_self) refl)
      ]
    ]

-- What an answered registration has written, with the session that it issued.
abbrev Registered :
    Service → String → String → ℕ → AccountState → AccountState → TokenResponse → Type 0
Registered service email password now s after answer =
    (salt : List ℕ) × (hash : String) × (before : AccountState) × (hash_password service.crypto salt
        password
      ≡ some hash)
    × Stands (registered_user (service.new_id s.ids) email hash now) email before.store
    × (issue_session service (registered_user (service.new_id s.ids) email hash now) now before
        ≡ (ok answer, after))

register_user-issued :
    (service : Service) (user : User) (now : ℕ) (s after : AccountState) (answer : TokenResponse)
    → register_user service user now s ≡ (ok answer, after)
    → (store : MemoryStore) × (create_user user s.store ≡ (none, store))
      × (issue_session service user now (record s { store = store }) ≡ (ok answer, after))
unfolding register_user
register_user-issued service user now s after answer h =
    let created = create_user user s.store in
    elim (Option-cases (created.0)) [
      | inr (e, f) ↦ absurd (cc (rw (register_user, f) at h))
      | inl f ↦ (created.1, pair_eq created none created.1 f refl, rw (register_user, f) at h)
    ]

drawn_hash-found :
    (service : Service) (password hash : String) (s : AccountState)
    → drawn_hash service password s ≡ some hash
    → (salt : List ℕ) × (hash_password service.crypto salt password ≡ some hash)
drawn_hash-found service password hash s h = elim (Option-cases (service.random_salt s.draws)) [
  | inl e ↦ absurd (cc (rw (drawn_hash, e) at h))
  | inr (salt, e) ↦ (salt, rw (drawn_hash, e) at h)
]

register_email-Registered :
    (service : Service) (email normalized password : String) (now : ℕ) (s after : AccountState)
    (answer : TokenResponse)
    → normalize_email service email ≡ some normalized
    → register_email service email password now s ≡ (ok answer, after)
    → Registered service normalized password now s after answer
unfolding register_email
register_email-Registered service email normalized password now s after answer known h =
    elim (Option-cases (validate_password password)) [
      | inr (m, e) ↦ absurd (cc (rw (register_email, known, e) at h))
      | inl e ↦ elim (Option-cases (get_active_by_email normalized s.store)) [
        | inr (u, f) ↦ absurd (cc (rw (register_email, known, e, f) at h))
        | inl f ↦ elim (Option-cases (drawn_hash service password s)) [
          | inl g ↦ absurd (cc (rw (register_email, known, e, f, g) at h))
          | inr (hash, g) ↦
              let user = registered_user (service.new_id s.ids) normalized hash now in
              let drawn = record s { draws = s.draws + 1; ids = s.ids + 1 } in
              let (store, created, issued) =
                register_user-issued service user now drawn after answer
                  (rw (register_email, known, e, f, g) at h) in
              let (salt, hashed) = drawn_hash-found service password hash s g in
              (
                salt,
                hash,
                record drawn { store = store },
                hashed,
                create_user-Stands (service.new_id s.ids) normalized hash now s.store store
                    (normalize_email-named service email normalized known) created,
                issued,
              )
        ]
      ]
    ]

-- A new refresh token changes no user.
replace_refresh_token-Stands :
    (service : Service) (user : User) (now : ℕ) (email : String) (s after : AccountState)
    (answer : TokenResponse)
    → Stands user email s.store
    → issue_session service user now s ≡ (ok answer, after)
    → Stands user email after.store
unfolding get_active_by_email active_user replace_refresh_token
replace_refresh_token-Stands service user now email s after answer h issued =
    subst (Stands user email) (sym (issue_session-stored service user now s after answer issued).0)
      h

-- With a library that keeps passwords, who registered under an email can sign in at once under any text that
-- normalizes to the same email, with the same password: the sign-in issues a session for the same user.
pub login_email-register_email :
    (service : Service)
    → IsCrypto service.crypto
    → (email other normalized password : String) (now later : ℕ) (s after : AccountState)
      (answer : TokenResponse)
    → ((salt key : List ℕ)
        → service.crypto.derive password salt 210_000 32 ≡ some key
        → length key ≡ 32)
    → normalize_email service email ≡ some normalized
    → normalize_email service other ≡ some normalized
    → register_email service email password now s ≡ (ok answer, after)
    → (user : User) × (user.id ≡ answer.user_id)
      × (login_email service other password later after ≡ issue_session service user later after)
unfolding login_email after_check
login_email-register_email service law email other normalized password now later s after answer
      sized known same h =
    let (salt, hash, before, hashed, stands, issued) =
      register_email-Registered service email normalized password now s after answer known h in
    let user = registered_user (service.new_id s.ids) normalized hash now in
    let verified =
      verify_password-hash_password service.crypto law salt password hash (sized salt) hashed in
    let found =
      replace_refresh_token-Stands service user now normalized before after answer stands issued in
    (
      user,
      sym (issue_session-stored service user now before after answer issued).1,
      rw (login_email, same, found, verified) refl,
    )
