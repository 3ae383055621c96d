-- ===== src/Session/Service/Access.antt =====
-- internal/session/service.go: a created session is entered with its ticket.
use fluentwork_backend.Session.Types.{Session, created, Ticket}
use fluentwork_backend.Session.Store.Tickets.{consume_ticket-ok_iff}
use fluentwork_backend.Session.Store.{
  duplicate_session, duplicate_ticket, StoreError, MemoryStore, create_session_with_ticket,
}
use fluentwork_backend.Session.Service.{
  normalize_optional_material_id, normalize_scene_type, normalize_session_length, new_session,
  new_ticket, ServiceError, Service, ServiceState, CreateRequest, CreateResponse, create,
  create_session_for, redeem_ticket,
}
use fluentwork_backend.Base.{
  ℕ, ◌+◌, ◌<◌, String, ◌≡◌, refl, sym, ap, subst, ◌⊎◌, inl, inr, false, Option, none, some, str_eq,
  is_some, Bool-cases, trim_space, lookup, insert, lookup-insert_self, add_time, Result, ok, err,
  Result-cases,
}

-- What a created session promises: its ticket opens it, for its user, until it expires.
abbrev pub Opens : Service → String → CreateResponse → ServiceState → Type 0
Opens env user_id response st =
    (at : ℕ)
    → at < response.ticket_expires_at
    → (ticket : Ticket) × ((redeem_ticket env response.ticket at st).0 ≡ ok ticket)
      × (ticket.session_id ≡ response.session_id)
      × (ticket.user_id ≡ user_id)

-- Either both rows are inserted, or the insertion fails.
create_session_with_ticket-cases :
    (session : Session) (ticket : Ticket) (s : MemoryStore)
    → (create_session_with_ticket session ticket s ≡ (
      ok tt,
      record s {
        sessions = insert session.id session s.sessions;
        tickets = insert ticket.hash ticket s.tickets;
      },
    ))
      ⊎ ((e : StoreError) × (create_session_with_ticket session ticket s ≡ (err e, s)))
unfolding create_session_with_ticket
create_session_with_ticket-cases session ticket s =
    elim (Bool-cases (is_some (lookup session.id s.sessions))) [
      | inl e ↦ inr (duplicate_session, rw (e, create_session_with_ticket))
      | inr e ↦ elim (Bool-cases (is_some (lookup ticket.hash s.tickets))) [
        | inl t ↦ inr (duplicate_ticket, rw (e, t, create_session_with_ticket))
        | inr t ↦ inl (rw (e, t, create_session_with_ticket))
      ]
    ]

-- A ticket that was just inserted is redeemed until it expires.
redeem_ticket-inserted :
    (env : Service) (raw : String) (ticket : Ticket) (at : ℕ) (s : MemoryStore) (ids : ℕ)
    → trim_space raw ≡ raw
    → str_eq raw "" ≡ false
    → lookup (env.hash_ticket raw) s.tickets ≡ some ticket
    → ticket.used_at ≡ none
    → at < ticket.expires_at
    → (redeem_ticket env raw at (record { store = s; ids = ids })).0
      ≡ ok (record ticket { used_at = some at })
unfolding redeem_ticket
redeem_ticket-inserted env raw ticket at s ids trimmed named found unused early =
    rw (trimmed, named)
      (rw
        ((consume_ticket-ok_iff (env.hash_ticket raw) at s (record ticket { used_at = some at })).1
          (ticket, found, unused, early, refl))
        refl)

create_session_for-Opens :
    (env : Service) (user_id : String) (material_id : Option String)
    (scene_type session_length : String) (now : ℕ) (raw : String) (st : ServiceState)
    (response : CreateResponse)
    → trim_space raw ≡ raw
    → str_eq raw "" ≡ false
    → (create_session_for env user_id material_id scene_type session_length now (some raw) st).0
      ≡ ok response
    → Opens env user_id response
        (create_session_for env user_id material_id scene_type session_length now (some raw) st).1
unfolding create_session_for
create_session_for-Opens env user_id material_id scene_type session_length now raw st response
      trimmed named h =
    elim (create_session_with_ticket-cases session ticket st.store) [
      | inr (e, bad) ↦ absurd (cc (rw (bad, create_session_for) at h))
      | inl good ↦
          subst (λ x. x.0 ≡ ok response → Opens env user_id response x.1) (sym (result good))
            (λ k.
              subst (λ r. Opens env user_id r (record { store = opened; ids = st.ids + 2 }))
                (same k) opens)
            h
    ]
  where
    answer : CreateResponse
    answer = record {
      session_id = env.new_id st.ids;
      wss_url = env.voice_gateway_wss_url;
      ticket = raw;
      ticket_expires_at = add_time now env.session_ticket_ttl;
      scene_type = scene_type;
      status = created;
    }

    session : Session
    session = new_session (env.new_id st.ids) user_id material_id scene_type session_length now

    ticket : Ticket
    ticket =
        new_ticket (env.new_id (st.ids + 1)) (env.new_id st.ids) user_id (env.hash_ticket raw)
          (add_time now env.session_ticket_ttl) now

    same :
        ◌≡◌ {A = Result ServiceError CreateResponse} (ok answer) (ok response) → answer ≡ response
    same h = cc

    opened : MemoryStore
    opened = record st.store {
      sessions = insert session.id session st.store.sessions;
      tickets = insert ticket.hash ticket st.store.tickets;
    }

    result :
        create_session_with_ticket session ticket st.store ≡ (ok tt, opened)
        → create_session_for env user_id material_id scene_type session_length now (some raw) st
          ≡ (ok answer, record { store = opened; ids = st.ids + 2 })
    result good = rw (good, create_session_for) (cc (ap (λ x. x.1) good))

    opens : Opens env user_id answer (record { store = opened; ids = st.ids + 2 })
    opens at early = (
      record ticket { used_at = some at },
      redeem_ticket-inserted env raw ticket at opened (st.ids + 2) trimmed named
          (lookup-insert_self ticket.hash ticket st.store.tickets) refl early,
      refl,
      refl,
    )

-- A created session's ticket lets its user into that session at any time before it expires. The raw
-- ticket, which comes from base64, is not blank and has no space at either end.
pub create-Opens :
    (env : Service) (user_id : String) (req : CreateRequest) (now : ℕ) (raw : String)
    (st : ServiceState) (response : CreateResponse)
    → trim_space raw ≡ raw
    → str_eq raw "" ≡ false
    → (create env user_id req now (some raw) st).0 ≡ ok response
    → Opens env user_id response (create env user_id req now (some raw) st).1
unfolding create
create-Opens env user_id req now raw st response trimmed named h =
    elim (Bool-cases (str_eq (trim_space user_id) "")) [
      | inl e ↦ absurd (cc (rw e at h))
      | inr e ↦ elim (Result-cases (normalize_optional_material_id req.material_id)) [
        | inr (_, m) ↦ absurd (cc (rw (e, m) at h))
        | inl (material_id, m) ↦ elim (Result-cases (normalize_scene_type req.scene_type)) [
          | inr (_, c) ↦ absurd (cc (rw (e, m, c) at h))
          | inl (scene_type, c) ↦
              elim (Result-cases (normalize_session_length req.session_length)) [
                | inr (_, l) ↦ absurd (cc (rw (e, m, c, l) at h))
                | inl (session_length, l) ↦
                    rw (e, m, c, l, create)
                      (create_session_for-Opens env user_id material_id scene_type session_length
                        now raw st response trimmed named (rw (e, m, c, l) at h))
              ]
        ]
      ]
    ]
