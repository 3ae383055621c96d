-- ===== src/Account/Merge/Rows.antt =====
-- internal/session/service.go and internal/corpus/service.go, as internal/account's merge uses them: the two modules
-- that move a guest's rows.
use fluentwork_backend.Base.{
  ℕ, String, ◌≡◌, refl, subst, inl, inr, false, Option, none, some, List, [], ◌∷◌, str_eq,
  if◌then◌else◌, Bool-cases, Option-cases, Dict, lookup, update_all, lookup-update_all,
}
use fluentwork_backend.Session.Types.{Session, Ticket}
use fluentwork_backend.Corpus.Types.{PhraseBlock}
use fluentwork_backend.Session.Store as SessionStore
use fluentwork_backend.Corpus.Store as CorpusStore
use fluentwork_backend.Account.Merge.{Reassigner, chain_reassign}

-- The stores of the two modules.
abbrev pub Rows : Type 0
Rows = SessionStore.MemoryStore × CorpusStore.MemoryStore

-- `ReassignFromGuest` of session.Reassigner
abbrev pub session_reassigner : ℕ → Reassigner Rows
session_reassigner now = record {
  reassign_from_guest =
      λ guest target rows. (none, (SessionStore.reassign_user guest target now rows.0, rows.1));
}

-- `ReassignFromGuest` of corpus.Reassigner
abbrev pub corpus_reassigner : Reassigner Rows
corpus_reassigner = record {
  reassign_from_guest =
      λ guest target rows. (none, (rows.0, CorpusStore.reassign_user guest target rows.1));
}

-- The chain that the server builds, up to the store of daily reads.
abbrev pub reassigners : ℕ → List (Option (Reassigner Rows))
reassigners now = some (session_reassigner now) ∷ some corpus_reassigner ∷ []

-- No session, no ticket and no block belongs to the user.
abbrev pub OwnsNothing : String → Rows → Type 0
OwnsNothing user_id rows =
    ((key : String) (session : Session)
      → lookup key rows.0.sessions ≡ some session
      → str_eq session.user_id user_id ≡ false)
    × ((hash : String) (ticket : Ticket)
        → lookup hash rows.0.tickets ≡ some ticket
        → str_eq ticket.user_id user_id ≡ false)
    × ((key : String) (block : PhraseBlock)
        → lookup key rows.1.blocks ≡ some block
        → str_eq block.user_id user_id ≡ false)

-- A value that a loop over a map left has a property that the loop's function gives.
lookup-update_all-has :
    {V : Type 0} (f : V → V) (P : V → Type 0)
    → ((v : V) → P (f v))
    → (key : String) (value : V) (entries : Dict V) → lookup key (update_all f entries) ≡ some value
    → P value
lookup-update_all-has f P law key value entries h = elim (Option-cases (lookup key entries)) [
  | inl e ↦ absurd (cc (rw (lookup-update_all, e) at h))
  | inr (held, e) ↦
      let same : some (f held) ≡ some value = rw (lookup-update_all, e) at h in
      subst P (cc same) (law held)
]

module _ (guest target : String) (apart : str_eq target guest ≡ false) where
  session_moved :
      (now : ℕ) (session : Session)
      → str_eq
          ((if str_eq session.user_id guest
            then record session { user_id = target; updated_at = now }
            else session).user_id)
          guest
        ≡ false
  session_moved now session = elim (Bool-cases (str_eq session.user_id guest)) [
    | inl e ↦ rw e apart
    | inr e ↦ rw e e
  ]

  ticket_moved :
      (ticket : Ticket)
      → str_eq
          ((if str_eq ticket.user_id guest
            then record ticket { user_id = target }
            else ticket).user_id)
          guest
        ≡ false
  ticket_moved ticket = elim (Bool-cases (str_eq ticket.user_id guest)) [
    | inl e ↦ rw e apart
    | inr e ↦ rw e e
  ]

  block_moved :
      (block : PhraseBlock)
      → str_eq
          ((if str_eq block.user_id guest
            then record block { user_id = target }
            else block).user_id)
          guest
        ≡ false
  block_moved block = elim (Bool-cases (str_eq block.user_id guest)) [
    | inl e ↦ rw e apart
    | inr e ↦ rw e e
  ]

  -- The chain does not fail, and moves everything.
  pub reassigners-OwnsNothing :
      (now : ℕ) (rows : Rows)
      → let moved = chain_reassign (reassigners now) guest target rows in
        (moved.0 ≡ none) × OwnsNothing guest moved.1
  unfolding chain_reassign SessionStore.reassign_user CorpusStore.reassign_user
  reassigners-OwnsNothing now rows = (
    refl,
    (
      λ key session h.
          lookup-update_all-has _ (λ v. str_eq v.user_id guest ≡ false) (session_moved now) key
            session rows.0.sessions h,
      λ hash ticket h.
          lookup-update_all-has _ (λ v. str_eq v.user_id guest ≡ false) ticket_moved hash ticket
            rows.0.tickets h,
      λ key block h.
          lookup-update_all-has _ (λ v. str_eq v.user_id guest ≡ false) block_moved key block
            rows.1.blocks h,
    ),
  )
