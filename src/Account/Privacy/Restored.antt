-- ===== src/Account/Privacy/Restored.antt =====
-- internal/corpus/privacy_wiper.go and internal/session/privacy_wiper.go: what their restoring brings back, and so a
-- deletion that fails.
use fluentwork_backend.Base.{
  ℕ, String, ◌≡◌, refl, sym, ap, ◌∙◌, subst, ◌⊎◌, inl, inr, true, false, ◌&&◌, Option, none, some,
  List, [], ◌∷◌, str_eq, if◌then◌else◌, is_some, Bool-cases, trim_space, Dict, lookup, update_all,
  lookup-update_all, err,
}
use fluentwork_backend.Session.Types.{Session}
use fluentwork_backend.Corpus.Types.{PhraseBlock}
use fluentwork_backend.Session.Store as SessionStore
use fluentwork_backend.Corpus.Store as CorpusStore
use fluentwork_backend.Account.Types.{AccountError}
use fluentwork_backend.Account.Privacy.{DataWiper, HardDeleter, PrivacyState, delete_all_data}
use fluentwork_backend.Account.Privacy.Wipers.{Modules, corpus_wiper, session_wiper}
use fluentwork_backend.Account.Privacy.Undo.{
  CanRestore, CanRestoreAll, FailsClean, delete_all_data_lem,
}

-- Every row of the first table stands under its key in the second, as a relation asks.
abbrev pub Keeps : {V : Type 0} → (V → V → Type 0) → Dict V → Dict V → Type 0
Keeps {V = V} K later start =
    (key : String) (v : V)
    → lookup key start ≡ some v
    → (v' : V) × (lookup key later ≡ some v') × K v' v

-- A loop that takes back what another loop does to each row takes it back for the table.
Keeps-update_all :
    {V : Type 0} (K : V → V → Type 0) (f g : V → V)
    → ((v v' : V) → K v' (f v) → K (g v') v)
    → (later start : Dict V) → Keeps K later (update_all f start)
    → Keeps K (update_all g later) start
Keeps-update_all K f g law later start h key v found =
    let (v', held, kept) = h key (f v) (rw (lookup-update_all, found) refl) in
    (g v', rw (lookup-update_all, held) refl, law v v' kept)

-- A block without its deletion and its time of change.
abbrev pub block_content : PhraseBlock → PhraseBlock
block_content block = record block { deleted_at = none; updated_at = 0 }

abbrev pub session_content : Session → Session
session_content session = record session { deleted_at = none; updated_at = 0 }

-- The same block but for its time of change, and live if it was.
abbrev pub BlockKept : PhraseBlock → PhraseBlock → Type 0
BlockKept later block =
    (block_content later ≡ block_content block)
    × (block.deleted_at ≡ none → later.deleted_at ≡ none)

abbrev pub SessionKept : Session → Session → Type 0
SessionKept later session =
    (session_content later ≡ session_content session)
    × (session.deleted_at ≡ none → later.deleted_at ≡ none)

-- Nothing of the two modules is lost: each block and session stands under its key, with the same content, and live if it
-- was.
abbrev pub NothingLost : {D : Type 0} → Modules D → Modules D → Type 0
NothingLost later start =
    Keeps BlockKept later.corpus.blocks start.corpus.blocks
    × Keeps SessionKept later.sessions.sessions start.sessions.sessions

pub NothingLost-refl : {D : Type 0} (rows : Modules D) → NothingLost rows rows
NothingLost-refl rows = (
  λ key block found. (block, found, (refl, λ live. live)),
  λ key session found. (session, found, (refl, λ live. live)),
)

is_some-none : {A : Type 0} (o : Option A) → is_some o ≡ false → o ≡ none
is_some-none none h = refl
is_some-none (some a) h = absurd (cc h)

module _ (user_id : String) (at : ℕ) where
  abbrev wipe_block : PhraseBlock → PhraseBlock
  wipe_block block =
      if CorpusStore.is_live_of user_id block
      then record block { deleted_at = some at; updated_at = at }
      else block

  abbrev restore_block : PhraseBlock → PhraseBlock
  restore_block block =
      if str_eq block.user_id user_id && is_some block.deleted_at
      then record block { deleted_at = none }
      else block

  wipe_block-content :
      (block : PhraseBlock) → block_content (wipe_block block) ≡ block_content block
  wipe_block-content block = elim (Bool-cases (CorpusStore.is_live_of user_id block)) [
    | inl e ↦ rw e refl
    | inr e ↦ rw e refl
  ]

  restore_block-content :
      (block : PhraseBlock) → block_content (restore_block block) ≡ block_content block
  restore_block-content block =
      elim (Bool-cases (str_eq block.user_id user_id && is_some block.deleted_at)) [
        | inl e ↦ rw e refl
        | inr e ↦ rw e refl
      ]

  restore_block-live :
      (block : PhraseBlock)
      → (str_eq block.user_id user_id ≡ true) ⊎ (block.deleted_at ≡ none)
      → (restore_block block).deleted_at ≡ none
  restore_block-live block h =
      elim (Bool-cases (str_eq block.user_id user_id && is_some block.deleted_at)) [
        | inl e ↦ rw e refl
        | inr e ↦
            rw e
              (elim h [ inr live ↦ live | inl own ↦ is_some-none block.deleted_at (rw own at e) ])
      ]

  -- To restore takes a wipe back, whatever is kept of the wiped block in between.
  restore_block-BlockKept :
      (block later : PhraseBlock)
      → BlockKept later (wipe_block block)
      → BlockKept (restore_block later) block
  restore_block-BlockKept block later (content, live) =
      let same = content ∙ wipe_block-content block in
      (
        restore_block-content later ∙ same,
        λ was_live. restore_block-live later (elim (Bool-cases (str_eq block.user_id user_id)) [
          | inl own ↦ inl (ap (λ (b : PhraseBlock). str_eq b.user_id user_id) same ∙ own)
          | inr other ↦ inr (live (rw other was_live))
        ]),
      )

  abbrev wipe_session : Session → Session
  wipe_session session =
      if SessionStore.is_kept_of user_id session
      then record session { deleted_at = some at; updated_at = at }
      else session

  abbrev restore_session : Session → Session
  restore_session session =
      if SessionStore.is_deleted_of user_id session
      then record session { deleted_at = none }
      else session

  wipe_session-content :
      (session : Session) → session_content (wipe_session session) ≡ session_content session
  wipe_session-content session = elim (Bool-cases (SessionStore.is_kept_of user_id session)) [
    | inl e ↦ rw e refl
    | inr e ↦ rw e refl
  ]

  restore_session-content :
      (session : Session) → session_content (restore_session session) ≡ session_content session
  restore_session-content session = elim (Bool-cases (SessionStore.is_deleted_of user_id session)) [
    | inl e ↦ rw e refl
    | inr e ↦ rw e refl
  ]

  restore_session-live :
      (session : Session)
      → (str_eq session.user_id user_id ≡ true) ⊎ (session.deleted_at ≡ none)
      → (restore_session session).deleted_at ≡ none
  restore_session-live session h = elim (Bool-cases (SessionStore.is_deleted_of user_id session)) [
    | inl e ↦ rw e refl
    | inr e ↦
        rw e (elim h [ inr live ↦ live | inl own ↦ is_some-none session.deleted_at (rw own at e) ])
  ]

  restore_session-SessionKept :
      (session later : Session)
      → SessionKept later (wipe_session session)
      → SessionKept (restore_session later) session
  restore_session-SessionKept session later (content, live) =
      let same = content ∙ wipe_session-content session in
      (
        restore_session-content later ∙ same,
        λ was_live. restore_session-live later (elim (Bool-cases (str_eq session.user_id user_id)) [
          | inl own ↦ inl (ap (λ (b : Session). str_eq b.user_id user_id) same ∙ own)
          | inr other ↦ inr (live (rw other was_live))
        ]),
      )

module _ {D : Type 0} where
  corpus_wiper-CanRestore : CanRestore (Modules D) NothingLost corpus_wiper
  corpus_wiper-CanRestore = record {
    restore-wipe = λ user_id now n b after later e lost.
        let wiped : (corpus_wiper.wipe user_id now b).1 ≡ after = ap (λ a. a.1) e in
        let kept : NothingLost later (corpus_wiper.wipe user_id now b).1 =
          subst (NothingLost later) (sym wiped) lost in
        (
          unfold CorpusStore.soft_delete_all_for_user CorpusStore.restore_deleted_for_user
                CorpusStore.soft_delete_feedback_for_user CorpusStore.restore_feedback_for_user in
              Keeps-update_all BlockKept (wipe_block user_id now) (restore_block user_id now)
                (restore_block-BlockKept user_id now) later.corpus.blocks b.corpus.blocks kept.0,
          kept.1,
        );
    wipe-failed = λ user_id now message b after e. absurd (cc e);
  }

  session_wiper-CanRestore : CanRestore (Modules D) NothingLost session_wiper
  session_wiper-CanRestore = record {
    restore-wipe = λ user_id now n b after later e lost.
        let wiped : (session_wiper.wipe user_id now b).1 ≡ after = ap (λ a. a.1) e in
        let kept : NothingLost later (session_wiper.wipe user_id now b).1 =
          subst (NothingLost later) (sym wiped) lost in
        (
          kept.0,
          unfold SessionStore.soft_delete_for_user SessionStore.restore_deleted_for_user in
              Keeps-update_all SessionKept (wipe_session user_id now) (restore_session user_id now)
                (restore_session-SessionKept user_id now) later.sessions.sessions
                b.sessions.sessions kept.1,
        );
    wipe-failed = λ user_id now message b after e. absurd (cc e);
  }

-- A deletion of a user's data, with the wipers of the corpus and of sessions over their stores, further wipers whose
-- restoring takes back a wipe as far as blocks and sessions go and that fail without a change to them, and a hard
-- deleter that fails without one: where it answers an error, the users, tokens and tombstones are as they were, and no
-- block and no session is lost. Each stands under its key with the same content, and is live if it was.
pub delete_all_data-undone :
    {D : Type 0} (new_id : ℕ → String) (others : List (Option (DataWiper (Modules D))))
    (deleter : Option (HardDeleter (Modules D))) (raw_id code : String) (now : ℕ) (s : PrivacyState)
    (b : Modules D)
    → CanRestoreAll NothingLost others
    → FailsClean NothingLost (trim_space raw_id) deleter
    → (e : AccountError) (after : PrivacyState) (rows : Modules D)
    → delete_all_data new_id
        (some corpus_wiper ∷ some session_wiper ∷ others)
        (deleter ∷ [])
        raw_id
        code
        now
        s
        b
      ≡ (err e, (after, rows))
    → (after ≡ s) × NothingLost rows b
delete_all_data-undone new_id others deleter raw_id code now s b laws law e after rows h =
    delete_all_data_lem NothingLost NothingLost-refl new_id
      (some corpus_wiper ∷ some session_wiper ∷ others) deleter raw_id code now s b
      (corpus_wiper-CanRestore, (session_wiper-CanRestore, laws)) law e after rows h
