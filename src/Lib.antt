-- ===== src/Lib.antt =====
-- A verification library for the FluentWork backend: its sessions, its phrase-block corpus, its
-- accounts, its cost ledger, its topics and the state machines of its voice gateway.
--
-- The program is a set of Go services. A learner opens a practice session (internal/session) and
-- gets a one-time ticket; the voice gateway (internal/voicegateway) redeems the ticket, runs the
-- conversation turn by turn and watches for silence; the end of the session stores a transcript and
-- enqueues a review job in an outbox that workers claim; phrases that the learner uses are credited
-- in the corpus (internal/corpus), whose schedule decides when each falls due. Accounts
-- (internal/account) register, sign in and renew tokens; the merge of a guest and the deletion of an
-- account's data reach the rows of the other modules through interfaces that these implement. Calls of
-- a model are priced (internal/orchestrator) and entered in a ledger (internal/aicost); a learner checks
-- in on daily topics and keeps a streak (internal/topic). Drills (internal/drill) enter attempts in a
-- ledger, and an appeal puts a block's schedule back.
--
-- Files:
--   Base                names of the libraries, passed on, and shared types and lemmas
--   Voice.Turn          internal/voicegateway/turn.go: the turn's table, its methods, its name
--   Voice.Silence       internal/voicegateway/silence_detector.go: windows, rungs and requests
--   Voice.Seq           internal/voicegateway/seq_allocator.go: uint32 numbering
--   Voice.Audio         internal/voicegateway/utterance.go, the framer, and the binary audio
--                       frame of internal/voiceproto/frames.go
--   Corpus.Types        internal/corpus/types.go
--   Corpus.Schedule     internal/corpus/schedule.go
--   VoicePoc.Wer        internal/voicepoc/wer.go: the word error rate, its table and its walk back
--   Corpus.Store        internal/corpus/memory_store.go, a module per group of methods
--   Corpus.Hits         internal/corpus/hits_service.go: reports of hits, and a session's recent hits
--   Session.Types       internal/session/types.go, internal/aicost/types.go
--   Session.Store       internal/session/memory_store.go, a module per group of methods
--   Session.Service     internal/session/service.go (Create, ConsumeTicket, Activate,
--                       ContinuationContext, End) and voice_cost.go, over the store
--   Account             internal/account: types.go (Types), memory_store.go (Store), password.go
--                       (Password), service.go, service_auth.go and token.go (Service, Sessions,
--                       SignIn, Merge), privacy_service.go (Privacy), and the privacy_wiper.go
--                       of internal/corpus and internal/session (Privacy.Wipers)
--   AiCost.Ledger       internal/aicost: the ledger's rows, recent rows and summaries
--   AiCost.Pricing      internal/orchestrator/pricing.go
--   Topic               internal/topic: memory_store.go (Store, Wiped), service.go and streak.go
--                       (Service, Streaks)
--   Drill               internal/drill: record_store.go (Records), Appeal of service.go (Appeals)
--   Examples            the theorems at concrete inputs
-- Child modules beside these hold the proofs, under the name of what they prove.
--
-- Conventions. A method that holds the mutex is one step: a function from the store to its result and
-- the new store. Errors are values of a data type, or `none` where there is one error only; the row
-- that some methods of the session store return next to an error, which callers only log, is left
-- out, and so are log lines. A Go map is an association list with one row to a key, in
-- the order of insertion; the order in which Go iterates is not fixed, and the theorems on loops over
-- a map do not depend on it, but for the price of models that have one name but for case and space. A time is a count of nanoseconds, a time.Duration and an int are
-- integers without a bound: sums of times stay far below 2^63. The uint32 numbers of frames
-- wrap at 2^32. A float64 that is only stored stands by its bits, JSON that is only stored by its
-- text. strings.TrimSpace is written out on Unicode characters, as is the order of strings. Every loop
-- is recursion on the list that it walks, but for two on fuel: the framer's has the number of bytes that
-- are pending, at least as many as its frames; the walk back over the table of word errors has the
-- number of words of both texts, and each step drops a word. Every function is total. The int64
-- product and sum of the cost of a call wrap at 2^63.
--
-- Within a call the clock is read once. The merge and the deletion of an account take the business
-- rows as a type of their own, with what each module does to them; both are also composed with
-- the stores of sessions and of the corpus. A loop over the map of what a deletion counted goes in the
-- order of insertion. Parameters are unicode's tables, strings.ToLower, JWT, PBKDF2, base64, the hash
-- of a token, net/mail's ParseAddress and the date of a time; ExpiresIn of an answer is left out.
--
-- The session service takes uuid.NewString, the ticket's hash, the result of rand.Read and the material
-- source as parameters; ids are counted, and a call that fails may skip some.
--
-- Not modelled: the MySQL stores, whose meaning is the database's; HTTP, WebSocket and provider I/O;
-- prompts and generated text; the services over these stores that no file above names.
pub mod Account
pub mod AiCost
pub mod Base
pub mod Topic
pub mod Voice
pub mod Corpus
pub mod Drill
pub mod Session
pub mod VoicePoc
pub mod Examples
