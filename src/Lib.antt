-- ===== src/Lib.antt =====
-- The evidence ledger, the sensitive-content scanner, the promotion ledger and the retrieval of the
-- agent memory system.
--
-- The program keeps what agents did as events in an append-only ledger of JSON lines, each record
-- sealed with the hash of the one before (internal/ledger). Memories derived from it become active
-- only by records of a second chained ledger, after a scan for secrets and their redaction
-- (internal/promotion, internal/secretscan). Retrieval ranks the active memories of a portable
-- repository for a query, within a limit and two budgets, records what it returned as an event of the
-- evidence ledger, and renders it for an agent's context (internal/retrieval).
--
-- Files:
--   Prelude          Boolean tests, signed integers, lists, results, and Go strings with the tests
--                    that the program makes of them.
--   Ledger/Types     internal/ledger/types.go: Event, Record and their parts; Codec and its laws.
--   Ledger/Validate  internal/ledger/ledger.go: validateEvent, expectedBlobRelativePath.
--   Ledger/Lines     the lines of a file as bufio's ReadBytes returns them.
--   Ledger/Chain     makeRecord, visitRecords (VisitRecords), lastRecordHash.
--   Ledger/Verify    VerifyReader (Verify).
--   Ledger/Appender  Appender and AppendBatch. Ledger/Lock: NewAppender, openAppenderAt, Close,
--                    acquireWriterLock, ClearStaleWriterLock. Ledger/Writers: several processes on
--                    one store as a step relation.
--   Ledger/Blobs     PutBlob, OpenBlob, verifyBlob, InlinePayload.
--   Secretscan       internal/secretscan/scan.go: Scan, addFinding; Secretscan/Redact:
--                    ApplyRedactions.
--   Promotion        internal/promotion: Types (types.go), Validate (the validators of ledger.go and
--                    apply.go), Replay (replay), Semantics (verifyPromotionSemantics), Prepare
--                    (prepareRevision), Requests (requestFromRevision), Apply (applyWithHooks,
--                    appendRecord, acquirePromotionLock), Query (GetStatus, GetRevision,
--                    RevisionWasCurrentAt).
--   Retrieval        internal/retrieval: Types (types.go, and portable.Revision), Terms (lexicalTerms,
--                    normalizePhrase, estimateTokens), Sets (sortedUnique, isSortedUnique), Normalize
--                    (normalizeRequest), Rank (rankRevisions, rankExactMemory), Search (Search,
--                    appendReceiptEvent, appendEvidenceWithRetry), Receipts (validateReceipt), Render
--                    (renderBoundedContext), Injection (BuildContext,
--                    validateInjectionReceipt), Causes (eventDescendsFrom), Adoption
--                    (validateAdoptionRequest, RecordAdoption, validateAdoptionReceipt),
--                    Verify (the loop of Verify).
-- A Demo module has concrete values, a Tests module the theorems applied to them; the other modules
-- below a component are named for what they prove.
--
-- State is passed explicitly: a ledger file is its bytes and whether reading them ends in a fault, an
-- appender is its tail hash and flags, the store's directory a function from paths to contents, a
-- replayed promotion ledger the record of the maps that replay fills, each map a list. Every call of
-- the operating system has its outcome as an argument (Io, OpenIo, PutIo, ApplyIo), so each error
-- return of the code is a branch of the model. Errors are constructors, one for each error of the
-- code that a caller can tell apart.
--
-- Strings are the Unicode texts that decoded JSON holds; where the code counts or hashes bytes, the
-- model encodes them as UTF-8. A time is the number of nanoseconds since the zero time. Integers
-- that JSON decodes are signed; counters of lines and records cannot reach 2^63. All loops go over
-- the lines, events, findings or revisions at hand, or over a number of attempts; only the queue of
-- eventDescendsFrom takes fuel, one round for each parent of an event and one more, which is enough
-- since each event is expanded once. Scores add products of at most 6 and 1000 * (n + 1) for n
-- memories, so that the counters of a search stay far below 2^63.
--
-- JSON, SHA-256, regular expressions and the entropy of a token are parameters: Codec (its laws are
-- CodecLaws), Detectors, and Services, which also stands for internal/review and internal/candidates
-- as promotion calls them. Retrieval has Services of its own: the tables of package unicode, SHA-256 and
-- the JSON of requests and receipts. What LoadActiveRevisions of internal/portable returns is an input
-- of the search, and IsLoaded says what it promises. A nil slice is the
-- empty list, so the nil tests of validateReceipt, which refuse a decoded receipt that leaves out a list,
-- have no counterpart.
--
-- Not modelled: how Verify of internal/retrieval compares the receipts with each other; the
-- other packages of internal, the commands, the adapters and the scripts, which
-- import and export files, call agents or git, run experiments and print reports; file modes and
-- temporary files; NewAppenderAfterVisit.
pub mod Ledger
pub mod Prelude
pub mod Promotion
pub mod Retrieval
pub mod Secretscan
