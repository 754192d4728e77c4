-- ===== src/Lib.antt =====
-- A verification library for the backend of the dating app (the Go module at the repository's root).
-- The backend is one HTTP service and its workers over PostgreSQL, Redis and a task queue. A request
-- passes a handler and reaches a `Service` of one of the packages under internal/; the packages
-- meet in the database and through the small interfaces that internal/router wires together.
--
-- Parts and files:
--   Prelude: what the modules share. Tests (Booleans and numbers), Lists (tables as lists, with queries
--     and updates by a test on rows), Keys (unique keys), Order and Paging (keyset pagination), Strings
--     (package strings on code points),
--     Handlers (a handler takes a store, and ends with a value or an error beside the store it leaves;
--     `transaction` restores the store on an error, as gorm's does).
--   Store: the tables that discovery, matches and chat share (migrations, model.go files).
--   Otp: internal/otp. Model (model.go), Normalize (crypto.go: normal forms, hashes, codes),
--     Verify (`Service.Verify`), Request (`Service.Request`), Limits (`enforceRateLimits`,
--     `incrementWindow`), Delivery (processor.go); Attempts, Lockout, SingleUse, Cooldown, RoundTrip,
--     Races prove; Tests and Scenarios run them.
--   Discovery: internal/discovery/action.go. Model (requests, answers, errors, queries), Matching
--     (`ensureMatchTx`), Actions (`CreateAction`, in the parts that the code runs in order); Cases,
--     Effect, Stored, Pairs, Mutual, Answers, LateBlock prove; Tests runs them. Of `CheckTargetDiscoverable`,
--     the insert of preferences is modelled, and its queries are a function of viewer, uuid and store;
--     the usage limiter is a record, the interface `ActionUsageLimiter` of the code. Readiness (`buildReadiness`) and Preferences
--     (`normalizePreferencesRequest`) are rules of service.go; Genders and Ranges prove, and RulesTests
--     runs them.
--   Subscription: internal/subscription. Model (model.go, errors.go), Entitlements (entitlements.go and
--     `entitlements`), Usage (`ConsumeActionUsageTx`, `Usage`), Requests
--     (`CreateManualPaymentRequest`), Review (`ApprovePaymentRequest`, `RejectPaymentRequest`);
--     Daily, Kept, Periods, Decisions prove; Tests runs them.
--   Auth: internal/auth. Model (model.go, types.go, `validateSession`, `validateUser`), Sessions
--     (`RefreshToken`, `Logout`, `LogoutAll`, `DeleteAccount`, `Authenticate`); Revoked, Closed,
--     Final, Rotation, StaysOut prove; Tests runs them.
--   Chat: internal/chat. Model (errors.go, dto.go, `activeConversationByUUIDTx`, `messageByClientIDTx`),
--     Send (`SendMessage`), Receipts (`MarkRead`, `MarkDelivered`, `DeleteMessage`), Messages (`Messages`,
--     `messageRows`, cursor.go), Hub (hub.go, `Typing`); Access, Stored, Effects, Marks, Ends and
--     Rows say how their parts end, Retry, Created, Pages, Kept, Position, Seen, Erased and
--     Typing prove; Tests and PagesTests run them. What a handler hands to the hub is a list in
--     its answer; the JSON form of cursors is a record with laws.
--   Safety: internal/safety. Model (model.go, errors.go, normal forms), Blocks (`BlockUser`, `UnblockUser`, the
--     settings), Targets (`validateReportTargetAccess`), Reports (`CreateReport`); Reads, Counts, Counted,
--     Blocked, Unblocked and BlockSet prove; Tests runs them.
--   Match: internal/match. Unmatch (`Service.Unmatch` with its lock query), Limit
--     (`normalizeListLimit`, on 64-bit integers), Views (`MarkSeen` with
--     `visibleActiveMatchByUUID`, `CanViewProfileMedia`), Age (`ageFromDOB`);
--     Closed, Shown, Seen and Age prove; Tests runs them.
--
-- How the code is read:
--   A Go function with a database is a function from a store to an outcome. What the code draws (the
--   clock, `uuid.New`, the random digits, the ids of a sequence) is an argument or a field of the store.
--   One `now` stands for the readings of the clock within one call. Times are seconds, dates are days.
--   A statement of the database may fail: each handler has a type of sites, one for each statement, and
--   an argument says which of them fail. Theorems hold for every such argument unless they name one.
--   An error that the code drops (`_ =`) is an `exec_ignored`. Logging is left out.
--   Strings are lists of code points; upper and lower case follow Go on ASCII and on the letters that
--   fold into it. Ids, uuids, counters and durations are natural numbers; the numbers of a
--   configuration are taken as not negative. Counters stay below the width of their columns; where
--   the code adds up a number that a client sends, the 64 bits are written out (Match/Limit).
--   HMAC, the hash of refresh tokens, the token library, `mail.ParseAddress`, `uuid.Parse`, Redis, the
--   queue and the providers are parameters.
--   Every loop of the modelled code runs over a list or a count, so no fuel is needed; the client that
--   follows cursors (Chat/Pages) has fuel for one call more than the conversation has messages.
--   A row lock or an advisory lock is a statement that may fail; that transactions on the same rows
--   run one after the other is what the locks give. Interleavings that the code allows are the subject
--   of Otp/Races and Discovery/LateBlock.
--
-- Not modelled: the HTTP layer (handler.go, routes.go, internal/router, internal/middleware,
-- internal/response), since it binds and forwards; the clients (internal/database, internal/redis,
-- internal/queue, internal/storage, the providers), since they call libraries; the feed and the
-- candidate query of discovery, the login (`VerifyOTP`), the rest of internal/match, the chat list, profiles,
-- media, notifications, the lists of safety and the admin console.
pub mod Prelude
pub mod Store
pub mod Otp
pub mod Discovery
pub mod Subscription
pub mod Auth
pub mod Match
pub mod Chat
pub mod Safety
