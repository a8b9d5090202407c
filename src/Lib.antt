-- ===== src/Lib.antt =====
-- PROACTIVE
--
-- The backend of a canvassing system. Administrators divide a region into turfs and assign them to
-- canvassers, who work a turf in sessions and log visits at its addresses; operational policies set
-- the limits for it all. The services share one database.
--
-- Base holds what the other modules share: tests, lists, tables, texts and the result of a call
-- that may throw. Store is the database of backend/prisma/schema.prisma, a list of rows for each
-- table; a table that no modelled service touches, and a column that none uses, is left out.
-- Access is AccessScope of backend/src/common/interfaces/access-scope.interface.ts and the filter
-- that the services make of it.
--
-- Policies is backend/src/policies/policies.service.ts: Policies.Settings the settings and their
-- normalisation (mergePolicyRecord), Policies.Update the settings an update asks for, and
-- Policies itself getEffectivePolicy, resolveTargetScope, upsertPolicy and clearPolicy. What
-- getDefaultPolicy reads from the environment is the argument `defaults`. Whole numbers are
-- natural numbers: the columns are integers, and the requests are validated to be whole.
--
-- Turfs is backend/src/turfs/turfs.service.ts: Turfs.Guards the private checks, Turfs.Admin
-- createTurf, updateTurfScope and assignTurf, Turfs.Retire reopenTurf, archiveTurf and deleteTurf,
-- Turfs.Sessions startSession, pauseSession, resumeSession and completeSession (which endSession
-- calls). An operation maps the database to the new one and its answer, or fails; a transaction
-- that fails changes nothing. Turfs.History runs any list of calls in turn. The clock and the
-- identifiers that the database makes are arguments of an operation; an identifier that is taken is
-- refused, as a primary key is.
--
-- Visits is backend/src/visits/visits.service.ts: Visits.Outcomes normalizeLegacyResult and
-- findScopedOutcomeDefinition, Visits.Geofence the GPS check of logVisit, Visits.Conflicts
-- visitMatchesIncomingSubmission, markExistingVisitConflict and createConflictVisit, Visits.Log
-- logVisit, and Visits.Correct correctVisit. logVisit answers with the database as well, since it
-- records a conflict before it throws. Visits.History runs any list of calls. JavaScript's numbers
-- and functions on them, and the collation of the database, are the parameter Platform; the
-- distance of backend/src/common/utils/distance.util.ts is written on it. A decimal column keeps the
-- number that was sent, unrounded. A null sorts first in descending order, as in PostgreSQL.
-- listActiveOutcomes and listRecentVisits, which only read, are left out.
--
-- Action is the effect of a service method: it maps the state to a state and an answer, and what it
-- has written before it throws stays written. Action.Keeps has the rules that carry a property of
-- the state through a method, Action.Ends those that lead from its start to its answer.
--
-- Auth is backend/src/auth/auth.service.ts with what it stands on. Auth.Records is its state: the
-- accounts, the tables of tokens, and the counters of attempts, which the services keep in memory.
-- Auth.Limits is the counting of attempts there and in the recovery service, Auth.Settings
-- backend/src/system-settings/system-settings.service.ts, Auth.Users
-- backend/src/users/users.service.ts, Auth.Totp backend/src/auth/mfa.util.ts. Auth.Parts holds the
-- private methods, Auth.Login validateUser and login, Auth.SecondFactor the setup, check, removal and
-- step-up of the second factor, Auth.Impersonate impersonation, Auth.Tokens refresh, logout, password
-- resets, invitations and activation. Auth.Recover is backend/src/recovery/recovery.service.ts,
-- and Auth.Recover.Approve its approve. An operation has the name of its method in snake case.
-- Auth.Service runs any list of calls of them.
--
-- What the services call outside the repository, and what they read from the environment, is the
-- record Runtime of Auth.Runtime: the case mappings of text, the hash of a token, bcrypt, HMAC, the
-- signature of access tokens, the webhook's answer, and the default settings. Every operation takes a
-- Moment: one reading of the clock, and the values that it draws or that the database makes for new
-- rows. A hash that is taken is refused, as a unique column does. In verifyTotp the time before the
-- first step stops at 0. listTargets and listCanvassers, which only read, are left out.
--
-- Sync is mobile-app/src/syncDiagnostics.ts, what the phone keeps about each visit in its queue:
-- classifySyncError, pruneTransitions and transitionQueuedVisit, with the limits that the environment
-- sets, and Sync.Summary histories of changes. A time is its number of milliseconds, where the code
-- parses it from text. The reading of stored diagnostics (normalizeQueueDiagnostics) and the export
-- are left out.
--
-- Calls are taken to run one after the other, also where logVisit reads outside its transaction.
-- Queries without state (listTurfs,
-- getTurfAddresses, getMyTurf) are left out, and so are the HTTP layer and the two user interfaces.
-- No function runs on fuel: all recursion is on lists.
pub mod Access
pub mod Action
pub mod Auth
pub mod Base
pub mod Policies
pub mod Store
pub mod Sync
pub mod Tests
pub mod Turfs
pub mod Visits
