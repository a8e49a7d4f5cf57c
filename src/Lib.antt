-- ===== src/Lib.antt =====
-- Perseverance, the control plane of persistent coding sessions: a model of its core packages with
-- the theorems that make them correct.
--
-- The program is a set of TypeScript packages behind an HTTP service. Four of them are modelled.
--
-- packages/support-access/src/index.ts is `SupportAccess`: tenants grant support staff narrow
-- access for a short time, operators open break-glass requests under incidents, both need the
-- approval of others, and what is active issues leases that are consumed once.
-- `SupportAccess.Types` has the interfaces of the file and `supportGrantSchema` of
-- packages/control-plane-contracts/src/index.ts; a `Service` is the private fields of
-- `SupportAccessService` (`#grants`, `#breakGlass`, `#leases`, `#approvals`, `#idempotency`,
-- `#audit`, `#outbox`) with counters of what was drawn from outside. `SupportAccess.Store` has the
-- private methods (`#grant`, `#version`, `#decisionReplay`, `#revokeLeases`,
-- `#appendAggregateAudit`, `#queueTenantNotification`), `SupportAccess.Grants` the methods
-- createGrant, verifyGrantMfa, decideGrant and revokeGrant, `SupportAccess.BreakGlass` their
-- counterparts on break-glass requests, `SupportAccess.Leases` expire, issueLease,
-- issueBreakGlassLease and consumeLease, `SupportAccess.Outbox` the rest, and
-- `SupportAccess.State` the constructor that restores a state, and snapshot. A method is a
-- function of `Prelude.Exec`: from a service to a result, or the error thrown, and the service
-- afterwards, where what was written before the throw stays. `SupportAccess.Protocol` says as a
-- step relation which changes are allowed, and `SupportAccess.Run` runs lists of calls.
--
-- packages/authz/src/index.ts is `Authz`: `Authz.Roles` is ROLE_ACTIONS, `Authz.Authorize` authorize
-- and StaticMembershipDirectory (when it allows: `Authz.Allowed`), `Authz.DevLogin` ExplicitDevAuthenticationAdapter, and
-- `Authz.Workload` CorpusWorkloadCredentialAuthority (constructor, issue, revoke, verify).
--
-- packages/shared-folders/src/index.ts is `SharedFolders`: the folders of a workspace, their
-- members and invitations, the resources that are bound to them and the tasks that run in them.
-- `SharedFolders.Types` has the interfaces of the file and the folder schemas of the contracts; a
-- `Core` is the private fields of `InMemorySharedFolderCore`, with the list of the events that
-- listeners are called with. `SharedFolders.Keys` has the keys of its maps, `SharedFolders.Store`
-- `role` with `#authorizationCache`, getFolder and the private methods (`#folder`,
-- `#activeMembership`, `#ownerCount`, `#expire`, `#bump`, `#appendAudit`), `SharedFolders.Folders`,
-- `Invitations`, `Members`, `Resources` and `Tasks` the methods on each. `SharedFolders.Run` runs
-- lists of calls. The proofs about the cached roles are in `SharedFolders.Cache` and its children,
-- those about owners in `SharedFolders.Owners`, about acceptance in `SharedFolders.Acceptance`, and
-- about what is settled or reserved once in `SharedFolders.Settlements` and
-- `SharedFolders.Reservations`. The time of a call, which defaults to the clock's, is an argument.
--
-- packages/push-notifications/src/index.ts is `Push`: the devices that a principal has subscribed,
-- and the outbox of their notifications. `Push.Types` has the data, `Push.Subscriptions` the
-- methods upsert, list, revoke, revokeDevice and expire of `InMemoryPushRepository`, `Push.Outbox`
-- resolveNotification, enqueue and drain, and `Push.Run` runs lists of calls. The encryption of
-- packages/workspace-security and the provider are parameters, which may throw. `Push.Run` runs
-- calls one after the other, where the source may begin a call while drain awaits; a turn of
-- drain reads its record again, so that `Push.Repeated` says what it does to a record that
-- another call has changed since the candidates were taken. The other proofs are in
-- `Push.Waiting`, `Push.Rejected`, `Push.Attempts` and `Push.Once`.
--
-- `Prelude` has what they share: JavaScript's Map and string functions, lists, tests, the monad,
-- and in `Prelude.Exec.Triple` the rules of what a method leaves where it returns and where it
-- throws.
--
-- What is not code of the repository is a parameter: the clock, randomUUID, randomBytes, SHA-256,
-- HMAC, base64url and JSON texts, and the reading and printing of numbers. A theorem that needs
-- randomUUID not to repeat itself says so. Times are milliseconds, numbers are natural numbers
-- without bound, as the counters of the source stay far below 2 ^ 53. No definition runs on fuel:
-- the loops go over lists. `structuredClone` of results is the identity here, since values are not
-- shared.
--
-- Not modelled: the PostgreSQL repositories (statements sent to a database),
-- OidcAuthenticationAdapter (keys fetched over the network), onAccessChanged,
-- PushProviderEmulator, and the other packages, services and applications.
pub mod Prelude
pub mod Push
pub mod SharedFolders
pub mod SupportAccess
pub mod Authz
