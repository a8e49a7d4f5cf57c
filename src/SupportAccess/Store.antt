-- ===== src/SupportAccess/Store.antt =====
-- The private helpers of `SupportAccessService`: lookups, version and replay checks, the audit log.
use Prim.Native.String.{◌++◌ as str_append}
use perseverance.Prelude.{
  ℕ, suc, ◌+◌, String, Bool, true, false, not, ◌&&◌, Option, none, some, List, [], ◌∷◌, ◌++◌, ◌==◌,
  str_eq, opt_eq, is_some, if◌then◌else◌, length, any,
}
use perseverance.Prelude.Text.{truthy}
use perseverance.Prelude.Map.{Map, get, set}
use perseverance.Prelude.Exec.{Result, ok, err, pure, gets, or_throw, modify, require, ◌>>=◌}
use perseverance.SupportAccess.Types.{
  Action, content_view, artifact_download, attachment_download, content_decrypt, Outcome, Grant,
  BreakGlass, Lease, Approval, AuditBody, Audit, OutboxRecord, tenant_notification, pending, Store,
  Service, Runtime, Error, grant_not_found, break_glass_not_found, version_conflict,
  idempotency_conflict, Method, is_notification,
}

-- `objectId`: `??` passes over `null`, and keeps the empty text.
abbrev pub or_else : Option String → Option String → Option String
or_else none b = b
or_else (some a) b = some a

abbrev pub object_id : Grant → Option String
object_id g = or_else g.artifact_id g.attachment_id

abbrev pub action_name : Action → String
action_name content_view = "content.view"
action_name artifact_download = "artifact.download"
action_name attachment_download = "attachment.download"
action_name content_decrypt = "content.decrypt"

-- A change of the store; the counters stay.
abbrev pub on_store : (Store → Store) → Service → Service
on_store f s = record s { store = f s.store }

abbrev pub set_grant : String → Grant → Store → Store
set_grant id g t = record t { grants = set id g t.grants }

abbrev pub set_break_glass : String → BreakGlass → Store → Store
set_break_glass id b t = record t { break_glass = set id b t.break_glass }

abbrev pub set_lease : String → Lease → Store → Store
set_lease id l t = record t { leases = set id l t.leases }

abbrev pub remember : String → String → Store → Store
remember key id t = record t { idempotency = set key id t.idempotency }

abbrev pub push_approval : Approval → Store → Store
push_approval a t = record t { approvals = t.approvals ++ a ∷ [] }

abbrev pub push_outbox : OutboxRecord → Store → Store
push_outbox o t = record t { outbox = t.outbox ++ o ∷ [] }

-- `#grant`.
unfoldable pub find_grant : String → Method Grant
find_grant id s = or_throw (get id s.grants) grant_not_found s

-- `#breakGlassRequest`.
unfoldable pub find_break_glass : String → Method BreakGlass
find_break_glass id s = or_throw (get id s.break_glass) break_glass_not_found s

-- `#version`.
unfoldable pub check_version : ℕ → ℕ → Method (Unit {0})
check_version version expected = require (version == expected) version_conflict

-- The empty text is falsy.
abbrev pub replayed : Option String → String → Result Error Bool
replayed seen id =
    if truthy seen
    then if opt_eq seen (some id) then ok true else err idempotency_conflict
    else ok false

-- `#decisionReplay`.
unfoldable pub decision_replay : String → String → Method Bool
decision_replay key aggregate_id s = (replayed (get key s.idempotency) aggregate_id, s)

-- The hash that the next record carries, `this.#audit.at(-1)?.recordHash ?? 'GENESIS'`.
unfoldable pub last_hash : String → List Audit → String
last_hash genesis [] = genesis
last_hash genesis (r ∷ rs) = last_hash r.record_hash rs

pub data Aggregate : Type 0 where
  of_grant : Grant → Aggregate
  of_break_glass : BreakGlass → Aggregate

-- The test of `#revokeLeases`.
abbrev pub is_live_lease_of : Option String → Option String → Lease → Bool
is_live_lease_of grant_id break_glass_id l =
    opt_eq l.grant_id grant_id
    && opt_eq l.break_glass_id break_glass_id
    && not (is_some l.revoked_at)

abbrev pub is_notification_for : String → OutboxRecord → Bool
is_notification_for id o = is_notification o.kind && str_eq o.aggregate_id id

module _ (rt : Runtime) where
  -- `this.now()`, `randomUUID()` and `randomBytes(32)`.
  unfoldable pub read_clock : Method ℕ
  read_clock s = (ok (rt.now s.clock_reads), record s { clock_reads = suc s.clock_reads })

  unfoldable pub random_uuid : Method String
  random_uuid s = (ok (rt.uuid s.uuids), record s { uuids = suc s.uuids })

  unfoldable pub random_bytes : Method String
  random_bytes s = (ok (rt.random_token s.randoms), record s { randoms = suc s.randoms })

  -- `unsigned` of `#appendAggregateAudit`, over the log so far.
  abbrev pub audit_body :
      Aggregate → String → String → Outcome → String → String → ℕ → List Audit → AuditBody
  audit_body (of_grant g) actor action outcome reason correlation_id at log = record {
    sequence = length log + 1;
    tenant_id = g.tenant_id;
    organization_id = g.organization_id;
    workspace_id = g.workspace_id;
    actor_principal_id = actor;
    scope = rt.scope_json g.workspace_id g.session_id (object_id g) g.actions;
    action = action;
    outcome = outcome;
    reason = reason;
    grant_id = some g.grant_id;
    break_glass_id = none;
    occurred_at = at;
    correlation_id = correlation_id;
    previous_hash = last_hash "GENESIS" log;
  }
  audit_body (of_break_glass b) actor action outcome reason correlation_id at log = record {
    sequence = length log + 1;
    tenant_id = b.tenant_id;
    organization_id = b.organization_id;
    workspace_id = b.workspace_id;
    actor_principal_id = actor;
    scope = rt.scope_json b.workspace_id b.session_id b.object_id b.actions;
    action = action;
    outcome = outcome;
    reason = reason;
    grant_id = none;
    break_glass_id = some b.break_glass_id;
    occurred_at = at;
    correlation_id = correlation_id;
    previous_hash = last_hash "GENESIS" log;
  }

  abbrev pub sign : AuditBody → Audit
  sign body = record { body = body; record_hash = rt.sha256 (rt.audit_json body) }

  -- `#appendAggregateAudit`; `#appendAudit` is its call on a grant.
  unfoldable pub append_audit :
      Aggregate → String → String → Outcome → String → String → Method (Unit {0})
  append_audit aggregate actor action outcome reason correlation_id s =
      let log = s.audit in
      let body =
        audit_body aggregate actor action outcome reason correlation_id (rt.now s.clock_reads)
          log in
      (
        ok tt,
        record s {
          store = record s.store { audit = log ++ sign body ∷ [] };
          clock_reads = suc s.clock_reads;
        },
      )

  -- `#revokeLeases`: the loop reads the clock once for each lease that it revokes.
  unfoldable pub revoke_loop : Option String → Option String → ℕ → Map Lease → Map Lease × ℕ
  revoke_loop gid bid reads [] = ([], reads)
  revoke_loop gid bid reads ((id, l) ∷ m) =
      let hit = is_live_lease_of gid bid l in
      let rest = revoke_loop gid bid (if hit then suc reads else reads) m in
      let l' = record l { public = record l.public { revoked_at = some (rt.now reads) } } in
      ((id, if hit then l' else l) ∷ rest.0, rest.1)

  unfoldable pub revoke_leases : Option String → Option String → Method (Unit {0})
  unfolding revoke_loop
  revoke_leases gid bid s =
      let done = revoke_loop gid bid s.clock_reads s.leases in
      (ok tt, record s { store = record s.store { leases = done.0 }; clock_reads = done.1 })

  unfoldable pub enqueue_notification : BreakGlass → Method (Unit {0})
  enqueue_notification b = do
    uuid ← random_uuid
    now ← read_clock
    modify (
        on_store (
          push_outbox (record {
            outbox_id = str_append "out_" uuid;
            tenant_id = b.tenant_id;
            organization_id = b.organization_id;
            workspace_id = b.workspace_id;
            kind = tenant_notification;
            aggregate_id = b.break_glass_id;
            status = pending;
            attempts = 0;
            available_at = now;
            delivered_at = none;
            idempotency_key = str_append "tenant-notification:" b.break_glass_id;
            last_result_idempotency_key = none;
          })))

  -- `#queueTenantNotification`.
  unfoldable pub queue_tenant_notification : BreakGlass → Method (Unit {0})
  queue_tenant_notification b = do
    outbox ← gets (λ s. s.outbox)
    if any (is_notification_for b.break_glass_id) outbox then pure tt else enqueue_notification b

-- Opens the monad and the primitive calls for a proof that names it.
unfoldable pub primitives : Unit {0}
unfolding ◌>>=◌ find_grant find_break_glass check_version decision_replay read_clock random_uuid
    random_bytes append_audit revoke_leases
primitives = tt
