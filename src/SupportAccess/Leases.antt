-- ===== src/SupportAccess/Leases.antt =====
-- The methods of `SupportAccessService` on time and on leases: expire, issue, consume.
use Prim.Native.String.{◌++◌ as str_append}
use perseverance.Prelude.{
  ℕ, ◌+◌, ◌*◌, min, String, Bool, true, not, ◌&&◌, ◌||◌, Option, none, some, ◌==◌, leb, str_eq,
  opt_eq, is_some, if◌then◌else◌, any, contains,
}
use perseverance.Prelude.Text.{truthy}
use perseverance.Prelude.Map.{Map, get, keys}
use perseverance.Prelude.Exec.{Result, ok, err, pure, gets, modify, require, for_each, ◌>>=◌, ◌>>◌}
use perseverance.SupportAccess.Types.{
  Service, Error, grant_not_found, break_glass_not_found, Action, content_view, content_decrypt,
  Status, active, expired, success, Actor, Grant, BreakGlass, Lease, IssuedLease, Runtime,
  grant_inactive, support_principal_mismatch, action_scope_mismatch, session_scope_mismatch,
  object_scope_mismatch, kms_decrypt_role_required, break_glass_inactive,
  break_glass_principal_mismatch, break_glass_scope_mismatch, lease_invalid,
  lease_revoked_or_expired, lease_scope_mismatch, Method, action_eq, status_eq, is_terminal,
  is_kms_operator,
}
use perseverance.SupportAccess.Store.{
  object_id, action_name, on_store, set_grant, set_break_glass, set_lease, find_grant,
  find_break_glass, Aggregate, of_grant, of_break_glass, read_clock, random_uuid, random_bytes,
  append_audit, revoke_leases, queue_tenant_notification,
}

pub record IssueLease : Type 0 where
  pub grant_id : String
  pub actor : Actor
  pub session_id : Option String
  pub object_id : Option String
  pub action : Action
  pub correlation_id : String

pub record IssueBreakGlassLease : Type 0 where
  pub break_glass_id : String
  pub actor : Actor
  pub session_id : String
  pub object_id : String
  pub action : Action
  pub correlation_id : String

pub record ConsumeLease : Type 0 where
  pub lease_id : String
  pub token : String
  pub tenant_id : String
  pub organization_id : String
  pub workspace_id : String
  pub session_id : Option String
  pub object_id : Option String
  pub action : Action
  pub principal_id : String
  pub correlation_id : String

abbrev pub is_due : Status → ℕ → ℕ → Bool
is_due status expires_at now = not (is_terminal status) && leb expires_at now

abbrev pub lapsed_grant : Grant → Grant
lapsed_grant g = record g {
  status = expired;
  generation = g.generation + 1;
  version = g.version + 1;
}

abbrev pub lapsed_break_glass : BreakGlass → BreakGlass
lapsed_break_glass b = record b {
  status = expired;
  generation = b.generation + 1;
  version = b.version + 1;
}

-- The lease that `issueLease` stores: five minutes at most, and never past its grant.
abbrev pub grant_lease : IssueLease → Grant → String → ℕ → String → Lease
grant_lease input g uuid at token_hash = record {
  public = record {
    lease_id = str_append "jit_" uuid;
    grant_id = some g.grant_id;
    break_glass_id = none;
    tenant_id = g.tenant_id;
    organization_id = g.organization_id;
    workspace_id = g.workspace_id;
    session_id = g.session_id;
    object_id = object_id g;
    action = input.action;
    principal_id = input.actor.principal_id;
    generation = g.generation;
    issued_at = at;
    expires_at = min g.expires_at (at + 5 * 60_000);
    consumed_at = none;
    revoked_at = none;
  };
  token_hash = token_hash;
}

-- The lease that `issueBreakGlassLease` stores: two minutes at most.
abbrev pub break_glass_lease : IssueBreakGlassLease → BreakGlass → String → ℕ → String → Lease
break_glass_lease input b uuid at token_hash = record {
  public = record {
    lease_id = str_append "jit_" uuid;
    grant_id = none;
    break_glass_id = some b.break_glass_id;
    tenant_id = b.tenant_id;
    organization_id = b.organization_id;
    workspace_id = b.workspace_id;
    session_id = b.session_id;
    object_id = b.object_id;
    action = input.action;
    principal_id = input.actor.principal_id;
    generation = b.generation;
    issued_at = at;
    expires_at = min b.expires_at (at + 2 * 60_000);
    consumed_at = none;
    revoked_at = none;
  };
  token_hash = token_hash;
}

abbrev pub aggregate_status : Aggregate → Status
aggregate_status (of_grant g) = g.status
aggregate_status (of_break_glass b) = b.status

abbrev pub aggregate_generation : Aggregate → ℕ
aggregate_generation (of_grant g) = g.generation
aggregate_generation (of_break_glass b) = b.generation

-- The tests under `LEASE_REVOKED_OR_EXPIRED` that come before the one on the time.
unfoldable pub is_usable : Aggregate → Lease → Bool
is_usable aggregate lease =
    status_eq (aggregate_status aggregate) active
    && aggregate_generation aggregate == lease.generation
    && not (is_some lease.consumed_at)
    && not (is_some lease.revoked_at)

-- The seven tests under `LEASE_SCOPE_MISMATCH`.
unfoldable pub in_scope : ConsumeLease → Lease → Bool
in_scope input lease =
    str_eq lease.tenant_id input.tenant_id
    && str_eq lease.organization_id input.organization_id
    && str_eq lease.workspace_id input.workspace_id
    && opt_eq lease.session_id input.session_id
    && opt_eq lease.object_id input.object_id
    && action_eq lease.action input.action
    && str_eq lease.principal_id input.principal_id

abbrev pub consumption_audit_action : Action → String
consumption_audit_action content_view = "content.viewed"
consumption_audit_action content_decrypt = "content.decrypted"
consumption_audit_action _ = "content.downloaded"

-- The entry under a key that may be null.
abbrev pub lookup : {A : Type 0} → Option String → Map A → Option A
lookup none m = none
lookup (some k) m = get k m

abbrev pub grant_result : Option Grant → Result Error Aggregate
grant_result none = err grant_not_found
grant_result (some g) = ok (of_grant g)

abbrev pub break_glass_result : Option BreakGlass → Result Error Aggregate
break_glass_result none = err break_glass_not_found
break_glass_result (some b) = ok (of_break_glass b)

-- `lease.grantId ? this.#grant(lease.grantId) : this.#breakGlassRequest(lease.breakGlassId!)`.
unfoldable pub aggregate_of : Lease → Service → Result Error Aggregate
aggregate_of lease s =
    if truthy lease.grant_id
    then grant_result (lookup lease.grant_id s.grants)
    else break_glass_result (lookup lease.break_glass_id s.break_glass)

unfoldable pub find_aggregate : Lease → Method Aggregate
find_aggregate lease s = (aggregate_of lease s, s)

module _ (rt : Runtime) where
  -- One turn of the first loop of `expire`.
  unfoldable pub expire_found : ℕ → String → Grant → Method (Unit {0})
  expire_found now id grant =
      let lapse : Method (Unit {0}) = do
        let ended = lapsed_grant grant
        modify (on_store (set_grant id ended))
        revoke_leases rt (some grant.grant_id) none
        append_audit rt (of_grant ended) "system" "grant.expired" success "ttl"
            (str_append "expiry:" grant.grant_id)
      in if is_due grant.status grant.expires_at now then lapse else pure tt

  unfoldable pub expire_grant : ℕ → String → Method (Unit {0})
  expire_grant now id = do
    found ← gets (λ s. get id s.grants)
    elim found [ none ↦ pure tt | some grant ↦ expire_found now id grant ]

  -- One turn of the second loop of `expire`.
  unfoldable pub expire_found_break_glass : ℕ → String → BreakGlass → Method (Unit {0})
  expire_found_break_glass now id request =
      let lapse : Method (Unit {0}) = do
        let ended = lapsed_break_glass request
        modify (on_store (set_break_glass id ended))
        revoke_leases rt none (some request.break_glass_id)
        queue_tenant_notification rt ended
        append_audit rt (of_break_glass ended) "system" "break_glass.ended" success "ttl"
            (str_append "expiry:" request.break_glass_id)
      in if is_due request.status request.expires_at now then lapse else pure tt

  unfoldable pub expire_break_glass : ℕ → String → Method (Unit {0})
  expire_break_glass now id = do
    found ← gets (λ s. get id s.break_glass)
    elim found [ none ↦ pure tt | some request ↦ expire_found_break_glass now id request ]

  -- `expire`: the loops visit the entries of the two maps, each under its key.
  unfoldable pub expire : Method (Unit {0})
  expire = do
    now ← read_clock rt
    grant_ids ← gets (λ s. keys s.grants)
    for_each (expire_grant now) grant_ids
    break_glass_ids ← gets (λ s. keys s.break_glass)
    for_each (expire_break_glass now) break_glass_ids

  -- The writes of `issueLease`, after its tests.
  unfoldable pub issue_write : IssueLease → Grant → Method IssuedLease
  issue_write input grant = do
    token ← random_bytes rt
    issued_at ← read_clock rt
    uuid ← random_uuid rt
    let lease = grant_lease input grant uuid issued_at (rt.sha256 token)
    modify (on_store (set_lease lease.lease_id lease))
    append_audit rt (of_grant grant) input.actor.principal_id "lease.issued" success
        (action_name input.action) input.correlation_id
    pure (record { lease = lease.public; token = token })

  unfoldable pub issue_checked : IssueLease → Method IssuedLease
  issue_checked input = do
    grant ← find_grant input.grant_id
    require (status_eq grant.status active) grant_inactive
    require (str_eq input.actor.principal_id grant.support_principal_id) support_principal_mismatch
    require (any (action_eq input.action) grant.actions) action_scope_mismatch
    require (opt_eq grant.session_id input.session_id) session_scope_mismatch
    require (opt_eq (object_id grant) input.object_id) object_scope_mismatch
    require (not (action_eq input.action content_decrypt) || is_kms_operator input.actor.role)
        kms_decrypt_role_required
    issue_write input grant

  -- `issueLease`.
  unfoldable pub issue_lease : IssueLease → Method IssuedLease
  issue_lease input = do expire; issue_checked input

  unfoldable pub issue_break_glass_checked : IssueBreakGlassLease → Method IssuedLease
  issue_break_glass_checked input = do
    request ← find_break_glass input.break_glass_id
    require (status_eq request.status active) break_glass_inactive
    require
        (str_eq input.actor.principal_id request.requester_principal_id
          || contains input.actor.principal_id request.approval_principal_ids)
        break_glass_principal_mismatch
    require
        (opt_eq request.session_id (some input.session_id)
          && opt_eq request.object_id (some input.object_id)
          && any (action_eq input.action) request.actions)
        break_glass_scope_mismatch
    require (not (action_eq input.action content_decrypt) || is_kms_operator input.actor.role)
        kms_decrypt_role_required
    token ← random_bytes rt
    issued_at ← read_clock rt
    uuid ← random_uuid rt
    let lease = break_glass_lease input request uuid issued_at (rt.sha256 token)
    modify (on_store (set_lease lease.lease_id lease))
    append_audit rt (of_break_glass request) input.actor.principal_id "lease.issued" success
        (action_name input.action) input.correlation_id
    pure (record { lease = lease.public; token = token })

  -- `issueBreakGlassLease`.
  unfoldable pub issue_break_glass_lease : IssueBreakGlassLease → Method IssuedLease
  issue_break_glass_lease input = do expire; issue_break_glass_checked input

  -- `!lease || lease.tokenHash !== hash(input.token)`.
  unfoldable pub find_lease : ConsumeLease → Method Lease
  find_lease input s = elim (get input.lease_id s.leases) [
    | none ↦ (err lease_invalid, s)
    | some lease ↦
        if str_eq lease.token_hash (rt.sha256 input.token)
        then (ok lease, s)
        else (err lease_invalid, s)
  ]

  -- The writes of `consumeLease`, after its tests.
  unfoldable pub consume_write : ConsumeLease → Lease → Aggregate → Method Bool
  consume_write input lease aggregate = do
    consumed_at ← read_clock rt
    let spent = record lease { public = record lease.public { consumed_at = some consumed_at } }
    modify (on_store (set_lease input.lease_id spent))
    append_audit rt aggregate input.principal_id (consumption_audit_action input.action) success
        (action_name input.action) input.correlation_id
    pure true

  unfoldable pub consume_checked : ConsumeLease → Method Bool
  consume_checked input = do
    lease ← find_lease input
    aggregate ← find_aggregate lease
    require (is_usable aggregate lease) lease_revoked_or_expired
    now ← read_clock rt
    require (not (leb lease.expires_at now)) lease_revoked_or_expired
    require (in_scope input lease) lease_scope_mismatch
    consume_write input lease aggregate

  -- `consumeLease`.
  unfoldable pub consume_lease : ConsumeLease → Method Bool
  consume_lease input = do expire; consume_checked input
