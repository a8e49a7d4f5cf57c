-- ===== src/SupportAccess/Grants.antt =====
-- The methods of `SupportAccessService` on support grants: create, verify, decide, revoke.
use Prim.Native.String.{◌++◌ as str_append}
use perseverance.Prelude.{
  ℕ, ◌+◌, ◌*◌, String, Bool, true, not, ◌&&◌, ◌||◌, Option, none, some, List, [], ◌∷◌, ◌++◌, leb,
  str_eq, if◌then◌else◌, length, any, filter, contains,
}
use perseverance.Prelude.Text.{truthy, is_empty, trim, utf16_length}
use perseverance.Prelude.Map.{Map, get}
use perseverance.Prelude.Exec.{ok, err, pure, gets, modify, require, ◌>>=◌, ◌>>◌}
use perseverance.SupportAccess.Types.{
  Action, content_decrypt, pending_verification, pending_approval, active, revoked, denied,
  requested, success, support_grant, Decision, approve, deny, Actor, Grant, Approval, Runtime,
  tenant_user_initiation_required, separation_of_duty_required, ttl_out_of_range,
  narrow_object_scope_required, ambiguous_object_scope, requester_mfa_required, invalid_state,
  approver_role_required, distinct_approver_required, kms_operator_approval_required,
  revoke_forbidden, schema_invalid, Method, action_eq, is_high_risk, status_eq, is_terminal,
  is_tenant_user, is_security_approver, is_kms_operator, may_approve_grant, is_approve,
  is_grant_kind,
}
use perseverance.SupportAccess.Store.{
  on_store, set_grant, remember, push_approval, find_grant, check_version, decision_replay,
  of_grant, read_clock, random_uuid, append_audit, revoke_leases,
}

pub record CreateGrant : Type 0 where
  pub tenant_id : String
  pub organization_id : String
  pub workspace_id : String
  pub session_id : Option String
  pub artifact_id : Option String
  pub attachment_id : Option String
  pub actions : List Action
  pub reason : String
  pub requester : Actor
  pub support_principal_id : String
  pub duration_minutes : ℕ
  pub idempotency_key : String
  pub correlation_id : String

pub record VerifyGrant : Type 0 where
  pub grant_id : String
  pub actor : Actor
  pub mfa_evidence_id : String
  pub expected_version : ℕ
  pub idempotency_key : String
  pub correlation_id : String

pub record DecideGrant : Type 0 where
  pub grant_id : String
  pub actor : Actor
  pub decision : Decision
  pub expected_version : ℕ
  pub idempotency_key : String
  pub mfa_evidence_id : Option String
  pub correlation_id : String

pub record RevokeGrant : Type 0 where
  pub grant_id : String
  pub actor : Actor
  pub expected_version : ℕ
  pub idempotency_key : String
  pub correlation_id : String

-- `[...new Set(actions)]`: the first of equal elements stays.
abbrev pub dedupe : List Action → List Action → List Action
dedupe seen [] = []
dedupe seen (a ∷ as') =
    let rest = dedupe (a ∷ seen) as' in
    let skip = dedupe seen as' in if any (action_eq a) seen then skip else a ∷ rest

abbrev pub is_identifier : String → Bool
is_identifier s = not (is_empty s)

abbrev pub is_nullable_identifier : Option String → Bool
is_nullable_identifier none = true
is_nullable_identifier (some s) = not (is_empty s)

-- `supportGrantSchema` on a grant: its texts and lengths are checked, and the reason is trimmed.
-- Times print as valid dates, and the other fields hold by their types.
unfoldable pub is_schema_grant : Grant → Bool
is_schema_grant g =
    is_identifier g.grant_id
    && is_identifier g.tenant_id
    && is_identifier g.organization_id
    && is_identifier g.workspace_id
    && is_nullable_identifier g.session_id
    && is_nullable_identifier g.artifact_id
    && is_nullable_identifier g.attachment_id
    && leb 1 (length g.actions)
    && leb (length g.actions) 4
    && leb 8 (utf16_length (trim g.reason))
    && leb (utf16_length (trim g.reason)) 500
    && is_identifier g.requester_principal_id
    && is_identifier g.support_principal_id
    && is_nullable_identifier g.mfa_evidence_id
    && leb 1 g.required_approvals
    && leb g.required_approvals 2
    && leb (length g.approval_principal_ids) 2
    && leb 1 g.version
    && is_identifier g.idempotency_key

abbrev pub trimmed : Grant → Grant
trimmed g = record g { reason = trim g.reason }

unfoldable pub parse_grant : Grant → Method Grant
unfolding is_schema_grant
parse_grant g s = if is_schema_grant g then (ok (trimmed g), s) else (err schema_invalid, s)

abbrev pub get_existing {ℓ} : {V : Type ℓ} → Option String → Map V → Option V
get_existing none m = none
get_existing (some id) m = get id m

-- The grant that `createGrant` stores, before it is parsed.
abbrev pub new_grant : CreateGrant → String → ℕ → Grant
new_grant input uuid created_at = record {
  grant_id = str_append "sgr_" uuid;
  tenant_id = input.tenant_id;
  organization_id = input.organization_id;
  workspace_id = input.workspace_id;
  session_id = input.session_id;
  artifact_id = input.artifact_id;
  attachment_id = input.attachment_id;
  actions = dedupe [] input.actions;
  reason = input.reason;
  requester_principal_id = input.requester.principal_id;
  support_principal_id = input.support_principal_id;
  mfa_evidence_id = none;
  required_approvals = if any is_high_risk input.actions then 2 else 1;
  approval_principal_ids = [];
  status = pending_verification;
  issued_at = none;
  expires_at = created_at + input.duration_minutes * 60_000;
  revoked_at = none;
  version = 1;
  generation = 0;
  idempotency_key = input.idempotency_key;
}

-- The approvals that `decideGrant` and its activation count.
abbrev pub approves : String → Approval → Bool
approves id a = is_grant_kind a.aggregate_kind && str_eq a.aggregate_id id && is_approve a.decision

abbrev pub by_kms : Approval → Bool
by_kms a = is_kms_operator a.approver_role

abbrev pub grant_approval : DecideGrant → Grant → String → ℕ → Approval
grant_approval input g uuid at = record {
  aggregate_kind = support_grant;
  aggregate_id = g.grant_id;
  approval_id = str_append "sap_" uuid;
  approver_principal_id = input.actor.principal_id;
  approver_role = input.actor.role;
  decision = input.decision;
  mfa_evidence_id = elim input.mfa_evidence_id [ none ↦ "strong_mfa" | some e ↦ e ];
  idempotency_key = input.idempotency_key;
  decided_at = at;
}

abbrev pub decision_name : Decision → String
decision_name approve = "approve"
decision_name deny = "deny"

abbrev pub decision_audit_action : Decision → String
decision_audit_action approve = "grant.approved"
decision_audit_action deny = "grant.denied"

module _ (rt : Runtime) where
  unfoldable pub open_grant : CreateGrant → Method (Option Grant)
  open_grant input = do
    created_at ← read_clock rt
    uuid ← random_uuid rt
    grant ← parse_grant (new_grant input uuid created_at)
    modify (on_store (set_grant grant.grant_id grant))
    modify (on_store (remember (str_append "grant:" input.idempotency_key) grant.grant_id))
    append_audit rt (of_grant grant) input.requester.principal_id "grant.created" requested
        input.reason input.correlation_id
    pure (some grant)

  -- `createGrant`. The answer is missing where the key is bound to no grant of the store.
  unfoldable pub create_grant : CreateGrant → Method (Option Grant)
  create_grant input = do
    require (is_tenant_user input.requester.role) tenant_user_initiation_required
    require (not (str_eq input.requester.principal_id input.support_principal_id))
        separation_of_duty_required
    require (leb 5 input.duration_minutes && leb input.duration_minutes 60) ttl_out_of_range
    require (truthy input.session_id || truthy input.artifact_id || truthy input.attachment_id)
        narrow_object_scope_required
    require (not (truthy input.artifact_id && truthy input.attachment_id)) ambiguous_object_scope
    existing ← gets (λ s. get (str_append "grant:" input.idempotency_key) s.idempotency)
    if truthy existing then gets (λ s. get_existing existing s.grants) else open_grant input

  unfoldable pub verify_fresh : VerifyGrant → Grant → Method Grant
  verify_fresh input grant = do
    check_version grant.version input.expected_version
    require (str_eq input.actor.principal_id grant.requester_principal_id) requester_mfa_required
    require (status_eq grant.status pending_verification) invalid_state
    let verified = record grant {
      mfa_evidence_id = some input.mfa_evidence_id;
      status = pending_approval;
      version = grant.version + 1;
    }
    modify (on_store (set_grant input.grant_id verified))
    modify (on_store (remember (str_append "grant-mfa:" input.idempotency_key) grant.grant_id))
    append_audit rt (of_grant verified) input.actor.principal_id "grant.mfa_verified" success
        "strong_mfa" input.correlation_id
    pure verified

  -- `verifyGrantMfa`.
  unfoldable pub verify_grant_mfa : VerifyGrant → Method Grant
  verify_grant_mfa input = do
    grant ← find_grant input.grant_id
    replay ← decision_replay (str_append "grant-mfa:" input.idempotency_key) grant.grant_id
    if replay then pure grant else verify_fresh input grant

  -- The `approve` branch of `decideGrant`, over the approvals given so far.
  unfoldable pub approved : Grant → Approval → List Approval → Method Grant
  approved grant approval earlier =
      let candidates = filter (approves grant.grant_id) earlier ++ approval ∷ [] in
      let ids = grant.approval_principal_ids ++ approval.approver_principal_id ∷ [] in
      let activate : Method Grant = do
        require (not (any (action_eq content_decrypt) grant.actions) || any by_kms candidates)
            kms_operator_approval_required
        now ← read_clock rt
        pure (record grant { status = active; issued_at = some now; approval_principal_ids = ids })
      in if leb grant.required_approvals (length candidates)
        then activate
        else pure (record grant { approval_principal_ids = ids })

  -- Both branches of `decideGrant`.
  unfoldable pub decided : Decision → Grant → Approval → List Approval → Method Grant
  decided approve grant approval earlier = approved grant approval earlier
  decided deny grant approval earlier =
      pure (record grant { status = denied; generation = grant.generation + 1 })

  unfoldable pub audit_activation : DecideGrant → Grant → Method (Unit {0})
  audit_activation input grant =
      if status_eq grant.status active
      then append_audit rt (of_grant grant) input.actor.principal_id "grant.activated" success
          "approval_threshold_met" input.correlation_id
      else pure tt

  unfoldable pub decide_fresh : DecideGrant → Grant → Method Grant
  decide_fresh input grant = do
    check_version grant.version input.expected_version
    require (status_eq grant.status pending_approval) invalid_state
    require (may_approve_grant input.actor.role) approver_role_required
    require (not (str_eq input.actor.principal_id grant.requester_principal_id))
        separation_of_duty_required
    require (not (contains input.actor.principal_id grant.approval_principal_ids))
        distinct_approver_required
    uuid ← random_uuid rt
    now ← read_clock rt
    let approval = grant_approval input grant uuid now
    earlier ← gets (λ s. s.approvals)
    next ← decided input.decision grant approval earlier
    let stored = record next { version = grant.version + 1 }
    modify (on_store (set_grant input.grant_id stored))
    modify (on_store (push_approval approval))
    modify (on_store (remember (str_append "grant-decision:" input.idempotency_key) grant.grant_id))
    append_audit rt (of_grant stored) input.actor.principal_id
        (decision_audit_action input.decision) success (decision_name input.decision)
        input.correlation_id
    audit_activation input stored
    pure stored

  -- `decideGrant`.
  unfoldable pub decide_grant : DecideGrant → Method Grant
  decide_grant input = do
    grant ← find_grant input.grant_id
    replay ← decision_replay (str_append "grant-decision:" input.idempotency_key) grant.grant_id
    if replay then pure grant else decide_fresh input grant

  unfoldable pub end_grant : RevokeGrant → Grant → Method Grant
  end_grant input grant = do
    now ← read_clock rt
    let ended = record grant {
      status = revoked;
      revoked_at = some now;
      generation = grant.generation + 1;
      version = grant.version + 1;
    }
    modify (on_store (set_grant input.grant_id ended))
    revoke_leases rt (some grant.grant_id) none
    modify (on_store (remember (str_append "grant-revoke:" input.idempotency_key) grant.grant_id))
    append_audit rt (of_grant ended) input.actor.principal_id "grant.revoked" success "early_revoke"
        input.correlation_id
    pure ended

  unfoldable pub revoke_fresh : RevokeGrant → Grant → Method Grant
  revoke_fresh input grant = do
    check_version grant.version input.expected_version
    require
        (str_eq input.actor.principal_id grant.requester_principal_id
          || is_security_approver input.actor.role)
        revoke_forbidden
    if is_terminal grant.status then pure grant else end_grant input grant

  -- `revokeGrant`.
  unfoldable pub revoke_grant : RevokeGrant → Method Grant
  revoke_grant input = do
    grant ← find_grant input.grant_id
    replay ← decision_replay (str_append "grant-revoke:" input.idempotency_key) grant.grant_id
    if replay then pure grant else revoke_fresh input grant
