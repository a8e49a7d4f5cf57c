-- ===== src/SupportAccess/Examples.antt =====
-- The theorems on support access at a small service: a clock that stands still, identifiers in unary,
-- texts that are hashed to themselves, and one grant that is requested, verified, approved, used and
-- used again.
use Prim.Native.String.{[], ◌∷◌}
use perseverance.Prelude.{
  ℕ, zero, suc, String, ◌≡◌, refl, ap, subst, Bool, true, none, some, List, [], ◌∷◌,
}
use perseverance.Prelude.Map.{get, set}
use perseverance.Prelude.Text.{trim, utf16_length}
use perseverance.Prelude.Exec.{Result, ok, pure, gets, or_throw, modify, require, for_each}
use perseverance.SupportAccess.Store.{primitives, revoke_loop, last_hash}
use perseverance.SupportAccess.Types.{
  tenant_user, support, operator, security_approver, kms_operator, IssuedLease, content_view,
  revoked, approve, Actor, Grant, BreakGlass, Service, Runtime, Error,
}
use perseverance.SupportAccess.Grants.{
  CreateGrant, VerifyGrant, DecideGrant, new_grant, is_schema_grant, parse_grant, open_grant,
  create_grant, verify_fresh, verify_grant_mfa, approved, decided, audit_activation, decide_fresh,
  decide_grant, revoke_fresh, revoke_grant,
}
use perseverance.SupportAccess.BreakGlass.{
  CreateBreakGlass, new_break_glass, VerifyBreakGlass, ApproveBreakGlass, reverify,
  verify_break_glass_mfa,
}
use perseverance.SupportAccess.Leases.{
  IssueLease, ConsumeLease, is_usable, in_scope, aggregate_of, find_aggregate, expire_found,
  expire_grant, expire, issue_write, issue_checked, issue_lease, find_lease, consume_write,
  consume_checked, consume_lease,
}
use perseverance.SupportAccess.Run.{
  Call, creates_break_glass, verifies_break_glass, approves_break_glass, creates_grant,
  verifies_grant, decides_grant, issues_lease, consumes_lease, expires, empty_store, new_service,
  step, run, run-Reach,
}
use perseverance.SupportAccess.Run.FourEyes.{IsOrderly, Fresh}
use perseverance.SupportAccess.Run.Grants.{run-IsOrderly}
use perseverance.SupportAccess.Run.Audit.{IsChained, Extends, run-IsChained, audit_append_only}
use perseverance.SupportAccess.Run.Leases.{
  IsDead, AreDrawn, Reach-AreDrawn, dead_lease_refused, lease_consumed_once,
}
use perseverance.SupportAccess.Run.Requests.{AreApproved}
use perseverance.SupportAccess.Run.Emergencies.{run-AreApproved}
use perseverance.SupportAccess.Issue.{IsNarrow, issue_lease-IsNarrow}
use perseverance.SupportAccess.Consume.{IsGranted, consume_lease-IsGranted}
use perseverance.SupportAccess.Conflicts.{verify_break_glass_mfa-revives}
use perseverance.SupportAccess.Protocol.{here, reverified}
use perseverance.SupportAccess.Protocol.Leases.{consume_lease-Reach}
use perseverance.SupportAccess.Outbox.{chain_from, verify_audit_chain}

abbrev unary : ℕ → String
unary zero = []
unary (suc n) = "x" ∷ unary n

abbrev rt : Runtime
rt = record {
  now = λ _. 1000;
  uuid = unary;
  random_token = λ _. "token";
  sha256 = λ s. s;
  scope_json = λ _ _ _ _. "scope";
  audit_json = λ body. body.action;
}

abbrev of_cons : (s : String) → String
of_cons [] = []
of_cons (c ∷ s) = s

unary_injective : Fresh rt
unary_injective zero zero e = refl
unary_injective zero (suc n) e = cc
unary_injective (suc m) zero e = cc
unary_injective (suc m) (suc n) e = ap suc (unary_injective m n (ap of_cons e))

abbrev asker : Actor
asker = record { principal_id = "asker"; role = tenant_user }

abbrev helper : Actor
helper = record { principal_id = "helper"; role = support }

abbrev creation : CreateGrant
creation = record {
  tenant_id = "tenant";
  organization_id = "organization";
  workspace_id = "workspace";
  session_id = some "session";
  artifact_id = none;
  attachment_id = none;
  actions = content_view ∷ [];
  reason = "look at the session";
  requester = asker;
  support_principal_id = "helper";
  duration_minutes = 30;
  idempotency_key = "create";
  correlation_id = "c1";
}

abbrev verification : VerifyGrant
verification = record {
  grant_id = "sgr_";
  actor = asker;
  mfa_evidence_id = "mfa";
  expected_version = 1;
  idempotency_key = "verify";
  correlation_id = "c2";
}

abbrev decision : DecideGrant
decision = record {
  grant_id = "sgr_";
  actor = helper;
  decision = approve;
  expected_version = 2;
  idempotency_key = "decide";
  mfa_evidence_id = none;
  correlation_id = "c3";
}

abbrev use_request : IssueLease
use_request = record {
  grant_id = "sgr_";
  actor = helper;
  session_id = some "session";
  object_id = none;
  action = content_view;
  correlation_id = "c4";
}

abbrev presented : ConsumeLease
presented = record {
  lease_id = "jit_xx";
  token = "token";
  tenant_id = "tenant";
  organization_id = "organization";
  workspace_id = "workspace";
  session_id = some "session";
  object_id = none;
  action = content_view;
  principal_id = "helper";
  correlation_id = "c5";
}

abbrev story : List Call
story =
    creates_grant creation
    ∷ verifies_grant verification
    ∷ decides_grant decision
    ∷ issues_lease use_request
    ∷ []

abbrev served : Service
served = run rt new_service story

abbrev alarm : CreateBreakGlass
alarm = record {
  tenant_id = "tenant";
  organization_id = "organization";
  workspace_id = "workspace";
  session_id = some "session";
  object_id = "object";
  actions = content_view ∷ [];
  incident_id = "INC-2024";
  reason = "an incident in production";
  requester = record { principal_id = "operator"; role = operator };
  duration_minutes = 15;
  idempotency_key = "alarm";
  correlation_id = "c0";
}

new_service-AreDrawn : AreDrawn rt new_service
unfolding get
new_service-AreDrawn id l e = cc

-- Everything that the run of the story calls.
unfoldable machine : Unit {0}
unfolding run step primitives parse_grant open_grant create_grant verify_fresh verify_grant_mfa
    approved decided audit_activation decide_fresh decide_grant revoke_loop last_hash expire_found
    expire_grant expire for_each issue_write issue_checked issue_lease find_lease is_usable in_scope
    aggregate_of find_aggregate consume_write consume_checked consume_lease get set pure gets modify
    require or_throw is_schema_grant trim utf16_length reverify verify_break_glass_mfa revoke_fresh
    revoke_grant
machine = tt

new_service-IsOrderly : IsOrderly rt new_service
unfolding get
new_service-IsOrderly = record {
  keyed = λ id g e. cc;
  drawn = λ id g e. cc;
  unknown = λ id e. refl;
  sound = λ id g e. cc;
}

run-IsOrderly_example : IsOrderly rt (run rt new_service story)
run-IsOrderly_example = run-IsOrderly rt new_service story unary_injective new_service-IsOrderly

used : (consume_lease rt presented served).0 ≡ ok true
unfolding machine
used = refl

abbrev before_issue : Service
before_issue =
    run rt new_service
      (creates_grant creation ∷ verifies_grant verification ∷ decides_grant decision ∷ [])

abbrev handed_over : IssuedLease
handed_over = record {
  lease = record {
    lease_id = "jit_xx";
    grant_id = some "sgr_";
    break_glass_id = none;
    tenant_id = "tenant";
    organization_id = "organization";
    workspace_id = "workspace";
    session_id = some "session";
    object_id = none;
    action = content_view;
    principal_id = "helper";
    generation = 0;
    issued_at = 1000;
    expires_at = 301_000;
    consumed_at = none;
    revoked_at = none;
  };
  token = "token";
}

issued : (issue_lease rt use_request before_issue).0 ≡ ok handed_over
unfolding machine
issued = refl

issue_lease-IsNarrow_example : IsNarrow rt use_request (expire rt before_issue).1 served handed_over
unfolding run step
issue_lease-IsNarrow_example =
    issue_lease-IsNarrow rt use_request before_issue handed_over served
      (ap (λ (r : Result Error IssuedLease). (r, served)) issued)

abbrev after_use : Service
after_use = (consume_lease rt presented served).1

used_once : consume_lease rt presented served ≡ (ok true, after_use)
used_once = ap (λ (r : Result Error Bool). (r, after_use)) used

served-AreDrawn : AreDrawn rt served
served-AreDrawn = Reach-AreDrawn (run-Reach rt new_service story) new_service-AreDrawn

consume_lease-IsGranted_example : IsGranted rt presented (expire rt served).1 after_use
consume_lease-IsGranted_example =
    consume_lease-IsGranted rt presented served true after_use used_once

used-IsDead : IsDead "jit_xx" after_use
unfolding machine
used-IsDead = (_, refl, refl)

dead_lease_refused_example :
    ¬ (consume_lease rt presented (run rt after_use (expires ∷ [])) ≡ (ok true, after_use))
dead_lease_refused_example =
    dead_lease_refused rt after_use (expires ∷ []) presented true after_use unary_injective
      (subst (AreDrawn rt) (ap (λ p. p.1) used_once)
        (Reach-AreDrawn (consume_lease-Reach rt presented served here) served-AreDrawn))
      used-IsDead

lease_consumed_once_example :
    ¬ (consume_lease rt presented (run rt after_use (expires ∷ [])) ≡ (ok true, after_use))
lease_consumed_once_example =
    lease_consumed_once rt served presented presented (expires ∷ []) true true after_use after_use
      unary_injective served-AreDrawn used_once refl

new_service-IsChained : IsChained rt new_service
unfolding chain_from verify_audit_chain
new_service-IsChained = (refl, refl)

run-IsChained_example : IsChained rt (run rt new_service story)
run-IsChained_example = run-IsChained rt new_service story new_service-IsChained

audit_append_only_example :
    Extends served.audit (run rt served (consumes_lease presented ∷ [])).audit
audit_append_only_example = audit_append_only rt served (consumes_lease presented ∷ [])

abbrev waiting : Grant
waiting = new_grant creation "1" 1000

abbrev ended_request : BreakGlass
ended_request = record (new_break_glass alarm "1" 1000) {
  status = revoked;
  approval_principal_ids = "first" ∷ [];
  revoked_at = some 2000;
  version = 4;
}

abbrev stocked : Service
stocked = record new_service {
  store = record empty_store {
    grants = ("sgr_1", waiting) ∷ [];
    break_glass = ("bgr_1", ended_request) ∷ [];
  };
}

abbrev revival : VerifyBreakGlass
revival = record {
  break_glass_id = "bgr_1";
  actor = record { principal_id = "operator"; role = operator };
  mfa_evidence_id = "mfa";
  expected_version = 4;
  idempotency_key = "again";
  correlation_id = "c7";
}

abbrev revived : Service
revived = (verify_break_glass_mfa rt revival stocked).1

verify_break_glass_mfa-revives_example :
    ((verify_break_glass_mfa rt revival stocked).0 ≡ ok (reverified ended_request "mfa"))
    × (get "bgr_1" revived.break_glass ≡ some (reverified ended_request "mfa"))
    × (revived.approvals ≡ stocked.approvals)
    × (revived.leases ≡ stocked.leases)
unfolding get
verify_break_glass_mfa-revives_example =
    verify_break_glass_mfa-revives rt stocked revival ended_request refl refl refl refl

abbrev guard : Actor
guard = record { principal_id = "guard"; role = security_approver }

abbrev custodian : Actor
custodian = record { principal_id = "custodian"; role = kms_operator }

abbrev first_approval : ApproveBreakGlass
first_approval = record {
  break_glass_id = "bgr_";
  actor = guard;
  expected_version = 2;
  idempotency_key = "first";
  mfa_evidence_id = none;
  correlation_id = "c8";
}

abbrev second_approval : ApproveBreakGlass
second_approval = record first_approval {
  actor = custodian;
  expected_version = 3;
  idempotency_key = "second";
}

abbrev emergency : List Call
emergency =
    creates_break_glass alarm
    ∷ verifies_break_glass (record revival { break_glass_id = "bgr_"; expected_version = 1 })
    ∷ approves_break_glass first_approval
    ∷ approves_break_glass second_approval
    ∷ []

new_service-AreApproved : AreApproved rt new_service
unfolding get
new_service-AreApproved = record {
  keyed = λ id b e. cc;
  drawn = λ id b e. cc;
  unknown = λ id e. refl;
  sound = λ id b e. cc;
}

run-AreApproved_example : AreApproved rt (run rt new_service emergency)
run-AreApproved_example =
    run-AreApproved rt new_service emergency unary_injective new_service-AreApproved
