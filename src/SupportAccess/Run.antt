-- ===== src/SupportAccess/Run.antt =====
-- The service under any sequence of its methods, each call given its arguments by a client.
pub mod Audit
pub mod FourEyes
pub mod Leases
pub mod Approvals
pub mod Grants
pub mod Requests
pub mod Emergencies
use perseverance.Prelude.{ℕ, String, Option, List, [], ◌∷◌}
use perseverance.SupportAccess.Types.{Store, Service, Runtime}
use perseverance.SupportAccess.Grants.{
  CreateGrant, VerifyGrant, DecideGrant, RevokeGrant, create_grant, verify_grant_mfa, decide_grant,
  revoke_grant,
}
use perseverance.SupportAccess.BreakGlass.{
  CreateBreakGlass, VerifyBreakGlass, ApproveBreakGlass, RevokeBreakGlass, create_break_glass,
  verify_break_glass_mfa, approve_break_glass, revoke_break_glass,
}
use perseverance.SupportAccess.Leases.{
  IssueLease, IssueBreakGlassLease, ConsumeLease, expire, issue_lease, issue_break_glass_lease,
  consume_lease,
}
use perseverance.SupportAccess.Outbox.{Scope, fail_outbox, deliver_outbox, list_grants}
use perseverance.SupportAccess.Protocol.{Reach, here}
use perseverance.SupportAccess.Protocol.Rules.{Reach-trans}
use perseverance.SupportAccess.Protocol.Grants.{
  create_grant-Reach, verify_grant_mfa-Reach, decide_grant-Reach, revoke_grant-Reach,
}
use perseverance.SupportAccess.Protocol.Requests.{
  create_break_glass-Reach, verify_break_glass_mfa-Reach, approve_break_glass-Reach,
  revoke_break_glass-Reach,
}
use perseverance.SupportAccess.Protocol.Leases.{
  expire-Reach, issue_lease-Reach, issue_break_glass_lease-Reach, consume_lease-Reach,
  fail_outbox-Reach, deliver_outbox-Reach, list_grants-Reach,
}

-- The methods that change the service.
pub data Call : Type 0 where
  creates_grant : CreateGrant → Call
  verifies_grant : VerifyGrant → Call
  decides_grant : DecideGrant → Call
  revokes_grant : RevokeGrant → Call
  creates_break_glass : CreateBreakGlass → Call
  verifies_break_glass : VerifyBreakGlass → Call
  approves_break_glass : ApproveBreakGlass → Call
  revokes_break_glass : RevokeBreakGlass → Call
  issues_lease : IssueLease → Call
  issues_break_glass_lease : IssueBreakGlassLease → Call
  consumes_lease : ConsumeLease → Call
  expires : Call
  lists_grants : Scope → Call
  delivers_outbox : String → Option String → Call
  fails_outbox : String → ℕ → Option String → Call

-- `new SupportAccessService(now)`, with no state to restore.
abbrev pub empty_store : Store
empty_store = record {
  grants = [];
  break_glass = [];
  leases = [];
  approvals = [];
  idempotency = [];
  audit = [];
  outbox = [];
}

abbrev pub new_service : Service
new_service = record { store = empty_store; clock_reads = 0; uuids = 0; randoms = 0 }

module _ (rt : Runtime) where
  -- The service after a call, which may have thrown.
  unfoldable pub step : Service → Call → Service
  step s (creates_grant input) = (create_grant rt input s).1
  step s (verifies_grant input) = (verify_grant_mfa rt input s).1
  step s (decides_grant input) = (decide_grant rt input s).1
  step s (revokes_grant input) = (revoke_grant rt input s).1
  step s (creates_break_glass input) = (create_break_glass rt input s).1
  step s (verifies_break_glass input) = (verify_break_glass_mfa rt input s).1
  step s (approves_break_glass input) = (approve_break_glass rt input s).1
  step s (revokes_break_glass input) = (revoke_break_glass rt input s).1
  step s (issues_lease input) = (issue_lease rt input s).1
  step s (issues_break_glass_lease input) = (issue_break_glass_lease rt input s).1
  step s (consumes_lease input) = (consume_lease rt input s).1
  step s expires = (expire rt s).1
  step s (lists_grants scope) = (list_grants rt scope s).1
  step s (delivers_outbox id key) = (deliver_outbox rt id key s).1
  step s (fails_outbox id retry_at key) = (fail_outbox id retry_at key s).1

  unfoldable pub run : Service → List Call → Service
  run s [] = s
  run s (c ∷ cs) = run (step s c) cs

  step-Reach : (s : Service) (c : Call) → Reach rt s (step s c)
  unfolding step
  step-Reach s (creates_grant input) = create_grant-Reach rt input s here
  step-Reach s (verifies_grant input) = verify_grant_mfa-Reach rt input s here
  step-Reach s (decides_grant input) = decide_grant-Reach rt input s here
  step-Reach s (revokes_grant input) = revoke_grant-Reach rt input s here
  step-Reach s (creates_break_glass input) = create_break_glass-Reach rt input s here
  step-Reach s (verifies_break_glass input) = verify_break_glass_mfa-Reach rt input s here
  step-Reach s (approves_break_glass input) = approve_break_glass-Reach rt input s here
  step-Reach s (revokes_break_glass input) = revoke_break_glass-Reach rt input s here
  step-Reach s (issues_lease input) = issue_lease-Reach rt input s here
  step-Reach s (issues_break_glass_lease input) = issue_break_glass_lease-Reach rt input s here
  step-Reach s (consumes_lease input) = consume_lease-Reach rt input s here
  step-Reach s expires = expire-Reach rt s here
  step-Reach s (lists_grants scope) = list_grants-Reach rt scope s here
  step-Reach s (delivers_outbox id key) = deliver_outbox-Reach rt id key s here
  step-Reach s (fails_outbox id retry_at key) = fail_outbox-Reach rt id retry_at key s here

  -- Any calls in any order, failing ones included, make only changes of the step relation `Change`.
  pub run-Reach : (s : Service) (cs : List Call) → Reach rt s (run s cs)
  unfolding run
  run-Reach s [] = here
  run-Reach s (c ∷ cs) = Reach-trans (step-Reach s c) (run-Reach (step s c) cs)
