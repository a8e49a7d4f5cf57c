-- ===== src/SupportAccess/State.antt =====
-- `SupportAccessState`: the constructor of `SupportAccessService` that restores one, and `snapshot`.
use Prim.Native.String.{◌++◌ as str_append}
use perseverance.Prelude.{String, List, ◌++◌}
use perseverance.Prelude.Map.{values}
use perseverance.Prelude.Exec.{modify, for_each, ◌>>=◌, ◌>>◌}
use perseverance.SupportAccess.Types.{
  support_grant, break_glass, AggregateKind, Grant, BreakGlass, Lease, Approval, Audit,
  OutboxRecord, Service, Method,
}
use perseverance.SupportAccess.Store.{
  on_store, set_grant, set_break_glass, set_lease, remember, push_approval,
}
use perseverance.SupportAccess.Grants.{parse_grant}

pub record State : Type 0 where
  pub grants : List Grant
  pub break_glass : List BreakGlass
  pub leases : List Lease
  pub approvals : List Approval
  pub idempotency : List (String × String)
  pub audit : List Audit
  pub outbox : List OutboxRecord

-- `snapshot`.
unfoldable pub snapshot : Service → State
snapshot s = record {
  grants = values s.grants;
  break_glass = values s.break_glass;
  leases = values s.leases;
  approvals = s.approvals;
  idempotency = s.idempotency;
  audit = s.audit;
  outbox = s.outbox;
}

unfoldable pub restore_grant : Grant → Method (Unit {0})
restore_grant grant = do
  parsed ← parse_grant grant
  modify (on_store (set_grant parsed.grant_id parsed))
  modify (on_store (remember (str_append "grant:" parsed.idempotency_key) parsed.grant_id))

unfoldable pub restore_break_glass : BreakGlass → Method (Unit {0})
restore_break_glass request = do
  modify (on_store (set_break_glass request.break_glass_id request))
  modify (
      on_store
        (remember (str_append "break-glass:" request.idempotency_key) request.break_glass_id))

abbrev pub decision_prefix : AggregateKind → String
decision_prefix support_grant = "grant-decision:"
decision_prefix break_glass = "break-approval:"

-- One turn of the loop over `this.#approvals`.
unfoldable pub restore_decision : Approval → Method (Unit {0})
restore_decision a = modify (
    on_store
      (remember (str_append (decision_prefix a.aggregate_kind) a.idempotency_key) a.aggregate_id))

-- The body of the constructor, on a service that is empty.
unfoldable pub restore : State → Method (Unit {0})
restore state = do
  for_each restore_grant state.grants
  for_each restore_break_glass state.break_glass
  for_each (λ l. modify (on_store (set_lease l.lease_id l))) state.leases
  for_each (λ a. modify (on_store (push_approval a))) state.approvals
  for_each restore_decision state.approvals
  for_each (λ (e : String × String). modify (on_store (remember e.0 e.1))) state.idempotency
  modify (on_store (λ t. record t { audit = t.audit ++ state.audit }))
  modify (on_store (λ t. record t { outbox = t.outbox ++ state.outbox }))
