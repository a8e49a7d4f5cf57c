-- ===== src/SupportAccess/Protocol.antt =====
-- The protocol of support access as a step relation: which changes of the service are allowed, each
-- with its condition. The children show that the methods make no other change.
pub mod Rules
pub mod Grants
pub mod Requests
pub mod Leases
use Prim.Native.String.{◌++◌ as str_append}
use perseverance.Prelude.{
  ℕ, suc, ◌+◌, ◌≤◌, String, ◌≡◌, Bool, true, false, not, ◌&&◌, ◌||◌, Option, none, some, List, [],
  ◌∷◌, ◌++◌, ◌==◌, leb, str_eq, opt_eq, is_some, any, filter, length, contains,
}
use perseverance.Prelude.Map.{get}
use perseverance.SupportAccess.Types.{
  content_decrypt, Status, pending_verification, pending_approval, active, Outcome, support_grant,
  break_glass, approve, deny, Grant, BreakGlass, Lease, Approval, OutboxRecord, Store, Service,
  Runtime, action_eq, is_high_risk, is_terminal, is_grant_kind,
}
use perseverance.SupportAccess.Store.{
  on_store, set_grant, set_break_glass, set_lease, remember, push_approval, push_outbox, Aggregate,
  of_grant, of_break_glass, audit_body, sign, revoke_loop,
}
use perseverance.SupportAccess.Grants.{CreateGrant, trimmed, new_grant, approves, by_kms}
use perseverance.SupportAccess.BreakGlass.{CreateBreakGlass, new_break_glass, is_for_request}
use perseverance.SupportAccess.Leases.{aggregate_status, aggregate_generation}

-- The approval `a` may be counted for the grant `g`.
pub record MayCount (g : Grant) (a : Approval) : Type 0 where
  pub kind : is_grant_kind a.aggregate_kind ≡ true
  pub target : a.aggregate_id ≡ g.grant_id
  pub approves : a.decision ≡ approve
  pub not_requester : str_eq a.approver_principal_id g.requester_principal_id ≡ false
  pub not_twice : contains a.approver_principal_id g.approval_principal_ids ≡ false

abbrev pub counted : Grant → Approval → Grant
counted g a = record g {
  approval_principal_ids = g.approval_principal_ids ++ a.approver_principal_id ∷ [];
  version = g.version + 1;
}

abbrev pub activated : Grant → Approval → ℕ → Grant
activated g a now = record g {
  status = active;
  issued_at = some now;
  approval_principal_ids = g.approval_principal_ids ++ a.approver_principal_id ∷ [];
  version = g.version + 1;
}

abbrev pub candidates : Service → Grant → Approval → List Approval
candidates s g a = filter (approves g.grant_id) s.approvals ++ a ∷ []

-- The end of a grant: by revocation, expiry or denial.
abbrev pub ended : Grant → Status → Option ℕ → Grant
ended g status revoked_at = record g {
  status = status;
  revoked_at = revoked_at;
  generation = g.generation + 1;
  version = g.version + 1;
}

-- A lease that was just issued under an active aggregate.
pub record IsIssuedUnder (aggregate : Aggregate) (l : Lease) : Type 0 where
  pub is_active : aggregate_status aggregate ≡ active
  pub same_generation : l.generation ≡ aggregate_generation aggregate
  pub unused : l.consumed_at ≡ none
  pub unrevoked : l.revoked_at ≡ none

abbrev pub spent : Lease → ℕ → Lease
spent l at = record l { public = record l.public { consumed_at = some at } }

abbrev pub opened : Runtime → Service → CreateGrant → ℕ → Grant
opened rt s input at = trimmed (new_grant input (rt.uuid s.uuids) at)

abbrev pub opened_break_glass : Runtime → Service → CreateBreakGlass → ℕ → BreakGlass
opened_break_glass rt s input at = new_break_glass input (rt.uuid s.uuids) at

-- The approval `a` may be counted for the break-glass request `b`.
pub record MayCountBreakGlass (b : BreakGlass) (a : Approval) : Type 0 where
  pub kind : is_grant_kind a.aggregate_kind ≡ false
  pub target : a.aggregate_id ≡ b.break_glass_id
  pub not_requester : str_eq a.approver_principal_id b.requester_principal_id ≡ false
  pub not_twice : contains a.approver_principal_id b.approval_principal_ids ≡ false

abbrev pub counted_break_glass : BreakGlass → Approval → BreakGlass
counted_break_glass b a = record b {
  approval_principal_ids = b.approval_principal_ids ++ a.approver_principal_id ∷ [];
  version = b.version + 1;
}

abbrev pub reverified : BreakGlass → String → BreakGlass
reverified b evidence = record b {
  mfa_evidence_id = some evidence;
  status = pending_approval;
  version = b.version + 1;
}

abbrev pub activated_break_glass : BreakGlass → ℕ → BreakGlass
activated_break_glass b now = record b { status = active; issued_at = some now }

abbrev pub ended_break_glass : BreakGlass → Status → Option ℕ → BreakGlass
ended_break_glass b status revoked_at = record b {
  status = status;
  revoked_at = revoked_at;
  generation = b.generation + 1;
  version = b.version + 1;
}

abbrev pub request_approvals : Service → BreakGlass → List Approval
request_approvals s b = filter (is_for_request b.break_glass_id) s.approvals

pub data Change (rt : Runtime) : Service → Service → Type 0 where
  ticked :
      (s : Service) (c u r : ℕ)
      → s.uuids ≤ u
      → Change rt s (record s { clock_reads = c; uuids = u; randoms = r })
  logged :
      (s : Service) (aggregate : Aggregate) (actor action : String) (outcome : Outcome)
      (reason correlation_id : String) (at : ℕ)
      → Change rt s (record s {
        store = record s.store {
          audit =
              s.audit
              ++ sign rt
                  (audit_body rt aggregate actor action outcome reason correlation_id at s.audit)
                ∷ [];
        };
      })
  remembered : (s : Service) (key id : String) → Change rt s (on_store (remember key id) s)
  grant_opened :
      (s : Service) (input : CreateGrant) (at : ℕ)
      → Change rt s (record s {
        store = set_grant (opened rt s input at).grant_id (opened rt s input at) s.store;
        uuids = suc s.uuids;
      })
  grant_verified :
      (s : Service) (id evidence : String) (g : Grant)
      → get id s.grants ≡ some g
      → g.status ≡ pending_verification
      → Change rt s (
          on_store
            (set_grant id (record g {
              mfa_evidence_id = some evidence;
              status = pending_approval;
              version = g.version + 1;
            }))
            s)
  grant_counted :
      (s : Service) (id : String) (g : Grant) (a : Approval)
      → get id s.grants ≡ some g
      → g.status ≡ pending_approval
      → MayCount g a
      → Change rt s (on_store (λ t. push_approval a (set_grant id (counted g a) t)) s)
  grant_activated :
      (s : Service) (id : String) (g : Grant) (a : Approval) (now : ℕ)
      → get id s.grants ≡ some g
      → g.status ≡ pending_approval
      → MayCount g a
      → g.required_approvals ≤ length (candidates s g a)
      → (not (any (action_eq content_decrypt) g.actions) || any by_kms (candidates s g a)) ≡ true
      → Change rt s (on_store (λ t. push_approval a (set_grant id (activated g a now) t)) s)
  grant_denied :
      (s : Service) (id : String) (g : Grant) (a : Approval) (status : Status) (at : Option ℕ)
      → get id s.grants ≡ some g
      → is_terminal g.status ≡ false
      → is_terminal status ≡ true
      → a.decision ≡ deny
      → is_grant_kind a.aggregate_kind ≡ true
      → Change rt s (on_store (λ t. push_approval a (set_grant id (ended g status at) t)) s)
  grant_ended :
      (s : Service) (id : String) (g : Grant) (status : Status) (at : Option ℕ)
      → get id s.grants ≡ some g
      → is_terminal g.status ≡ false
      → is_terminal status ≡ true
      → Change rt s (on_store (set_grant id (ended g status at)) s)
  break_glass_opened :
      (s : Service) (input : CreateBreakGlass) (at : ℕ)
      → Change rt s (record s {
        store =
            set_break_glass
              (opened_break_glass rt s input at).break_glass_id
              (opened_break_glass rt s input at)
              s.store;
        uuids = suc s.uuids;
      })
  break_glass_verified :
      (s : Service) (id evidence : String) (b : BreakGlass)
      → get id s.break_glass ≡ some b
      → Change rt s (on_store (set_break_glass id (reverified b evidence)) s)
  break_glass_counted :
      (s : Service) (id : String) (b : BreakGlass) (a : Approval)
      → get id s.break_glass ≡ some b
      → b.status ≡ pending_approval
      → MayCountBreakGlass b a
      → Change rt s
          (on_store (λ t. push_approval a (set_break_glass id (counted_break_glass b a) t)) s)
  break_glass_activated :
      (s : Service) (id : String) (b : BreakGlass) (now : ℕ)
      → get id s.break_glass ≡ some b
      → b.status ≡ pending_approval
      → length (request_approvals s b) ≡ 2
      → (not (any (action_eq content_decrypt) b.actions) || any by_kms (request_approvals s b))
        ≡ true
      → Change rt s (on_store (set_break_glass id (activated_break_glass b now)) s)
  break_glass_ended :
      (s : Service) (id : String) (b : BreakGlass) (status : Status) (at : Option ℕ)
      → get id s.break_glass ≡ some b
      → is_terminal status ≡ true
      → Change rt s (on_store (set_break_glass id (ended_break_glass b status at)) s)
  leases_revoked :
      (s : Service) (grant_id break_glass_id : Option String) (reads : ℕ)
      → Change rt s (record s {
        store = record s.store {
          leases = (revoke_loop rt grant_id break_glass_id reads s.leases).0;
        };
      })
  lease_issued :
      (s : Service) (aggregate : Aggregate) (l : Lease)
      → l.lease_id ≡ str_append "jit_" (rt.uuid s.uuids)
      → IsIssuedUnder aggregate l
      → Change rt s (record s { store = set_lease l.lease_id l s.store; uuids = suc s.uuids })
  lease_spent :
      (s : Service) (id : String) (l : Lease) (at : ℕ)
      → get id s.leases ≡ some l
      → l.consumed_at ≡ none
      → l.revoked_at ≡ none
      → Change rt s (on_store (set_lease id (spent l at)) s)
  outbox_set :
      (s : Service) (os : List OutboxRecord)
      → Change rt s (record s { store = record s.store { outbox = os } })

-- What a run of methods can make of the service.
pub data Reach (rt : Runtime) (s : Service) : Service → Type 0 where
  here : Reach rt s s
  next : {t u : Service} → Reach rt s t → Change rt t u → Reach rt s u
