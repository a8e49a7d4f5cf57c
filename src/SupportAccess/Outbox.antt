-- ===== src/SupportAccess/Outbox.antt =====
-- The methods of `SupportAccessService` on the outbox, the lists, and the check of the audit chain.
use perseverance.Prelude.{
  ℕ, ◌+◌, String, Bool, true, ◌&&◌, ◌||◌, Option, none, some, List, [], ◌∷◌, str_eq, opt_eq,
  if◌then◌else◌, filter, find, update_first,
}
use perseverance.Prelude.Text.{truthy}
use perseverance.Prelude.Map.{values}
use perseverance.Prelude.Exec.{pure, gets, or_throw, modify, ◌>>=◌, ◌>>◌}
use perseverance.SupportAccess.Types.{
  Grant, Audit, OutboxRecord, pending, delivered, Store, Runtime, outbox_not_found, Method,
  is_delivered,
}
use perseverance.SupportAccess.Store.{on_store, read_clock}
use perseverance.SupportAccess.Leases.{expire}

pub record Scope : Type 0 where
  pub organization_id : String
  pub workspace_id : String

abbrev pub has_outbox_id : String → OutboxRecord → Bool
has_outbox_id id o = str_eq o.outbox_id id

-- The record of the `find` is an alias of the stored one: a change shows in the store.
abbrev pub change_outbox : String → (OutboxRecord → OutboxRecord) → Store → Store
change_outbox id f t = record t { outbox = update_first (has_outbox_id id) f t.outbox }

-- `idempotencyKey && record.lastResultIdempotencyKey === idempotencyKey`.
abbrev pub is_repeat : Option String → OutboxRecord → Bool
is_repeat key o = truthy key && opt_eq o.last_result_idempotency_key key

abbrev pub mark_delivered : Option String → ℕ → OutboxRecord → OutboxRecord
mark_delivered key now o = record o {
  attempts = o.attempts + 1;
  status = delivered;
  delivered_at = some now;
  last_result_idempotency_key = key;
}

abbrev pub mark_failed : Option String → ℕ → OutboxRecord → OutboxRecord
mark_failed key retry_at o = record o {
  attempts = o.attempts + 1;
  status = pending;
  available_at = retry_at;
  delivered_at = none;
  last_result_idempotency_key = key;
}

-- `failOutbox`.
unfoldable pub fail_outbox : String → ℕ → Option String → Method OutboxRecord
fail_outbox id retry_at key = do
  outbox ← gets (λ s. s.outbox)
  o ← or_throw (find (has_outbox_id id) outbox) outbox_not_found
  let fail : Method OutboxRecord = do
    modify (on_store (change_outbox id (mark_failed key retry_at)))
    pure (mark_failed key retry_at o)
  if is_repeat key o then pure o else fail

-- The loop of `verifyAuditChain`, with the hash of the record before.
unfoldable pub chain_from : Runtime → String → List Audit → Bool
chain_from rt previous [] = true
chain_from rt previous (r ∷ rs) =
    str_eq r.previous_hash previous
    && str_eq (rt.sha256 (rt.audit_json r.body)) r.record_hash
    && chain_from rt r.record_hash rs

-- `verifyAuditChain`.
unfoldable pub verify_audit_chain : Runtime → List Audit → Bool
unfolding chain_from
verify_audit_chain rt log = chain_from rt "GENESIS" log

abbrev pub grant_in_scope : Scope → Grant → Bool
grant_in_scope scope g =
    str_eq g.organization_id scope.organization_id && str_eq g.workspace_id scope.workspace_id

-- `listAudit`.
unfoldable pub list_audit : Scope → Method (List Audit)
list_audit scope = gets λ s.
    filter
      (λ r.
        str_eq r.organization_id scope.organization_id && str_eq r.workspace_id scope.workspace_id)
      s.audit

-- `listOutbox`.
unfoldable pub list_outbox : Scope → Method (List OutboxRecord)
list_outbox scope = gets λ s.
    filter
      (λ o.
        str_eq o.organization_id scope.organization_id && str_eq o.workspace_id scope.workspace_id)
      s.outbox

module _ (rt : Runtime) where
  -- `deliverOutbox`.
  unfoldable pub deliver_outbox : String → Option String → Method OutboxRecord
  deliver_outbox id key = do
    outbox ← gets (λ s. s.outbox)
    o ← or_throw (find (has_outbox_id id) outbox) outbox_not_found
    let deliver : Method OutboxRecord = do
      now ← read_clock rt
      modify (on_store (change_outbox id (mark_delivered key now)))
      pure (mark_delivered key now o)
    if is_delivered o.status || is_repeat key o then pure o else deliver

  -- `listGrants`.
  unfoldable pub list_grants : Scope → Method (List Grant)
  list_grants scope = do expire rt; gets (λ s. filter (grant_in_scope scope) (values s.grants))
