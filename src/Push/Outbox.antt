-- ===== src/Push/Outbox.antt =====
-- The methods of `InMemoryPushRepository` on the outbox.
use Prim.Native.Nat.{◌^◌}
use Prim.Native.String.{◌++◌ as str_append}
use perseverance.Prelude.{
  ℕ, zero, suc, ◌+◌, ◌*◌, min, String, Bool, not, ◌&&◌, Option, none, some, List, [], ◌∷◌, leb,
  str_eq, ◌++◌, is_some, if◌then◌else◌, find, filter,
}
use perseverance.Prelude.Map.{Map, get, set, values}
use perseverance.Prelude.Exec.{pure, gets, modify, or_throw, ◌>>=◌, ◌>>◌}
use perseverance.Push.Types.{
  WorkspaceScope, invalid, NotificationStatus, pending, delivering, delivered, retry, discarded,
  StoredSubscription, PushNotificationPayload, PushOutboxRecord, DeliveryOutcome, invalid_endpoint,
  PushDeliveryReceipt, PushNotificationResolution, SecretMaterial, Delivery, Repository,
  Environment, decryption_failed, secret_invalid, provider_failed, PushMethod, is_active,
  is_waiting, in_workspace, has_expired,
}
use perseverance.Push.Subscriptions.{set_row, read_clock}

-- The argument `input` of `enqueue`.
pub record Notification : Type 0 where
  pub notification_id : String
  pub session_id : String
  pub approval_id : Option String
  pub status : NotificationStatus

abbrev pub set_record : String → PushOutboxRecord → Repository → Repository
set_record id r s = record s { outbox = set id r s.outbox }

-- The test of `resolveNotification` on the records.
abbrev pub is_for : String → String → PushOutboxRecord → Bool
is_for principal_id notification_id r =
    str_eq r.notification_id notification_id && str_eq r.principal_id principal_id

-- The subscription, if it is there and may be notified.
abbrev pub live_subscription : ℕ → Option StoredSubscription → Option StoredSubscription
live_subscription now none = none
live_subscription now (some row) =
    if is_active row.status && not (has_expired row.expires_at now) then some row else none

abbrev pub resolution : String → PushOutboxRecord → PushNotificationResolution
resolution notification_id r = record {
  notification_id = notification_id;
  scope = r.scope;
  session_id = r.payload.session_id;
  approval_id = r.payload.approval_id;
  status = r.payload.status;
}

abbrev pub resolve_record :
    ℕ
    → String
    → Option PushOutboxRecord
    → Map StoredSubscription
    → Option PushNotificationResolution
resolve_record now notification_id none rows = none
resolve_record now notification_id (some r) rows =
    elim (live_subscription now (get r.subscription_id rows)) [
      | none ↦ none
      | some row ↦ some (resolution notification_id r)
    ]

-- `resolveNotification`.
unfoldable pub resolve_notification :
    String → String → ℕ → PushMethod (Option PushNotificationResolution)
resolve_notification principal_id notification_id now = gets (λ s.
    resolve_record now notification_id
      (find (is_for principal_id notification_id) (values s.outbox)) s.rows)

abbrev pub payload_of : Notification → PushNotificationPayload
payload_of input = record {
  notification_id = input.notification_id;
  session_id = input.session_id;
  approval_id = input.approval_id;
  status = input.status;
}

abbrev pub new_record :
    WorkspaceScope → Notification → StoredSubscription → String → ℕ → PushOutboxRecord
new_record scope input row outbox_id created_at = record {
  outbox_id = outbox_id;
  notification_id = input.notification_id;
  scope = scope;
  principal_id = row.scope.principal_id;
  device_id = row.device_id;
  subscription_id = row.subscription_id;
  payload = payload_of input;
  status = pending;
  attempt = 0;
  available_at = created_at;
  delivered_at = none;
  created_at = created_at;
}

-- The test of `drain` on the records.
abbrev pub is_candidate : ℕ → String × PushOutboxRecord → Bool
is_candidate now e = is_waiting (e.1).status && leb (e.1).available_at now

-- `Array.prototype.slice(0, limit)`.
abbrev pub take {ℓ} : {A : Type ℓ} → ℕ → List A → List A
take n [] = []
take zero (x ∷ xs) = []
take (suc n) (x ∷ xs) = x ∷ take n xs

-- `outbox.status = 'delivering'; outbox.attempt++`.
abbrev pub attempted : PushOutboxRecord → PushOutboxRecord
attempted r = record r { status = delivering; attempt = r.attempt + 1 }

-- The delay before the next attempt.
abbrev pub backoff : ℕ → ℕ
backoff attempt = min 300_000 (1_000 * 2 ^ attempt)

abbrev pub settled_record : DeliveryOutcome → ℕ → PushOutboxRecord → PushOutboxRecord
settled_record DeliveryOutcome.delivered now r = record r {
  status = delivered;
  delivered_at = some now;
}
settled_record invalid_endpoint now r = record r { status = discarded }
settled_record DeliveryOutcome.retry now r = record r {
  status = retry;
  available_at = now + backoff r.attempt;
}

-- `subscription.status = 'invalid'; subscription.rowVersion++`, at an endpoint that is invalid.
abbrev pub settle_row : DeliveryOutcome → String → StoredSubscription → Repository → Repository
settle_row invalid_endpoint id row s =
    set_row id (record row { status = invalid; row_version = row.row_version + 1 }) s
settle_row _ id row s = s

-- The receipts, of which the first under a key stays.
abbrev pub keep_receipt : PushDeliveryReceipt → Repository → Repository
keep_receipt r s =
    if is_some (get r.delivery_id s.receipts)
    then s
    else record s { receipts = set r.delivery_id r s.receipts }

module _ (env : Environment) where
  abbrev pub outbox_id_of : Notification → StoredSubscription → String
  outbox_id_of input row = env.sha256 (env.pair_json input.notification_id row.subscription_id)

  -- A turn of the loop of `enqueue`, for a row that passes its test.
  unfoldable pub enqueue_row : WorkspaceScope → Notification → StoredSubscription → PushMethod ℕ
  enqueue_row scope input row = do
    let id = outbox_id_of input row
    known ← gets (λ s. is_some (get id s.outbox))
    let add : PushMethod ℕ = do
      created_at ← read_clock env
      modify (set_record id (new_record scope input row id created_at))
      pure 1
    if known then pure 0 else add

  -- The loop of `enqueue`.
  unfoldable pub enqueue_rows :
      WorkspaceScope → Notification → List StoredSubscription → PushMethod ℕ
  enqueue_rows scope input [] = pure 0
  enqueue_rows scope input (row ∷ rows) =
      if is_active row.status && in_workspace scope row
      then (do
        added ← enqueue_row scope input row
        count ← enqueue_rows scope input rows
        pure (added + count))
      else enqueue_rows scope input rows

  -- `enqueue`.
  unfoldable pub enqueue : WorkspaceScope → Notification → PushMethod ℕ
  enqueue scope input = do rows ← gets (λ s. values s.rows); enqueue_rows scope input rows

  -- `provider.deliver(…)`.
  unfoldable pub call_provider : Delivery → PushMethod (DeliveryOutcome × Option String)
  call_provider d s =
      or_throw (env.deliver d s.deliveries) provider_failed
        (record s { deliveries = suc s.deliveries })

  abbrev pub delivery_of : SecretMaterial → PushOutboxRecord → Delivery
  delivery_of material r = record {
    endpoint = material.endpoint;
    keys = material.keys;
    payload = r.payload;
  }

  abbrev pub receipt_of :
      PushOutboxRecord → DeliveryOutcome × Option String → ℕ → PushDeliveryReceipt
  receipt_of r result now = record {
    delivery_id = env.sha256 (str_append r.outbox_id (str_append ":" (env.decimal r.attempt)));
    outbox_id = r.outbox_id;
    provider_message_id = result.1;
    outcome = result.0;
    attempt = r.attempt;
    occurred_at = now;
  }

  -- A turn of the loop of `drain` for a subscription that is active.
  unfoldable pub attempt_delivery :
      ℕ → String → PushOutboxRecord → StoredSubscription → PushMethod (List PushDeliveryReceipt)
  attempt_delivery now id found row = do
    let r = attempted found
    modify (set_record id r)
    text ← or_throw (env.decrypt row.scope row.subscription_id row.secret) decryption_failed
    material ← or_throw (env.parse_secret text) secret_invalid
    result ← call_provider (delivery_of material r)
    let receipt = receipt_of r result now
    modify (keep_receipt receipt)
    modify (set_record id (settled_record result.0 now r))
    modify (settle_row result.0 r.subscription_id row)
    pure (receipt ∷ [])

  abbrev pub active_row : Option StoredSubscription → Option StoredSubscription
  active_row none = none
  active_row (some row) = if is_active row.status then some row else none

  -- A turn of the loop of `drain`, with the record as it stands.
  unfoldable pub drain_found : ℕ → String → PushOutboxRecord → PushMethod (List PushDeliveryReceipt)
  drain_found now id found = do
    row ← gets (λ s. active_row (get found.subscription_id s.rows))
    elim row [
      | none ↦ modify (set_record id (record found { status = discarded })) >> pure []
      | some subscription ↦ attempt_delivery now id found subscription
    ]

  -- The candidates are the records of the outbox themselves, not copies: a turn reads the record
  -- under its key, as it is by then. No method removes one.
  unfoldable pub drain_one : ℕ → String × PushOutboxRecord → PushMethod (List PushDeliveryReceipt)
  drain_one now (id, _) = do
    found ← gets (λ s. get id s.outbox)
    elim found [ none ↦ pure [] | some r ↦ drain_found now id r ]

  -- The loop of `drain`.
  unfoldable pub drain_all :
      ℕ → List (String × PushOutboxRecord) → PushMethod (List PushDeliveryReceipt)
  drain_all now [] = pure []
  drain_all now (e ∷ es) = do
    receipts ← drain_one now e
    rest ← drain_all now es
    pure (receipts ++ rest)

  -- `drain`, run from its beginning to its end: between its awaits no other call runs.
  unfoldable pub drain : ℕ → ℕ → PushMethod (List PushDeliveryReceipt)
  drain now limit = do
    candidates ← gets (λ s. take limit (filter (is_candidate now) s.outbox))
    drain_all now candidates
