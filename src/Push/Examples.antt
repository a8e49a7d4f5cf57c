-- ===== src/Push/Examples.antt =====
-- The theorems on push notifications at a repository with one subscription and one notification, and
-- a provider that throws, save where another is named.
use perseverance.Prelude.{◌≡◌, refl, none, some, List, [], ◌∷◌}
use perseverance.Prelude.Map.{get, set}
use perseverance.Prelude.Exec.{ok, err, pure, modify, or_throw, ◌>>=◌}
use perseverance.Push.Types.{
  WorkspaceScope, SecretMaterial, active, approval_required, retry, PushDeliveryReceipt,
  DeliveryOutcome, OutboxStatus, StoredSubscription, PushOutboxRecord, Repository, Environment,
  provider_failed,
}
use perseverance.Push.Outbox.{
  Notification, attempted, new_record, call_provider, attempt_delivery, enqueue, drain, drain_one,
}
use perseverance.Push.Run.{Call, expires, enqueues, drains, run}
use perseverance.Push.Attempts.{IsAttempted, attempt_delivery-IsAttempted}
use perseverance.Push.Once.{enqueue_once}
use perseverance.Push.Repeated.{drain_one_repeats}
use perseverance.Push.Rejected.{rejected_delivery_lost}

abbrev material : SecretMaterial
material = record { endpoint = "https://push"; keys = record { p256dh = "p"; auth = "a" } }

abbrev env : Environment
env = record {
  uuid = λ _. "id";
  clock = λ _. 10;
  encrypt = λ _ _ text _. some text;
  decrypt = λ _ _ text. some text;
  deliver = λ _ _. none;
  sha256 = λ text. text;
  secret_json = λ _. "secret";
  parse_secret = λ _. some material;
  pair_json = λ a b. a;
  decimal = λ _. "1";
}

abbrev device : StoredSubscription
device = record {
  subscription_id = "sub";
  device_id = "device";
  scope = record { tenant_id = "t"; organization_id = "o"; workspace_id = "w"; principal_id = "p" };
  status = active;
  endpoint_fingerprint = "sha256:x";
  expires_at = none;
  created_at = 1;
  rotated_at = 1;
  revoked_at = none;
  row_version = 1;
  secret = "secret";
}

abbrev workspace : WorkspaceScope
workspace = record { tenant_id = "t"; organization_id = "o"; workspace_id = "w" }

abbrev notification : Notification
notification = record {
  notification_id = "note";
  session_id = "session";
  approval_id = none;
  status = approval_required;
}

abbrev waiting : PushOutboxRecord
waiting = new_record workspace notification device "note" 10

abbrev one_waiting : Repository
one_waiting = record {
  rows = ("sub", device) ∷ [];
  outbox = ("note", waiting) ∷ [];
  receipts = [];
  uuids = 0;
  reads = 0;
  encryptions = 0;
  deliveries = 0;
}

abbrev later : List Call
later = enqueues workspace notification ∷ drains 1_000 100 ∷ expires 2_000 ∷ []

abbrev none_waiting : Repository
none_waiting = record one_waiting { outbox = ("note", attempted waiting) ∷ [] }

rejected_delivery_lost_example :
    ((drain env 20 100 one_waiting).0 ≡ err provider_failed)
    × (get "note" (run env (drain env 20 100 one_waiting).1 later).outbox
        ≡ some (attempted waiting))
unfolding get set
rejected_delivery_lost_example =
    rejected_delivery_lost env 20 100 "note" "secret" waiting [] device material later one_waiting
      refl refl refl refl refl refl

-- The same, with a provider that asks to be called again.
abbrev busy : Environment
busy = record env { deliver = λ _ _. some (retry, none) }

abbrev receipt : PushDeliveryReceipt
receipt = record {
  delivery_id = "note:1";
  outbox_id = "note";
  provider_message_id = none;
  outcome = retry;
  attempt = 1;
  occurred_at = 20;
}

asks_again : (attempt_delivery busy 20 "note" waiting device one_waiting).0 ≡ ok (receipt ∷ [])
unfolding attempt_delivery call_provider ◌>>=◌ or_throw modify pure
asks_again = refl

attempt_delivery-IsAttempted_example :
    IsAttempted busy 20 "note" waiting device one_waiting
      (receipt ∷ [])
      (attempt_delivery busy 20 "note" waiting device one_waiting).1
attempt_delivery-IsAttempted_example =
    attempt_delivery-IsAttempted busy 20 "note" waiting device one_waiting (receipt ∷ []) asks_again

-- The same, with a provider that delivers, and the record delivered already.
abbrev willing : Environment
willing = record env { deliver = λ _ _. some (DeliveryOutcome.delivered, none) }

abbrev delivered_once : PushOutboxRecord
delivered_once = record waiting {
  status = OutboxStatus.delivered;
  attempt = 1;
  delivered_at = some 20;
}

abbrev one_delivered : Repository
one_delivered = record one_waiting { outbox = ("note", delivered_once) ∷ []; deliveries = 1 }

drain_one_repeats_example :
    let after = drain_one willing 20 ("note", waiting) one_delivered in
    ((receipt : PushDeliveryReceipt) × (after.0 ≡ ok (receipt ∷ []))
      × (receipt.outbox_id ≡ "note")
      × (receipt.outcome ≡ DeliveryOutcome.delivered)
      × (receipt.provider_message_id ≡ none)
      × (receipt.attempt ≡ 2))
    × (after.1.deliveries ≡ 2)
    × (get "note" after.1.outbox ≡ some (record delivered_once { attempt = 2 }))
unfolding get
drain_one_repeats_example =
    drain_one_repeats willing 20 "note" "secret" waiting delivered_once device material none
      one_delivered refl refl refl refl refl

abbrev none_queued : Repository
none_queued = record one_waiting { outbox = [] }

enqueue_once_example :
    enqueue env workspace notification (enqueue env workspace notification none_queued).1
    ≡ (ok 0, (enqueue env workspace notification none_queued).1)
enqueue_once_example = enqueue_once env workspace notification none_queued
