-- ===== src/Push/Types.antt =====
-- The data of packages/push-notifications/src/index.ts and of the push schemas of
-- packages/control-plane-contracts/src/index.ts. A time is the number of its milliseconds, and
-- `version`, always 1, is left out.
use perseverance.Prelude.{ℕ, String, Bool, true, false, ◌&&◌, Option, none, some, leb, str_eq}
use perseverance.Prelude.Map.{Map}
use perseverance.Prelude.Exec.{Exec}

pub record PushScope : Type 0 where
  pub tenant_id : String
  pub organization_id : String
  pub workspace_id : String
  pub principal_id : String

-- `Omit<PushScope, 'principalId'>`.
pub record WorkspaceScope : Type 0 where
  pub tenant_id : String
  pub organization_id : String
  pub workspace_id : String

pub record PushKeys : Type 0 where
  pub p256dh : String
  pub auth : String

pub record SecretMaterial : Type 0 where
  pub endpoint : String
  pub keys : PushKeys

pub data SubscriptionStatus : Type 0 where
  active expired revoked invalid : SubscriptionStatus

pub data NotificationStatus : Type 0 where
  approval_required approval_resolved turn_completed turn_failed : NotificationStatus

pub record PushSubscriptionRequest : Type 0 where
  pub device_id : String
  pub endpoint : String
  pub keys : PushKeys
  pub expires_at : Option ℕ

-- `StoredSubscription`; the envelope of the secret is a text.
pub record StoredSubscription : Type 0 where
  pub subscription_id : String
  pub device_id : String
  pub scope : PushScope
  pub status : SubscriptionStatus
  pub endpoint_fingerprint : String
  pub expires_at : Option ℕ
  pub created_at : ℕ
  pub rotated_at : ℕ
  pub revoked_at : Option ℕ
  pub row_version : ℕ
  pub secret : String

pub record PushSubscription : Type 0 where
  pub subscription_id : String
  pub device_id : String
  pub scope : PushScope
  pub status : SubscriptionStatus
  pub revision : ℕ
  pub endpoint_fingerprint : String
  pub expires_at : Option ℕ
  pub created_at : ℕ
  pub rotated_at : ℕ
  pub revoked_at : Option ℕ

pub record PushNotificationPayload : Type 0 where
  pub notification_id : String
  pub session_id : String
  pub approval_id : Option String
  pub status : NotificationStatus

pub data OutboxStatus : Type 0 where
  pending delivering delivered retry discarded : OutboxStatus

pub record PushOutboxRecord : Type 0 where
  pub outbox_id : String
  pub notification_id : String
  pub scope : WorkspaceScope
  pub principal_id : String
  pub device_id : String
  pub subscription_id : String
  pub payload : PushNotificationPayload
  pub status : OutboxStatus
  pub attempt : ℕ
  pub available_at : ℕ
  pub delivered_at : Option ℕ
  pub created_at : ℕ

pub data DeliveryOutcome : Type 0 where
  delivered retry invalid_endpoint : DeliveryOutcome

pub record PushDeliveryReceipt : Type 0 where
  pub delivery_id : String
  pub outbox_id : String
  pub provider_message_id : Option String
  pub outcome : DeliveryOutcome
  pub attempt : ℕ
  pub occurred_at : ℕ

pub record PushNotificationResolution : Type 0 where
  pub notification_id : String
  pub scope : WorkspaceScope
  pub session_id : String
  pub approval_id : Option String
  pub status : NotificationStatus

-- `PushProviderDelivery`.
pub record Delivery : Type 0 where
  pub endpoint : String
  pub keys : PushKeys
  pub payload : PushNotificationPayload

-- The fields of `InMemoryPushRepository`, and how often the generator of identifiers, the clock, the
-- encryption and the provider have been called.
pub record Repository : Type 0 where
  pub rows : Map StoredSubscription
  pub outbox : Map PushOutboxRecord
  pub receipts : Map PushDeliveryReceipt
  pub uuids : ℕ
  pub reads : ℕ
  pub encryptions : ℕ
  pub deliveries : ℕ

-- What the methods take from outside: the generator, the clock, the encryption and the provider give
-- their n-th value, none where they throw; `sha256` is the hexadecimal digest, `secret_json` and
-- `parse_secret` write and read a secret as JSON, `pair_json` is `JSON.stringify` of two texts, and
-- `decimal` prints a number.
pub record Environment : Type 0 where
  pub uuid : ℕ → String
  pub clock : ℕ → ℕ
  pub encrypt : PushScope → String → String → ℕ → Option String
  pub decrypt : PushScope → String → String → Option String
  pub deliver : Delivery → ℕ → Option (DeliveryOutcome × Option String)
  pub sha256 : String → String
  pub secret_json : SecretMaterial → String
  pub parse_secret : String → Option SecretMaterial
  pub pair_json : String → String → String
  pub decimal : ℕ → String

-- The codes of `PushRepositoryError`, and what the encryption, JSON and the provider throw.
pub data PushError : Type 0 where
  subscription_not_found subscription_version_conflict : PushError
  encryption_failed decryption_failed secret_invalid provider_failed : PushError

abbrev pub PushMethod : Type 0 → Type 0
PushMethod A = Exec PushError Repository A

abbrev pub is_active : SubscriptionStatus → Bool
is_active active = true
is_active _ = false

-- `['pending', 'retry'].includes(row.status)`.
abbrev pub is_waiting : OutboxStatus → Bool
is_waiting OutboxStatus.pending = true
is_waiting OutboxStatus.retry = true
is_waiting _ = false

-- `Object.entries(scope).every(([key, value]) => row[key] === value)`.
abbrev pub in_scope : PushScope → StoredSubscription → Bool
in_scope scope row =
    str_eq row.scope.tenant_id scope.tenant_id
    && str_eq row.scope.organization_id scope.organization_id
    && str_eq row.scope.workspace_id scope.workspace_id
    && str_eq row.scope.principal_id scope.principal_id

-- The same, on the three entries of a `WorkspaceScope`.
abbrev pub in_workspace : WorkspaceScope → StoredSubscription → Bool
in_workspace scope row =
    str_eq row.scope.tenant_id scope.tenant_id
    && str_eq row.scope.organization_id scope.organization_id
    && str_eq row.scope.workspace_id scope.workspace_id

-- `publicSubscription`.
abbrev pub public_subscription : StoredSubscription → PushSubscription
public_subscription row = record {
  subscription_id = row.subscription_id;
  device_id = row.device_id;
  scope = row.scope;
  status = row.status;
  revision = row.row_version;
  endpoint_fingerprint = row.endpoint_fingerprint;
  expires_at = row.expires_at;
  created_at = row.created_at;
  rotated_at = row.rotated_at;
  revoked_at = row.revoked_at;
}

-- `expiresAt && Date.parse(expiresAt) <= now.getTime()`.
abbrev pub has_expired : Option ℕ → ℕ → Bool
has_expired none now = false
has_expired (some t) now = leb t now
