-- ===== src/Push/Subscriptions.antt =====
-- The methods of `InMemoryPushRepository` on subscriptions.
use Prim.Native.String.{◌++◌ as str_append}
use perseverance.Prelude.{
  ℕ, suc, ◌+◌, String, Bool, ◌&&◌, Option, none, some, List, [], ◌∷◌, ◌==◌, str_eq, if◌then◌else◌,
  find, filter, length, map,
}
use perseverance.Prelude.Map.{get, set, map_values, values}
use perseverance.Prelude.Exec.{ok, pure, gets, modify, require, or_throw, ◌>>=◌, ◌>>◌}
use perseverance.Push.Types.{
  PushScope, active, expired, revoked, PushSubscriptionRequest, StoredSubscription,
  PushSubscription, Repository, Environment, subscription_not_found, subscription_version_conflict,
  encryption_failed, PushMethod, is_active, in_scope, public_subscription, has_expired,
}

abbrev pub set_row : String → StoredSubscription → Repository → Repository
set_row id row s = record s { rows = set id row s.rows }

-- The test of `upsert`, that of the scope and the device.
abbrev pub is_of_device : PushScope → String → StoredSubscription → Bool
is_of_device scope device_id row = in_scope scope row && str_eq row.device_id device_id

abbrev pub id_of : Option StoredSubscription → Option String
id_of none = none
id_of (some row) = some row.subscription_id

abbrev pub created_of : Option StoredSubscription → ℕ → ℕ
created_of none now = now
created_of (some row) now = row.created_at

abbrev pub version_of : Option StoredSubscription → ℕ
version_of none = 0
version_of (some row) = row.row_version

-- `row.status = 'revoked'; row.revokedAt = …; row.rowVersion++`.
abbrev pub revoked_row : ℕ → StoredSubscription → StoredSubscription
revoked_row now row = record row {
  status = revoked;
  revoked_at = some now;
  row_version = row.row_version + 1;
}

abbrev pub is_due : ℕ → StoredSubscription → Bool
is_due now row = is_active row.status && has_expired row.expires_at now

-- The row after a turn of the loop of `expire`.
abbrev pub expired_row : ℕ → StoredSubscription → StoredSubscription
expired_row now row =
    if is_due now row
    then record row { status = expired; row_version = row.row_version + 1 }
    else row

-- The row, if it is there and in the scope.
abbrev pub row_in_scope : PushScope → Option StoredSubscription → Option StoredSubscription
row_in_scope scope none = none
row_in_scope scope (some row) = if in_scope scope row then some row else none

abbrev pub is_revocable : PushScope → String → StoredSubscription → Bool
is_revocable scope device_id row =
    str_eq row.device_id device_id && is_active row.status && in_scope scope row

-- `list`.
unfoldable pub list_subscriptions : PushScope → PushMethod (List PushSubscription)
list_subscriptions scope =
    gets (λ s. map public_subscription (filter (in_scope scope) (values s.rows)))

-- `expire`.
unfoldable pub expire : ℕ → PushMethod ℕ
expire now = do
  count ← gets (λ s. length (filter (is_due now) (values s.rows)))
  modify (λ s. record s { rows = map_values (expired_row now) s.rows })
  pure count

module _ (env : Environment) where
  -- `new Date()`.
  unfoldable pub read_clock : PushMethod ℕ
  read_clock s = (ok (env.clock s.reads), record s { reads = suc s.reads })

  unfoldable pub random_uuid : PushMethod String
  random_uuid s = (ok (env.uuid s.uuids), record s { uuids = suc s.uuids })

  -- `this.encryption.encrypt(…)`, which may throw.
  unfoldable pub encrypt : PushScope → String → String → PushMethod String
  encrypt scope id text s =
      or_throw (env.encrypt scope id text s.encryptions) encryption_failed
        (record s { encryptions = suc s.encryptions })

  -- `fingerprint`.
  abbrev pub fingerprint : String → String
  fingerprint endpoint = str_append "sha256:" (env.sha256 endpoint)

  abbrev pub new_row :
      PushScope
      → PushSubscriptionRequest
      → Option StoredSubscription
      → String
      → ℕ
      → String
      → StoredSubscription
  new_row scope request existing subscription_id now secret = record {
    subscription_id = subscription_id;
    device_id = request.device_id;
    scope = scope;
    status = active;
    endpoint_fingerprint = fingerprint request.endpoint;
    expires_at = request.expires_at;
    created_at = created_of existing now;
    rotated_at = now;
    revoked_at = none;
    row_version = version_of existing + 1;
    secret = secret;
  }

  -- `existing?.subscriptionId ?? randomUUID()`.
  unfoldable pub subscription_id : Option StoredSubscription → PushMethod String
  subscription_id none = random_uuid
  subscription_id (some row) = pure row.subscription_id

  -- `upsert`.
  unfoldable pub upsert : PushScope → PushSubscriptionRequest → PushMethod PushSubscription
  upsert scope request = do
    existing ← gets (λ s. find (is_of_device scope request.device_id) (values s.rows))
    id ← subscription_id existing
    now ← read_clock
    secret ←
        encrypt scope id
          (env.secret_json (record { endpoint = request.endpoint; keys = request.keys }))
    let row = new_row scope request existing id now secret
    modify (set_row id row)
    pure (public_subscription row)

  -- `revoke`.
  unfoldable pub revoke : PushScope → String → ℕ → PushMethod PushSubscription
  revoke scope id expected_version = do
    found ← gets (λ s. get id s.rows)
    row ← or_throw (row_in_scope scope found) subscription_not_found
    require (row.row_version == expected_version) subscription_version_conflict
    now ← read_clock
    modify (set_row id (revoked_row now row))
    pure (public_subscription (revoked_row now row))

  -- The loop of `revokeDevice` over the rows; the clock is read for each row that is revoked.
  unfoldable pub revoke_rows :
      PushScope → String → List (String × StoredSubscription) → PushMethod ℕ
  revoke_rows scope device_id [] = pure 0
  revoke_rows scope device_id ((id, row) ∷ rows) =
      if is_revocable scope device_id row
      then (do
        now ← read_clock
        modify (set_row id (revoked_row now row))
        count ← revoke_rows scope device_id rows
        pure (suc count))
      else revoke_rows scope device_id rows

  -- `revokeDevice`.
  unfoldable pub revoke_device : PushScope → String → PushMethod ℕ
  revoke_device scope device_id = do rows ← gets (λ s. s.rows); revoke_rows scope device_id rows
