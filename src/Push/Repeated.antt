-- ===== src/Push/Repeated.antt =====
-- What a turn of `drain` of packages/push-notifications/src/index.ts does to a candidate that is no
-- longer what it was when the candidates were taken.
use perseverance.Prelude.{
  ℕ, suc, ◌+◌, String, ◌≡◌, refl, some, Option, [], ◌∷◌, is_some, Bool, true, false, if◌then◌else◌,
}
use perseverance.Prelude.Map.{get, set, get-set_self}
use perseverance.Prelude.Exec.{ok, or_throw, ◌>>=◌}
use perseverance.Push.Types.{
  StoredSubscription, PushOutboxRecord, OutboxStatus, DeliveryOutcome, SecretMaterial, Repository,
  Environment, PushDeliveryReceipt,
}
use perseverance.Push.Outbox.{
  attempted, receipt_of, keep_receipt, active_row, call_provider, attempt_delivery, drain_found,
  drain_one,
}

module _ (env : Environment) where
  keep_receipt-deliveries :
      (r : PushDeliveryReceipt) (s : Repository) → (keep_receipt r s).deliveries ≡ s.deliveries
  keep_receipt-deliveries r s = kept (is_some (get r.delivery_id s.receipts))
    where
      kept :
          (b : Bool)
          → (if b then s else record s { receipts = set r.delivery_id r s.receipts }).deliveries
            ≡ s.deliveries
      kept true = refl
      kept false = refl

  -- A turn of `drain` does not look at the status that its candidate has by then. Whatever it is,
  -- delivered included, where the record names an active subscription whose secret can be read and the
  -- provider answers that it has delivered, the turn returns one receipt, of that answer and one attempt
  -- more than the record had, the provider has been called once more, and the record is stored as
  -- delivered at the time of the turn, with that attempt.
  pub drain_one_repeats :
      (now : ℕ) (id text : String) (taken r : PushOutboxRecord) (row : StoredSubscription)
      (material : SecretMaterial) (message : Option String) (s : Repository)
      → get id s.outbox ≡ some r
      → active_row env (get r.subscription_id s.rows) ≡ some row
      → env.decrypt row.scope row.subscription_id row.secret ≡ some text
      → env.parse_secret text ≡ some material
      → env.deliver
          (record { endpoint = material.endpoint; keys = material.keys; payload = r.payload })
          s.deliveries
        ≡ some (DeliveryOutcome.delivered, message)
      → let after = drain_one env now (id, taken) s in
        ((receipt : PushDeliveryReceipt) × (after.0 ≡ ok (receipt ∷ []))
          × (receipt.outbox_id ≡ r.outbox_id)
          × (receipt.outcome ≡ DeliveryOutcome.delivered)
          × (receipt.provider_message_id ≡ message)
          × (receipt.attempt ≡ r.attempt + 1))
        × (after.1.deliveries ≡ suc s.deliveries)
        × (get id after.1.outbox
            ≡ some (record r {
              status = OutboxStatus.delivered;
              attempt = r.attempt + 1;
              delivered_at = some now;
            }))
  unfolding drain_one drain_found attempt_delivery call_provider ◌>>=◌ or_throw
  drain_one_repeats now id text taken r row material message s stored live d p answer = rw stored (
      rw live (
        rw d (
          rw p (
            rw answer (
              (
                receipt_of env (attempted r) (DeliveryOutcome.delivered, message) now,
                refl,
                refl,
                refl,
                refl,
                refl,
              ),
              keep_receipt-deliveries _ _,
              get-set_self id _ _,
            )))))
