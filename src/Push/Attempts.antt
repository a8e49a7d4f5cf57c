-- ===== src/Push/Attempts.antt =====
-- What an attempt of a delivery leaves when it returns, and when the next one is due.
use Prim.Native.Nat.pow
use Prim.Native.Nat.{◌^◌}
use perseverance.Prelude.{
  ℕ, zero, suc, ◌+◌, ◌*◌, ◌≤◌, min, String, ◌≡◌, refl, sym, ap, ◌∙◌, subst, Bool, true, false,
  Option, some, List, [], ◌∷◌, arith, is_some, if◌then◌else◌,
}
use perseverance.Prelude.Map.{get, set, get-set_self}
use perseverance.Prelude.Exec.{Result, ok, pure, modify_returns, or_throw_returns, ◌>>=◌}
use perseverance.Push.Types.{
  StoredSubscription, PushOutboxRecord, OutboxStatus, discarded, invalid, DeliveryOutcome,
  invalid_endpoint, Delivery, SecretMaterial, PushDeliveryReceipt, PushError, PushMethod,
  Repository, Environment, provider_failed,
}
use perseverance.Push.Outbox.{
  attempted, backoff, settled_record, receipt_of, set_record, settle_row, keep_receipt,
  call_provider, attempt_delivery,
}

pow_pos : (n : ℕ) → 1 ≤ 2 ^ n
pow_pos zero = omega (arith, pow.zero 2)
pow_pos (suc n) = omega (arith, pow.suc 2 n, pow_pos n)

capped :
    (x : ℕ)
    → 1 ≤ x
    → (2_000 ≤ min 300_000 (1_000 * (x * 2))) × (min 300_000 (1_000 * (x * 2)) ≤ 300_000)
capped x h = ground (arith, h)

-- The delay after an attempt that is counted, from two seconds to five minutes.
backoff_bounds : (n : ℕ) → (2_000 ≤ backoff (suc n)) × (backoff (suc n) ≤ 300_000)
backoff_bounds n =
    subst (λ p. (2_000 ≤ min 300_000 (1_000 * p)) × (min 300_000 (1_000 * p) ≤ 300_000))
      (sym (pow.suc 2 n)) (capped (2 ^ n) (pow_pos n))

shifted :
    (now d : ℕ) → (2_000 ≤ d) × (d ≤ 300_000) → (now + 2_000 ≤ now + d) × (now + d ≤ now + 300_000)
shifted now d (low, high) = (omega (arith, low), omega (arith, high))

-- What an attempt with this outcome leaves of the record, in `after`, and of the subscription.
pub record IsOutcome (outcome : DeliveryOutcome) (now : ℕ) (found : PushOutboxRecord)
    (row : StoredSubscription) (s : Repository) (after : PushOutboxRecord) (t : Repository)
    : Type 0 where
  pub on_delivered :
      outcome ≡ DeliveryOutcome.delivered
      → (after.status ≡ OutboxStatus.delivered)
        × (after.delivered_at ≡ some now)
        × (t.rows ≡ s.rows)
  pub on_invalid :
      outcome ≡ invalid_endpoint
      → (after.status ≡ discarded)
        × (get found.subscription_id t.rows
            ≡ some (record row { status = invalid; row_version = row.row_version + 1 }))
  pub on_retry :
      outcome ≡ DeliveryOutcome.retry
      → (after.status ≡ OutboxStatus.retry)
        × (now + 2_000 ≤ after.available_at)
        × (after.available_at ≤ now + 300_000)
        × (t.rows ≡ s.rows)

settle_row-outbox :
    (outcome : DeliveryOutcome) (id : String) (row : StoredSubscription) (s : Repository)
    → (settle_row outcome id row s).outbox ≡ s.outbox
settle_row-outbox DeliveryOutcome.delivered id row s = refl
settle_row-outbox DeliveryOutcome.retry id row s = refl
settle_row-outbox invalid_endpoint id row s = refl

keep_receipt-rows : (r : PushDeliveryReceipt) (s : Repository) → (keep_receipt r s).rows ≡ s.rows
keep_receipt-rows r s = kept (is_some (get r.delivery_id s.receipts))
  where
    kept :
        (b : Bool)
        → (if b then s else record s { receipts = set r.delivery_id r s.receipts }).rows ≡ s.rows
    kept true = refl
    kept false = refl

settled-IsOutcome :
    (outcome : DeliveryOutcome) (now : ℕ) (id : String) (found : PushOutboxRecord)
    (row : StoredSubscription) (s u : Repository)
    → u.rows ≡ s.rows
    → let after = settled_record outcome now (attempted found) in
      IsOutcome outcome now found row s after
        (settle_row outcome found.subscription_id row (set_record id after u))
settled-IsOutcome DeliveryOutcome.delivered now id found row s u e = record {
  on_delivered = λ _. (refl, refl, e);
  on_invalid = λ h. cc;
  on_retry = λ h. cc;
}
settled-IsOutcome invalid_endpoint now id found row s u e = record {
  on_delivered = λ h. cc;
  on_invalid = λ _. (refl, get-set_self found.subscription_id _ u.rows);
  on_retry = λ h. cc;
}
settled-IsOutcome DeliveryOutcome.retry now id found row s u e =
    let (low, high) = shifted now (backoff (attempted found).attempt) (
      subst (λ n. (2_000 ≤ backoff n) × (backoff n ≤ 300_000)) (omega arith)
        (backoff_bounds found.attempt)) in
    record { on_delivered = λ h. cc; on_invalid = λ h. cc; on_retry = λ _. (refl, low, high, e) }

counted_again :
    (outcome : DeliveryOutcome) (now : ℕ) (found : PushOutboxRecord)
    → (settled_record outcome now (attempted found)).attempt ≡ found.attempt + 1
counted_again DeliveryOutcome.delivered now found = refl
counted_again DeliveryOutcome.retry now found = refl
counted_again invalid_endpoint now found = refl

abbrev Receipts : Type 0
Receipts = Result PushError (List PushDeliveryReceipt)

abbrev returned : List PushDeliveryReceipt → Receipts
returned r = ok r

of_ok : {a b : List PushDeliveryReceipt} → returned a ≡ returned b → a ≡ b
of_ok h = cc

module _ (env : Environment) where
  -- What the provider has answered, and how the record and the subscription stand after it.
  pub record IsAttempted (now : ℕ) (id : String) (found : PushOutboxRecord)
      (row : StoredSubscription) (s : Repository) (receipts : List PushDeliveryReceipt)
      (t : Repository) : Type 0 where
    pub text : String
    pub decrypted : env.decrypt row.scope row.subscription_id row.secret ≡ some text
    pub material : SecretMaterial
    pub parsed : env.parse_secret text ≡ some material
    pub receipt : PushDeliveryReceipt
    pub answered :
        env.deliver
          (record { endpoint = material.endpoint; keys = material.keys; payload = found.payload })
          s.deliveries
        ≡ some (receipt.outcome, receipt.provider_message_id)
    pub one : receipts ≡ receipt ∷ []
    pub of_record : receipt.outbox_id ≡ found.outbox_id
    pub counted : receipt.attempt ≡ found.attempt + 1
    pub dated : receipt.occurred_at ≡ now
    pub after : PushOutboxRecord
    pub is_stored : get id t.outbox ≡ some after
    pub counted_on : after.attempt ≡ found.attempt + 1
    pub settled : IsOutcome receipt.outcome now found row s after t

  call_provider_returns :
      {A : Type 0} (d : Delivery) (k : DeliveryOutcome × Option String → PushMethod A)
      (s : Repository) {b : A} {t : Repository}
      → (call_provider env d >>= k) s ≡ (ok b, t)
      → (result : DeliveryOutcome × Option String) × (env.deliver d s.deliveries ≡ some result)
        × (k result (record s { deliveries = suc s.deliveries }) ≡ (ok b, t))
  unfolding call_provider ◌>>=◌
  call_provider_returns d k s h =
      or_throw_returns (env.deliver d s.deliveries) provider_failed k _ h

  attempt_returns :
      (now : ℕ) (id : String) (found : PushOutboxRecord) (row : StoredSubscription) (s : Repository)
      (receipts : List PushDeliveryReceipt) (t : Repository)
      → attempt_delivery env now id found row s ≡ (ok receipts, t)
      → IsAttempted now id found row s receipts t
  unfolding attempt_delivery pure
  attempt_returns now id found row s receipts t h =
      let h₁ = modify_returns _ _ _ h in
      let (text, decrypted, h₂) = or_throw_returns _ _ _ _ h₁ in
      let (material, parsed, h₃) = or_throw_returns _ _ _ _ h₂ in
      let (result, answered, h₄) = call_provider_returns _ _ _ h₃ in
      let h₅ = modify_returns _ _ _ (modify_returns _ _ _ (modify_returns _ _ _ h₄)) in
      let r = receipt_of env (attempted found) result now in
      let called = record (set_record id (attempted found) s) { deliveries = suc s.deliveries } in
      let u = keep_receipt r called in
      let after = settled_record result.0 now (attempted found) in
      let left = settle_row result.0 found.subscription_id row (set_record id after u) in
      let same : left ≡ t = ap (λ p. p.1) h₅ in
      record {
        text = text;
        decrypted = decrypted;
        material = material;
        parsed = parsed;
        receipt = r;
        answered = answered;
        one = sym (of_ok (ap (λ p. p.0) h₅));
        of_record = refl;
        counted = refl;
        dated = refl;
        after = after;
        is_stored =
            ap (λ v. get id v.outbox) (sym same)
            ∙ ap (get id)
                (settle_row-outbox result.0 found.subscription_id row (set_record id after u))
            ∙ get-set_self id after u.outbox;
        counted_on = counted_again result.0 now found;
        settled =
            subst (IsOutcome result.0 now found row s after) same
              (settled-IsOutcome result.0 now id found row s u (keep_receipt-rows r called));
      }

  -- An attempt that returns has decrypted and read the secret of the subscription and has called the
  -- provider for the payload of the record; it gives one receipt, of that record and of the time of the
  -- call, with the outcome and the message identifier of the provider's answer and the attempt counted.
  -- The record is stored with the attempt counted. If the answer is delivered, it has that status and
  -- the time of the call; if it is an invalid endpoint, it is discarded and the subscription is stored
  -- as invalid, one version further; if it is retry, it has that status and is due two seconds to five
  -- minutes after the call. In the first and the last case the subscriptions are as they were.
  pub attempt_delivery-IsAttempted :
      (now : ℕ) (id : String) (found : PushOutboxRecord) (row : StoredSubscription) (s : Repository)
      (receipts : List PushDeliveryReceipt)
      → (attempt_delivery env now id found row s).0 ≡ ok receipts
      → IsAttempted now id found row s receipts (attempt_delivery env now id found row s).1
  attempt_delivery-IsAttempted now id found row s receipts e =
      attempt_returns now id found row s receipts (attempt_delivery env now id found row s).1
        (ap (λ (r : Receipts). (r, (attempt_delivery env now id found row s).1)) e)
