-- ===== src/Push/Waiting.antt =====
-- The records of the outbox that do not wait for a delivery, under the methods on subscriptions.
pub mod Deliveries
use perseverance.Prelude.{
  ℕ, zero, suc, ◌+◌, String, ◌≡◌, refl, sym, ap, ◌∙◌, subst, Bool, true, false, not, ◌&&◌, ◌||◌,
  Option, none, some, List, [], ◌∷◌, inl, inr, arith, eq_iff, str_eq, is_some, if◌then◌else◌,
  filter, any, Bool-cases,
}
use perseverance.Prelude.Map.{Map, get, set, get-set_other, values}
use perseverance.Prelude.Exec.{Result, ok, err, pure, gets, modify, or_throw, require, ◌>>=◌, ◌>>◌}
use perseverance.Prelude.Exec.Triple.{
  Triple, bind-Triple, gets-Triple, modify-Triple, pure-Triple, if-Triple, cases-Triple,
  elim-Triple, fact-Triple, skip_gets, skip_require, skip_or_throw, same_outcome,
}
use perseverance.Push.Types.{
  PushScope, WorkspaceScope, PushSubscriptionRequest, StoredSubscription, PushOutboxRecord,
  DeliveryOutcome, invalid_endpoint, delivered, retry, Delivery, provider_failed, encryption_failed,
  PushDeliveryReceipt, Repository, Environment, PushMethod, is_active, is_waiting, in_workspace,
}
use perseverance.Push.Subscriptions.{
  read_clock, random_uuid, encrypt, subscription_id, expire, upsert, revoke, is_revocable,
  revoke_rows, revoke_device,
}
use perseverance.Push.Outbox.{
  Notification, outbox_id_of, new_record, is_candidate, take, set_record, keep_receipt, settle_row,
  enqueue_row, enqueue_rows, enqueue, call_provider, attempt_delivery, drain_one, drain_all, drain,
}

abbrev pub is_waiting_at : String → String × PushOutboxRecord → Bool
is_waiting_at k e = str_eq e.0 k && is_waiting (e.1).status

-- The record is stored under the key, and what is under the key does not wait.
abbrev pub IsSettled : String → PushOutboxRecord → Repository → Type 0
IsSettled k r s = (get k s.outbox ≡ some r) × (any (is_waiting_at k) s.outbox ≡ false)

waiting-set_other :
    (i k : String) (v : PushOutboxRecord) (m : Map PushOutboxRecord)
    → str_eq i k ≡ false
    → any (is_waiting_at k) (set i v m) ≡ any (is_waiting_at k) m
unfolding set
waiting-set_other i k v [] h = rw h refl
waiting-set_other i k v ((j, w) ∷ m) h = elim (Bool-cases (str_eq j i)) [
  | inl b ↦ rw b (rw (subst (λ x. str_eq x k ≡ false) (sym ((eq_iff j i).0 b)) h) refl)
  | inr b ↦ rw b (ap (λ x. is_waiting_at k (j, w) || x) (waiting-set_other i k v m h))
]

pub candidates_apart :
    (now : ℕ) (k : String) (m : Map PushOutboxRecord)
    → any (is_waiting_at k) m ≡ false
    → any (λ e. str_eq e.0 k) (filter (is_candidate now) m) ≡ false
candidates_apart now k [] h = refl
candidates_apart now k ((j, w) ∷ m) h = ground (arith, candidates_apart now k m)

pub take_apart :
    (n : ℕ) (k : String) (es : List (String × PushOutboxRecord))
    → any (λ e. str_eq e.0 k) es ≡ false
    → any (λ e. str_eq e.0 k) (take n es) ≡ false
take_apart n k [] h = refl
take_apart zero k (e ∷ es) h = refl
take_apart (suc n) k (e ∷ es) h = ground (arith, take_apart n k es)

module _ (k : String) (r : PushOutboxRecord) where
  abbrev pub Keeps : {A : Type 0} → PushMethod A → Type 0
  Keeps m = Triple (IsSettled k r) m (λ _. IsSettled k r) (IsSettled k r)

  pub set_record-IsSettled :
      (i : String) (v : PushOutboxRecord) (s : Repository)
      → str_eq i k ≡ false
      → IsSettled k r s
      → IsSettled k r (set_record i v s)
  set_record-IsSettled i v s h (e, w) =
      (get-set_other i k v s.outbox h ∙ e, waiting-set_other i k v s.outbox h ∙ w)

  pub expire-Keeps : (now : ℕ) → Keeps (expire now)
  unfolding expire
  expire-Keeps now = bind-Triple (skip_gets _) (λ _.
      bind-Triple (modify-Triple {Q = IsSettled k r} _ (λ s p. p)) (λ _. pure-Triple _ (λ s p. p)))

  module _ (env : Environment) where
    pub read_clock-Keeps : Keeps (read_clock env)
    unfolding read_clock
    read_clock-Keeps = record { at = λ s p. p }

    encrypt-Keeps : (scope : PushScope) (id text : String) → Keeps (encrypt env scope id text)
    unfolding encrypt
    encrypt-Keeps scope id text = record {
      at = λ s p.
          (skip_or_throw {P = IsSettled k r} (env.encrypt scope id text s.encryptions)
              encryption_failed (λ t q. q)).at
            _ p;
    }

    subscription_id-Keeps : (o : Option StoredSubscription) → Keeps (subscription_id env o)
    unfolding subscription_id random_uuid
    subscription_id-Keeps none = record { at = λ s p. p }
    subscription_id-Keeps (some row) = pure-Triple _ (λ s p. p)

    pub upsert-Keeps :
        (scope : PushScope) (request : PushSubscriptionRequest) → Keeps (upsert env scope request)
    unfolding upsert
    upsert-Keeps scope request = bind-Triple (skip_gets _) (λ existing.
        bind-Triple (subscription_id-Keeps existing) (λ id. bind-Triple read_clock-Keeps (λ now.
          bind-Triple (encrypt-Keeps scope id _) (λ secret.
            bind-Triple (modify-Triple {Q = IsSettled k r} _ (λ s p. p))
              (λ _. pure-Triple _ (λ s p. p))))))

    pub revoke-Keeps : (scope : PushScope) (id : String) (v : ℕ) → Keeps (revoke env scope id v)
    unfolding revoke
    revoke-Keeps scope id v = bind-Triple (skip_gets _) (λ found.
        bind-Triple (skip_or_throw _ _ (λ s p. p)) (λ row.
          bind-Triple (skip_require _ _ (λ s p. p)) (λ _. bind-Triple read_clock-Keeps (λ now.
            bind-Triple (modify-Triple {Q = IsSettled k r} _ (λ s p. p))
              (λ _. pure-Triple _ (λ s p. p))))))

    revoke_rows-Keeps :
        (scope : PushScope) (device_id : String) (rows : List (String × StoredSubscription))
        → Keeps (revoke_rows env scope device_id rows)
    unfolding revoke_rows
    revoke_rows-Keeps scope device_id [] = pure-Triple _ (λ s p. p)
    revoke_rows-Keeps scope device_id ((id, row) ∷ rows) =
        if-Triple _
          (bind-Triple read_clock-Keeps (λ now.
            bind-Triple (modify-Triple {Q = IsSettled k r} _ (λ s p. p)) (λ _.
              bind-Triple (revoke_rows-Keeps scope device_id rows)
                (λ _. pure-Triple _ (λ s p. p)))))
          (revoke_rows-Keeps scope device_id rows)

    pub revoke_device-Keeps :
        (scope : PushScope) (device_id : String) → Keeps (revoke_device env scope device_id)
    unfolding revoke_device
    revoke_device-Keeps scope device_id =
        bind-Triple (skip_gets _) (λ rows. revoke_rows-Keeps scope device_id rows)
