-- ===== src/Push/Waiting/Deliveries.antt =====
-- The records of the outbox that do not wait for a delivery, under `enqueue` and `drain`.
use perseverance.Prelude.{
  ℕ, suc, String, ◌≡◌, ap, ◌∙◌, Bool, false, ◌||◌, List, [], ◌∷◌, inl, inr, arith, eq_iff, str_eq,
  is_some, filter, any, Bool-cases,
}
use perseverance.Prelude.Map.{get}
use perseverance.Prelude.Exec.{◌>>=◌}
use perseverance.Prelude.Exec.Triple.{
  Triple, bind-Triple, gets-Triple, modify-Triple, pure-Triple, if-Triple, cases-Triple,
  elim-Triple, skip_gets, skip_or_throw,
}
use perseverance.Push.Types.{
  WorkspaceScope, StoredSubscription, PushOutboxRecord, DeliveryOutcome, invalid_endpoint, Delivery,
  provider_failed, PushDeliveryReceipt, Repository, Environment,
}
use perseverance.Push.Subscriptions.{read_clock}
use perseverance.Push.Outbox.{
  Notification, outbox_id_of, new_record, is_candidate, take, set_record, keep_receipt, settle_row,
  enqueue_row, enqueue_rows, enqueue, call_provider, attempt_delivery, drain_found, drain_one,
  drain_all, drain,
}
use perseverance.Push.Waiting.{IsSettled, Keeps, set_record-IsSettled, candidates_apart, take_apart}

module _ (k : String) (r : PushOutboxRecord) (env : Environment) where
  enqueue_row-Keeps :
      (scope : WorkspaceScope) (input : Notification) (row : StoredSubscription)
      → Keeps k r (enqueue_row env scope input row)
  unfolding enqueue_row read_clock
  enqueue_row-Keeps scope input row = bind-Triple (gets-Triple _) (λ known.
      cases-Triple known (λ _. pure-Triple 0 (λ s p. p.0))
        (λ f. bind-Triple (clock_unknown known) (λ now.
          bind-Triple (modify-Triple {Q = IsSettled k r} _ (add known f now))
            (λ _. pure-Triple 1 (λ s p. p)))))
    where
      id : String
      id = outbox_id_of env input row

      Unknown : Bool → Repository → Type 0
      Unknown known s = IsSettled k r s × (known ≡ is_some (get id s.outbox))

      clock_unknown :
          (known : Bool)
          → Triple (Unknown known) (read_clock env) (λ _. Unknown known) (IsSettled k r)
      clock_unknown known = record { at = λ s p. p }

      add :
          (known : Bool)
          → known ≡ false
          → (now : ℕ) (s : Repository) → Unknown known s
          → IsSettled k r (set_record id (new_record scope input row id now) s)
      add known f now s (p, e) =
          let other : str_eq id k ≡ false = elim (Bool-cases (str_eq id k)) [
            | inr apart ↦ apart
            | inl same ↦ cc (
              f,
              e
                  ∙ ap (λ x. is_some (get x s.outbox)) ((eq_iff id k).0 same)
                  ∙ ap (λ o. is_some o) p.0,
            )
          ] in
          set_record-IsSettled k r id (new_record scope input row id now) s other p

  enqueue_rows-Keeps :
      (scope : WorkspaceScope) (input : Notification) (rows : List StoredSubscription)
      → Keeps k r (enqueue_rows env scope input rows)
  unfolding enqueue_rows
  enqueue_rows-Keeps scope input [] = pure-Triple _ (λ s p. p)
  enqueue_rows-Keeps scope input (row ∷ rows) =
      if-Triple _
        (bind-Triple (enqueue_row-Keeps scope input row)
          (λ _. bind-Triple (enqueue_rows-Keeps scope input rows) (λ _. pure-Triple _ (λ s p. p))))
        (enqueue_rows-Keeps scope input rows)

  pub enqueue-Keeps :
      (scope : WorkspaceScope) (input : Notification) → Keeps k r (enqueue env scope input)
  unfolding enqueue
  enqueue-Keeps scope input =
      bind-Triple (skip_gets _) (λ rows. enqueue_rows-Keeps scope input rows)

  call_provider-Keeps : (d : Delivery) → Keeps k r (call_provider env d)
  unfolding call_provider
  call_provider-Keeps d = record {
    at = λ s p.
        (skip_or_throw {P = IsSettled k r} (env.deliver d s.deliveries) provider_failed
            (λ t q. q)).at
          (record s { deliveries = suc s.deliveries }) p;
  }

  keep_receipt-IsSettled :
      (receipt : PushDeliveryReceipt) (s : Repository)
      → IsSettled k r s
      → IsSettled k r (keep_receipt receipt s)
  keep_receipt-IsSettled receipt s p =
      elim (Bool-cases (is_some (get receipt.delivery_id s.receipts))) [
        | inl b ↦ rw b p
        | inr b ↦ rw b p
      ]

  settle_row-IsSettled :
      (outcome : DeliveryOutcome) (id : String) (row : StoredSubscription) (s : Repository)
      → IsSettled k r s
      → IsSettled k r (settle_row outcome id row s)
  settle_row-IsSettled DeliveryOutcome.delivered id row s p = p
  settle_row-IsSettled DeliveryOutcome.retry id row s p = p
  settle_row-IsSettled invalid_endpoint id row s p = p

  attempt_delivery-Keeps :
      (now : ℕ) (id : String) (found : PushOutboxRecord) (row : StoredSubscription)
      → str_eq id k ≡ false
      → Keeps k r (attempt_delivery env now id found row)
  unfolding attempt_delivery
  attempt_delivery-Keeps now id found row h =
      bind-Triple (modify-Triple {Q = IsSettled k r} _ (λ s p. set_record-IsSettled k r id _ s h p))
        (λ _. bind-Triple (skip_or_throw _ _ (λ s p. p)) (λ text.
          bind-Triple (skip_or_throw _ _ (λ s p. p)) (λ material.
            bind-Triple (call_provider-Keeps _) (λ result.
              bind-Triple (modify-Triple _ (λ s p. keep_receipt-IsSettled _ s p)) (λ _.
                bind-Triple
                  (modify-Triple {Q = IsSettled k r} _ (λ s p. set_record-IsSettled k r id _ s h p))
                  (λ _.
                    bind-Triple (modify-Triple _ (λ s p. settle_row-IsSettled result.0 _ row s p))
                      (λ _. pure-Triple _ (λ s p. p))))))))

  drain_found-Keeps :
      (now : ℕ) (id : String) (found : PushOutboxRecord)
      → str_eq id k ≡ false
      → Keeps k r (drain_found env now id found)
  unfolding drain_found
  drain_found-Keeps now id found h = bind-Triple (skip_gets _) (λ row.
      elim-Triple row
        (λ _.
          bind-Triple
            (modify-Triple {Q = IsSettled k r} _ (λ s p. set_record-IsSettled k r id _ s h p))
            (λ _. pure-Triple _ (λ s p. p)))
        (λ subscription _. attempt_delivery-Keeps now id found subscription h))

  drain_one-Keeps :
      (now : ℕ) (e : String × PushOutboxRecord)
      → str_eq e.0 k ≡ false
      → Keeps k r (drain_one env now e)
  unfolding drain_one
  drain_one-Keeps now (id, _) h = bind-Triple (skip_gets _) (λ found.
      elim-Triple found (λ _. pure-Triple _ (λ s p. p)) (λ x _. drain_found-Keeps now id x h))

  or_false : (a b : Bool) → (a || b) ≡ false → (a ≡ false) × (b ≡ false)
  or_false a b h = ground arith

  drain_all-Keeps :
      (now : ℕ) (es : List (String × PushOutboxRecord))
      → any (λ e. str_eq e.0 k) es ≡ false
      → Keeps k r (drain_all env now es)
  unfolding drain_all
  drain_all-Keeps now [] h = pure-Triple _ (λ s p. p)
  drain_all-Keeps now (e ∷ es) h =
      let (first, rest) = or_false (str_eq e.0 k) (any (λ x. str_eq x.0 k) es) h in
      bind-Triple (drain_one-Keeps now e first)
        (λ _. bind-Triple (drain_all-Keeps now es rest) (λ _. pure-Triple _ (λ s p. p)))

  pub drain-Keeps : (now limit : ℕ) → Keeps k r (drain env now limit)
  unfolding drain drain_all ◌>>=◌
  drain-Keeps now limit = record {
    at = λ s p.
        (drain_all-Keeps now (take limit (filter (is_candidate now) s.outbox))
            (take_apart limit k _ (candidates_apart now k s.outbox p.1))).at
          s p;
  }
