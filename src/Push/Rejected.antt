-- ===== src/Push/Rejected.antt =====
-- What `drain` leaves when the provider throws.
use perseverance.Prelude.{
  ℕ, zero, suc, Bool, ◌||◌, inl, inr, eq_iff, str_eq, arith, Bool-cases, [], true, String, ◌≡◌,
  refl, ap, ◌∙◌, false, none, some, List, ◌∷◌, filter, any,
}
use perseverance.Prelude.Map.{Map, get, set, get-set_self}
use perseverance.Prelude.Exec.{err, or_throw, ◌>>=◌}
use perseverance.Push.Types.{
  StoredSubscription, PushOutboxRecord, SecretMaterial, Repository, Environment, provider_failed,
}
use perseverance.Push.Outbox.{
  is_candidate, take, attempted, set_record, delivery_of, active_row, call_provider,
  attempt_delivery, drain_found, drain_one, drain_all, drain,
}
use perseverance.Push.Waiting.{is_waiting_at, IsSettled, candidates_apart}
use perseverance.Push.Run.{Call, run, finished_stays}

take_first :
    (n : ℕ) (xs : List (String × PushOutboxRecord)) {y : String × PushOutboxRecord}
    {ys : List (String × PushOutboxRecord)}
    → take n xs ≡ y ∷ ys
    → (zs : List (String × PushOutboxRecord)) × (xs ≡ y ∷ zs)
take_first n [] h = cc
take_first zero (x ∷ xs) h = cc
take_first (suc n) (x ∷ xs) h = (xs, cc)

or_false : (a b : Bool) → (a || b) ≡ false → (a ≡ false) × (b ≡ false)
or_false a b h = ground arith

-- The first candidate is what the outbox has under its key, if nothing else under the key waits.
first_found :
    (now : ℕ) (id : String) (found v : PushOutboxRecord) (m : Map PushOutboxRecord)
    {zs : List (String × PushOutboxRecord)}
    → filter (is_candidate now) m ≡ (id, found) ∷ zs
    → any (is_waiting_at id) (set id v m) ≡ false
    → get id m ≡ some found
unfolding get set
first_found now id found v [] h w = cc
first_found now id found v ((j, x) ∷ m) {zs = zs} h w =
    elim (Bool-cases (is_candidate now (j, x))) [
      | inl c ↦
          let same : (j, x) ≡ (id, found) = first_of (rw c at h) in
          let here : str_eq j id ≡ true = (eq_iff j id).1 (ap (λ e. e.0) same) in
          rw here (ap (λ e. some e.1) same)
      | inr c ↦ elim (Bool-cases (str_eq j id)) [
        | inl here ↦
            let apart = candidates_apart now id m (or_false _ _ (rw here at w)).1 in
            cc (rw (rw c at h) at apart, (eq_iff id id).1 refl)
        | inr there ↦
            rw there (first_found now id found v m (rw c at h) (or_false _ _ (rw there at w)).1)
      ]
    ]
  where
    first_of :
        {e f : String × PushOutboxRecord} {es fs : List (String × PushOutboxRecord)}
        → e ∷ es ≡ f ∷ fs
        → e ≡ f
    first_of h = cc

module _ (env : Environment) where
  -- The repository when the provider has been called for a record.
  abbrev called : String → PushOutboxRecord → Repository → Repository
  called id found s = record (set_record id (attempted found) s) { deliveries = suc s.deliveries }

  rejected_attempt :
      (now : ℕ) (id text : String) (found : PushOutboxRecord) (row : StoredSubscription)
      (material : SecretMaterial) (s : Repository)
      → env.decrypt row.scope row.subscription_id row.secret ≡ some text
      → env.parse_secret text ≡ some material
      → env.deliver (delivery_of env material (attempted found)) s.deliveries ≡ none
      → attempt_delivery env now id found row s ≡ (err provider_failed, called id found s)
  unfolding attempt_delivery call_provider ◌>>=◌ or_throw
  rejected_attempt now id text found row material s d p r = rw d (rw p (rw r refl))

  rejected_drain :
      (now limit : ℕ) (id text : String) (found : PushOutboxRecord)
      (es : List (String × PushOutboxRecord)) (row : StoredSubscription) (material : SecretMaterial)
      (s : Repository)
      → take limit (filter (is_candidate now) s.outbox) ≡ (id, found) ∷ es
      → active_row env (get found.subscription_id s.rows) ≡ some row
      → env.decrypt row.scope row.subscription_id row.secret ≡ some text
      → env.parse_secret text ≡ some material
      → env.deliver (delivery_of env material (attempted found)) s.deliveries ≡ none
      → get id s.outbox ≡ some found
      → drain env now limit s ≡ (err provider_failed, called id found s)
  unfolding drain drain_all drain_one drain_found ◌>>=◌
  rejected_drain now limit id text found es row material s c a d p r g =
      rw c (rw g (rw a (rw (rejected_attempt now id text found row material s d p r) refl)))

  -- A delivery that the provider rejects is lost: where the first candidate of `drain` has an active
  -- subscription whose secret can be read, and the provider throws for it, `drain` throws, and the
  -- record is left in delivering, which no call changes that begins later, where calls do not overlap.
  -- That no other record under its key waits is a hypothesis.
  pub rejected_delivery_lost :
      (now limit : ℕ) (id text : String) (found : PushOutboxRecord)
      (es : List (String × PushOutboxRecord)) (row : StoredSubscription) (material : SecretMaterial)
      (calls : List Call) (s : Repository)
      → take limit (filter (is_candidate now) s.outbox) ≡ (id, found) ∷ es
      → active_row env (get found.subscription_id s.rows) ≡ some row
      → env.decrypt row.scope row.subscription_id row.secret ≡ some text
      → env.parse_secret text ≡ some material
      → env.deliver (delivery_of env material (attempted found)) s.deliveries ≡ none
      → any (is_waiting_at id) (set id (attempted found) s.outbox) ≡ false
      → ((drain env now limit s).0 ≡ err provider_failed)
        × (get id (run env (drain env now limit s).1 calls).outbox ≡ some (attempted found))
  rejected_delivery_lost now limit id text found es row material calls s c a d p r w =
      let stored = first_found now id found (attempted found) s.outbox (take_first limit _ c).1 w in
      let thrown = rejected_drain now limit id text found es row material s c a d p r stored in
      let left : IsSettled id (attempted found) (called id found s) =
        (get-set_self id (attempted found) s.outbox, w) in
      let stays = finished_stays env id (attempted found) calls (called id found s) left in
      (ap (λ x. x.0) thrown, ap (λ x. get id (run env x.1 calls).outbox) thrown ∙ stays.0)
