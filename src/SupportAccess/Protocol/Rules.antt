-- ===== src/SupportAccess/Protocol/Rules.antt =====
-- The rules by which a method is followed through the protocol: one for each kind of call.
use perseverance.Prelude.{
  ℕ, suc, String, ◌≡◌, refl, Bool, true, false, Option, some, inl, inr, List, [], ◌∷◌, arith,
  Option-cases, if◌then◌else◌, any,
}
use perseverance.Prelude.Map.{get}
use perseverance.Prelude.Exec.{
  Result, ok, err, or_throw, pure, gets, modify, require, for_each, continue, ◌>>=◌,
}
use perseverance.SupportAccess.Types.{Outcome, Grant, BreakGlass, Service, Runtime, Error, Method}
use perseverance.SupportAccess.Store.{
  find_grant, find_break_glass, check_version, decision_replay, replayed, Aggregate, read_clock,
  random_uuid, random_bytes, append_audit, revoke_leases, revoke_loop, queue_tenant_notification,
  enqueue_notification, is_notification_for, primitives,
}
use perseverance.SupportAccess.Protocol.{
  Change, Reach, here, next, ticked, logged, leases_revoked, outbox_set,
}

pub Reach-trans : {rt : Runtime} {s t u : Service} → Reach rt s t → Reach rt t u → Reach rt s u
Reach-trans r here = r
Reach-trans r (next q c) = next (Reach-trans r q) c

module _ {rt : Runtime} {s₀ : Service} {A : Type 0} where
  -- A refused test ends the method where it stands.
  pub by_require :
      (b : Bool) (e : Error) (k : Unit {0} → Method A) (s : Service)
      → Reach rt s₀ s
      → (b ≡ true → Reach rt s₀ (k tt s).1)
      → Reach rt s₀ ((require b e >>= k) s).1
  unfolding ◌>>=◌
  by_require true e k s r f = f refl
  by_require false e k s r f = r

  pub by_version :
      (v w : ℕ) (k : Unit {0} → Method A) (s : Service)
      → Reach rt s₀ s
      → Reach rt s₀ (k tt s).1
      → Reach rt s₀ ((check_version v w >>= k) s).1
  unfolding check_version
  by_version v w k s r f = by_require _ _ k s r (λ _. f)

  pub by_find_grant :
      (id : String) (k : Grant → Method A) (s : Service)
      → Reach rt s₀ s
      → ((g : Grant) → get id s.grants ≡ some g → Reach rt s₀ (k g s).1)
      → Reach rt s₀ ((find_grant id >>= k) s).1
  unfolding ◌>>=◌ find_grant
  by_find_grant id k s r f = elim (Option-cases (get id s.grants)) [
    | inl e ↦ rw (e, or_throw) r
    | inr (g, e) ↦ rw (e, or_throw) (f g e)
  ]

  pub by_find_break_glass :
      (id : String) (k : BreakGlass → Method A) (s : Service)
      → Reach rt s₀ s
      → ((b : BreakGlass) → get id s.break_glass ≡ some b → Reach rt s₀ (k b s).1)
      → Reach rt s₀ ((find_break_glass id >>= k) s).1
  unfolding ◌>>=◌ find_break_glass
  by_find_break_glass id k s r f = elim (Option-cases (get id s.break_glass)) [
    | inl e ↦ rw (e, or_throw) r
    | inr (b, e) ↦ rw (e, or_throw) (f b e)
  ]

  by_result :
      (m : Result Error Bool) (k : Bool → Method A) (s : Service)
      → Reach rt s₀ s
      → ((b : Bool) → Reach rt s₀ (k b s).1)
      → Reach rt s₀ (continue m k s).1
  by_result (ok b) k s r f = f b
  by_result (err e) k s r f = r

  pub by_replay :
      (key id : String) (k : Bool → Method A) (s : Service)
      → Reach rt s₀ s
      → ((b : Bool) → Reach rt s₀ (k b s).1)
      → Reach rt s₀ ((decision_replay key id >>= k) s).1
  unfolding ◌>>=◌ decision_replay
  by_replay key id k s r f = by_result (replayed (get key s.idempotency) id) k s r f

  -- The two ways on from a method that was followed.
  pub by_method :
      {B : Type 0} (m : Method B) (k : B → Method A) (s : Service)
      → Reach rt s₀ (m s).1
      → ((b : B) → (m s).0 ≡ ok b → Reach rt s₀ (k b (m s).1).1)
      → Reach rt s₀ ((m >>= k) s).1
  unfolding ◌>>=◌
  by_method {B = B} m k s r f = go (m s).0 refl
    where
      go : (x : Result Error B) → (m s).0 ≡ x → Reach rt s₀ (continue x k (m s).1).1
      go (ok b) e = f b e
      go (err e') e = r

  pub by_if :
      (b : Bool) (m n : Method A) (s : Service)
      → (b ≡ true → Reach rt s₀ (m s).1)
      → (b ≡ false → Reach rt s₀ (n s).1)
      → Reach rt s₀ ((if b then m else n) s).1
  by_if true m n s f g = f refl
  by_if false m n s f g = g refl

-- A loop is followed turn by turn.
pub by_each {ℓ} :
    {rt : Runtime} {s₀ : Service} {X : Type ℓ} (body : X → Method (Unit {0}))
    → ((x : X) (s : Service) → Reach rt s (body x s).1)
    → (xs : List X) (s : Service) → Reach rt s₀ s
    → Reach rt s₀ (for_each body xs s).1
unfolding for_each
by_each body turn [] s r = r
by_each body turn (x ∷ xs) s r =
    by_method (body x) (λ _. for_each body xs) s (Reach-trans r (turn x s))
      λ _ _. by_each body turn xs (body x s).1 (Reach-trans r (turn x s))

module _ {rt : Runtime} {s₀ : Service} {A : Type 0} where
  pub by_pure : (a : A) (s : Service) → Reach rt s₀ s → Reach rt s₀ (pure {E = Error} a s).1
  unfolding pure
  by_pure a s r = r

  pub by_gets :
      {B : Type 0} (f : Service → B) (k : B → Method A) (s : Service)
      → Reach rt s₀ (k (f s) s).1
      → Reach rt s₀ ((gets f >>= k) s).1
  unfolding ◌>>=◌
  by_gets f k s r = r

  pub by_gets' :
      (f : Service → A) (s : Service) → Reach rt s₀ s → Reach rt s₀ (gets {E = Error} f s).1
  unfolding gets
  by_gets' f s r = r

  -- A write is a change of the protocol.
  pub by_modify :
      (f : Service → Service) (k : Unit {0} → Method A) (s : Service)
      → Reach rt s₀ s
      → Change rt s (f s)
      → (Reach rt s₀ (f s) → Reach rt s₀ (k tt (f s)).1)
      → Reach rt s₀ ((modify f >>= k) s).1
  unfolding ◌>>=◌
  by_modify f k s r c g = g (next r c)

  -- Two writes that the protocol takes as one change.
  pub by_two :
      (f g : Service → Service) (k : Unit {0} → Method A) (s : Service)
      → Reach rt s₀ s
      → Change rt s (g (f s))
      → (Reach rt s₀ (g (f s)) → Reach rt s₀ (k tt (g (f s))).1)
      → Reach rt s₀ ((modify f >>= λ _. modify g >>= k) s).1
  unfolding ◌>>=◌
  by_two f g k s r c h = h (next r c)

  -- Reading the clock or a generator changes a counter only.
  pub by_clock :
      (k : ℕ → Method A) (s : Service)
      → Reach rt s₀ s
      → (let t = record s { clock_reads = suc s.clock_reads } in
          Reach rt s₀ t → Reach rt s₀ (k (rt.now s.clock_reads) t).1)
      → Reach rt s₀ ((read_clock rt >>= k) s).1
  unfolding ◌>>=◌ read_clock
  by_clock k s r g = g (next r (ticked s (suc s.clock_reads) s.uuids s.randoms (omega arith)))

  pub by_uuid :
      (k : String → Method A) (s : Service)
      → Reach rt s₀ s
      → (let t = record s { uuids = suc s.uuids } in
          Reach rt s₀ t → Reach rt s₀ (k (rt.uuid s.uuids) t).1)
      → Reach rt s₀ ((random_uuid rt >>= k) s).1
  unfolding ◌>>=◌ random_uuid
  by_uuid k s r g = g (next r (ticked s s.clock_reads (suc s.uuids) s.randoms (omega arith)))

  pub by_random :
      (k : String → Method A) (s : Service)
      → Reach rt s₀ s
      → (let t = record s { randoms = suc s.randoms } in
          Reach rt s₀ t → Reach rt s₀ (k (rt.random_token s.randoms) t).1)
      → Reach rt s₀ ((random_bytes rt >>= k) s).1
  unfolding ◌>>=◌ random_bytes
  by_random k s r g = g (next r (ticked s s.clock_reads s.uuids (suc s.randoms) (omega arith)))

module _ {rt : Runtime} {s₀ : Service} where
  pub append_audit-Reach :
      (aggregate : Aggregate) (actor action : String) (outcome : Outcome) (reason cid : String)
      (s : Service)
      → Reach rt s₀ s
      → Reach rt s₀ (append_audit rt aggregate actor action outcome reason cid s).1
  unfolding append_audit
  append_audit-Reach aggregate actor action outcome reason cid s r =
      next (next r (logged s aggregate actor action outcome reason cid (rt.now s.clock_reads)))
        (ticked _ (suc s.clock_reads) s.uuids s.randoms (omega arith))

  pub revoke_leases-Reach :
      (gid bid : Option String) (s : Service)
      → Reach rt s₀ s
      → Reach rt s₀ (revoke_leases rt gid bid s).1
  unfolding revoke_leases
  revoke_leases-Reach gid bid s r =
      next (next r (leases_revoked s gid bid s.clock_reads))
        (ticked _ (revoke_loop rt gid bid s.clock_reads s.leases).1 s.uuids s.randoms (omega arith))

  enqueue_notification-Reach :
      (b : BreakGlass) (s : Service) → Reach rt s₀ s → Reach rt s₀ (enqueue_notification rt b s).1
  unfolding enqueue_notification primitives
  enqueue_notification-Reach b s r =
      next (next r (ticked s (suc s.clock_reads) (suc s.uuids) s.randoms (omega arith)))
        (outbox_set _ _)

  pub queue_tenant_notification-Reach :
      (b : BreakGlass) (s : Service)
      → Reach rt s₀ s
      → Reach rt s₀ (queue_tenant_notification rt b s).1
  unfolding queue_tenant_notification
  queue_tenant_notification-Reach b s r = by_gets _ _ s (
      by_if (any (is_notification_for b.break_glass_id) s.outbox) (pure tt)
        (enqueue_notification rt b) s (λ _. by_pure tt s r) (λ _. enqueue_notification-Reach b s r))

  module _ {A : Type 0} where
    pub by_audit :
        (aggregate : Aggregate) (actor action : String) (outcome : Outcome) (reason cid : String)
        (k : Unit {0} → Method A) (s : Service)
        → Reach rt s₀ s
        → ((t : Service) → Reach rt s₀ t → Reach rt s₀ (k tt t).1)
        → Reach rt s₀ ((append_audit rt aggregate actor action outcome reason cid >>= k) s).1
    by_audit aggregate actor action outcome reason cid k s r f =
        let r' = append_audit-Reach aggregate actor action outcome reason cid s r in
        by_method _ k s r' λ _ _. f _ r'

    pub by_revoke_leases :
        (gid bid : Option String) (k : Unit {0} → Method A) (s : Service)
        → Reach rt s₀ s
        → ((t : Service) → Reach rt s₀ t → Reach rt s₀ (k tt t).1)
        → Reach rt s₀ ((revoke_leases rt gid bid >>= k) s).1
    by_revoke_leases gid bid k s r f =
        let r' = revoke_leases-Reach gid bid s r in by_method _ k s r' λ _ _. f _ r'
