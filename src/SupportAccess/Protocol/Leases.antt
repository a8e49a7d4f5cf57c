-- ===== src/SupportAccess/Protocol/Leases.antt =====
-- Expiry, leases and the outbox follow the protocol.
use Prim.Native.String.{◌++◌ as str_append}
use perseverance.Prelude.{
  ℕ, String, ◌≡◌, refl, Bool, true, false, not, ◌&&◌, ◌||◌, Option, none, some, inl, inr, arith,
  str_eq, Bool-cases, Option-cases,
}
use perseverance.Prelude.Map.{get, keys}
use perseverance.Prelude.Exec.{Result, ok, err, continue, or_throw, modify, ◌>>=◌}
use perseverance.SupportAccess.Types.{
  Error, expired, Grant, BreakGlass, Lease, OutboxRecord, Service, Runtime, Method, is_delivered,
  outbox_not_found,
}
use perseverance.SupportAccess.Store.{
  on_store, set_lease, Aggregate, of_grant, of_break_glass, primitives, random_uuid,
}
use perseverance.SupportAccess.Leases.{
  is_usable, IssueLease, IssueBreakGlassLease, ConsumeLease, is_due, grant_lease, break_glass_lease,
  expire_found, expire_grant, expire_found_break_glass, expire_break_glass, expire, issue_checked,
  issue_write, issue_lease, issue_break_glass_checked, issue_break_glass_lease, find_aggregate,
  aggregate_of, consume_write, find_lease, consume_checked, consume_lease,
}
use perseverance.SupportAccess.Outbox.{fail_outbox, deliver_outbox, list_grants, is_repeat, Scope}
use perseverance.SupportAccess.Protocol.{
  Reach, here, next, grant_ended, break_glass_ended, lease_issued, lease_spent, outbox_set,
  IsIssuedUnder,
}
use perseverance.SupportAccess.Protocol.Rules.{
  by_require, by_find_grant, by_find_break_glass, by_method, by_pure, by_gets, by_gets', by_modify,
  by_clock, by_random, by_audit, by_revoke_leases, queue_tenant_notification-Reach,
  append_audit-Reach, by_each,
}
use perseverance.SupportAccess.Protocol.Grants.{status_eq_sound}

not_terminal : (a b : Bool) → (not a && b) ≡ true → a ≡ false
not_terminal a b h = ground arith

module _ (rt : Runtime) {s₀ : Service} where
  expire_found-Reach :
      (now : ℕ) (id : String) (g : Grant) (s : Service)
      → get id s.grants ≡ some g
      → Reach rt s₀ s
      → Reach rt s₀ (expire_found rt now id g s).1
  unfolding expire_found
  expire_found-Reach now id g s found r = elim (Bool-cases (is_due g.status g.expires_at now)) [
    | inr early ↦ rw early (by_pure tt s r)
    | inl due ↦ rw due (
        by_modify _ _ s r
          (grant_ended s id g expired g.revoked_at found (not_terminal _ _ due) refl)
          λ r₁. by_revoke_leases _ _ _ _ r₁ λ t r₂. append_audit-Reach _ _ _ _ _ _ t r₂)
  ]

  expire_grant-Reach :
      (now : ℕ) (id : String) (s : Service)
      → Reach rt s₀ s
      → Reach rt s₀ (expire_grant rt now id s).1
  unfolding expire_grant
  expire_grant-Reach now id s r = by_gets _ _ s (elim (Option-cases (get id s.grants)) [
    | inl e ↦ rw e (by_pure tt s r)
    | inr (g, e) ↦ rw e (expire_found-Reach now id g s e r)
  ])

  expire_found_break_glass-Reach :
      (now : ℕ) (id : String) (b : BreakGlass) (s : Service)
      → get id s.break_glass ≡ some b
      → Reach rt s₀ s
      → Reach rt s₀ (expire_found_break_glass rt now id b s).1
  unfolding expire_found_break_glass
  expire_found_break_glass-Reach now id b s found r =
      elim (Bool-cases (is_due b.status b.expires_at now)) [
        | inr early ↦ rw early (by_pure tt s r)
        | inl due ↦ rw due (
            by_modify _ _ s r (break_glass_ended s id b expired b.revoked_at found refl) λ r₁.
              by_revoke_leases _ _ _ _ r₁ λ t r₂.
                let r₃ = queue_tenant_notification-Reach _ t r₂ in
                by_method _ _ t r₃ λ _ _. append_audit-Reach _ _ _ _ _ _ _ r₃)
      ]

  expire_break_glass-Reach :
      (now : ℕ) (id : String) (s : Service)
      → Reach rt s₀ s
      → Reach rt s₀ (expire_break_glass rt now id s).1
  unfolding expire_break_glass
  expire_break_glass-Reach now id s r = by_gets _ _ s (elim (Option-cases (get id s.break_glass)) [
    | inl e ↦ rw e (by_pure tt s r)
    | inr (b, e) ↦ rw e (expire_found_break_glass-Reach now id b s e r)
  ])

usable_unused :
    (a : Aggregate) (l : Lease)
    → is_usable a l ≡ true
    → (l.consumed_at ≡ none) × (l.revoked_at ≡ none)
unfolding is_usable
usable_unused a l h = ground arith

module _ (rt : Runtime) {s₀ : Service} where
  pub expire-Reach : (s : Service) → Reach rt s₀ s → Reach rt s₀ (expire rt s).1
  unfolding expire
  expire-Reach s r = by_clock _ s r λ r₁. by_gets _ _ _ (
      let r₂ =
        by_each (expire_grant rt (rt.now s.clock_reads))
          (λ id t. expire_grant-Reach rt (rt.now s.clock_reads) id t here) (keys s.grants) _ r₁ in
      by_method _ _ _ r₂ λ _ _. by_gets _ _ _ (
        by_each (expire_break_glass rt (rt.now s.clock_reads))
          (λ id t. expire_break_glass-Reach rt (rt.now s.clock_reads) id t here) _ _ r₂))

  -- Drawing the identifier of a lease and storing the lease are one change.
  by_issue :
      {A : Type 0} (lease : String → Lease) (aggregate : Aggregate)
      (k : String → Unit {0} → Method A) (s : Service)
      → ((uuid : String) → (lease uuid).lease_id ≡ str_append "jit_" uuid)
      → IsIssuedUnder aggregate (lease (rt.uuid s.uuids))
      → Reach rt s₀ s
      → ((t : Service) → Reach rt s₀ t → Reach rt s₀ (k (rt.uuid s.uuids) tt t).1)
      → Reach rt s₀
          ((random_uuid rt >>= λ uuid.
              modify (on_store (set_lease (lease uuid).lease_id (lease uuid))) >>= k uuid)
            s).1
  unfolding primitives
  by_issue lease aggregate k s named issued r f =
      f _ (next r (lease_issued s aggregate (lease (rt.uuid s.uuids)) (named _) issued))

  issue_checked-Reach :
      (input : IssueLease) (s : Service) → Reach rt s₀ s → Reach rt s₀ (issue_checked rt input s).1
  unfolding issue_checked issue_write
  issue_checked-Reach input s r = by_find_grant _ _ s r λ g found. by_require _ _ _ s r λ live.
      by_require _ _ _ s r λ _. by_require _ _ _ s r λ _. by_require _ _ _ s r λ _.
        by_require _ _ _ s r λ _. by_require _ _ _ s r λ _. by_random _ s r λ r₁.
          by_clock _ _ r₁ λ r₂.
            by_issue
              (λ uuid.
                grant_lease input g uuid (rt.now s.clock_reads)
                  (rt.sha256 (rt.random_token s.randoms)))
              (of_grant g) _ _ (λ _. refl)
              (record {
                is_active = status_eq_sound _ _ live;
                same_generation = refl;
                unused = refl;
                unrevoked = refl;
              })
              r₂ λ t r₃. by_audit _ _ _ _ _ _ _ t r₃ (by_pure _)

  pub issue_lease-Reach :
      (input : IssueLease) (s : Service) → Reach rt s₀ s → Reach rt s₀ (issue_lease rt input s).1
  unfolding issue_lease
  issue_lease-Reach input s r =
      let r₁ = expire-Reach s r in by_method _ _ s r₁ λ _ _. issue_checked-Reach input _ r₁

  issue_break_glass_checked-Reach :
      (input : IssueBreakGlassLease) (s : Service)
      → Reach rt s₀ s
      → Reach rt s₀ (issue_break_glass_checked rt input s).1
  unfolding issue_break_glass_checked
  issue_break_glass_checked-Reach input s r = by_find_break_glass _ _ s r λ b found.
      by_require _ _ _ s r λ live. by_require _ _ _ s r λ _. by_require _ _ _ s r λ _.
        by_require _ _ _ s r λ _. by_random _ s r λ r₁. by_clock _ _ r₁ λ r₂.
          by_issue
            (λ uuid.
              break_glass_lease input b uuid (rt.now s.clock_reads)
                (rt.sha256 (rt.random_token s.randoms)))
            (of_break_glass b) _ _ (λ _. refl)
            (record {
              is_active = status_eq_sound _ _ live;
              same_generation = refl;
              unused = refl;
              unrevoked = refl;
            })
            r₂ λ t r₃. by_audit _ _ _ _ _ _ _ t r₃ (by_pure _)

  pub issue_break_glass_lease-Reach :
      (input : IssueBreakGlassLease) (s : Service)
      → Reach rt s₀ s
      → Reach rt s₀ (issue_break_glass_lease rt input s).1
  unfolding issue_break_glass_lease
  issue_break_glass_lease-Reach input s r =
      let r₁ = expire-Reach s r in
      by_method _ _ s r₁ λ _ _. issue_break_glass_checked-Reach input _ r₁

  by_find_lease :
      {A : Type 0} (input : ConsumeLease) (k : Lease → Method A) (s : Service)
      → Reach rt s₀ s
      → ((l : Lease) → get input.lease_id s.leases ≡ some l → Reach rt s₀ (k l s).1)
      → Reach rt s₀ ((find_lease rt input >>= k) s).1
  unfolding primitives find_lease
  by_find_lease input k s r f = elim (Option-cases (get input.lease_id s.leases)) [
    | inl e ↦ rw (e, find_lease) r
    | inr (l, e) ↦ elim (Bool-cases (str_eq l.token_hash (rt.sha256 input.token))) [
      | inl known ↦ rw (e, find_lease) (rw known (f l e))
      | inr wrong ↦ rw (e, find_lease) (rw wrong r)
    ]
  ]

  by_find_aggregate :
      {A : Type 0} (l : Lease) (k : Aggregate → Method A) (s : Service)
      → Reach rt s₀ s
      → ((a : Aggregate) → Reach rt s₀ (k a s).1)
      → Reach rt s₀ ((find_aggregate l >>= k) s).1
  unfolding primitives find_aggregate
  by_find_aggregate l k s r f = go (aggregate_of l s)
    where
      go : (a : Result Error Aggregate) → Reach rt s₀ (continue a k s).1
      go (ok a) = f a
      go (err e) = r

  consume_checked-Reach :
      (input : ConsumeLease) (s : Service)
      → Reach rt s₀ s
      → Reach rt s₀ (consume_checked rt input s).1
  unfolding consume_checked consume_write
  consume_checked-Reach input s r = by_find_lease input _ s r λ l found.
      by_find_aggregate l _ s r λ a. by_require _ _ _ _ r λ usable. by_clock _ s r λ r₁.
        by_require _ _ _ _ r₁ λ _. by_require _ _ _ _ r₁ λ _. by_clock _ _ r₁ λ r₂.
          let (unused, unrevoked) = usable_unused a l usable in
          by_modify _ _ _ r₂ (lease_spent _ _ l _ found unused unrevoked)
            λ r₃. by_audit _ _ _ _ _ _ _ _ r₃ (by_pure _)

  pub consume_lease-Reach :
      (input : ConsumeLease) (s : Service)
      → Reach rt s₀ s
      → Reach rt s₀ (consume_lease rt input s).1
  unfolding consume_lease
  consume_lease-Reach input s r =
      let r₁ = expire-Reach s r in by_method _ _ s r₁ λ _ _. consume_checked-Reach input _ r₁

  by_record :
      {A : Type 0} (o : Option OutboxRecord) (k : OutboxRecord → Method A) (s : Service)
      → Reach rt s₀ s
      → ((r : OutboxRecord) → Reach rt s₀ (k r s).1)
      → Reach rt s₀ ((or_throw o outbox_not_found >>= k) s).1
  unfolding primitives
  by_record none k s r f = r
  by_record (some o) k s r f = f o

  pub fail_outbox-Reach :
      (id : String) (retry_at : ℕ) (key : Option String) (s : Service)
      → Reach rt s₀ s
      → Reach rt s₀ (fail_outbox id retry_at key s).1
  unfolding fail_outbox
  fail_outbox-Reach id retry_at key s r = by_gets _ _ s (
      by_record _ _ s r λ o. elim (Bool-cases (is_repeat key o)) [
        | inl e ↦ rw e (by_pure o s r)
        | inr e ↦ rw e (by_modify _ _ s r (outbox_set s _) (by_pure _ _))
      ])

  pub deliver_outbox-Reach :
      (id : String) (key : Option String) (s : Service)
      → Reach rt s₀ s
      → Reach rt s₀ (deliver_outbox rt id key s).1
  unfolding deliver_outbox
  deliver_outbox-Reach id key s r = by_gets _ _ s (
      by_record _ _ s r λ o. elim (Bool-cases (is_delivered o.status || is_repeat key o)) [
        | inl e ↦ rw e (by_pure o s r)
        | inr e ↦ rw e (by_clock _ s r λ r₁. by_modify _ _ _ r₁ (outbox_set _ _) (by_pure _ _))
      ])

  pub list_grants-Reach :
      (scope : Scope) (s : Service) → Reach rt s₀ s → Reach rt s₀ (list_grants rt scope s).1
  unfolding list_grants
  list_grants-Reach scope s r =
      let r₁ = expire-Reach s r in by_method _ _ s r₁ λ _ _. by_gets' _ _ r₁
