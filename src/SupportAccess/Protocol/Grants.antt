-- ===== src/SupportAccess/Protocol/Grants.antt =====
-- The methods on grants follow the protocol.
use perseverance.Prelude.{
  ℕ, suc, ◌||◌, any, ◌+◌, ◌≤◌, String, ◌≡◌, refl, Bool, true, false, not, some, inl, inr, arith,
  Bool-cases, leb, str_eq, contains, length,
}
use perseverance.Prelude.Map.{get}
use perseverance.Prelude.Exec.{pure, gets, modify, ◌>>=◌}
use Prim.Native.String.{◌++◌ as str_append}
use perseverance.Prelude.Text.{truthy}
use perseverance.SupportAccess.Types.{
  active, success, content_decrypt, action_eq, Grant, Service, Runtime, Method, Approval, approve,
  deny, Decision, Status, status_eq, pending_approval, denied, revoked, is_terminal,
}
use perseverance.SupportAccess.Store.{
  of_grant, on_store, set_grant, push_approval, append_audit, random_uuid, primitives,
}
use perseverance.SupportAccess.Grants.{
  CreateGrant, VerifyGrant, DecideGrant, RevokeGrant, verify_fresh, verify_grant_mfa, end_grant,
  revoke_fresh, revoke_grant, approved, decided, decide_fresh, decide_grant, open_grant,
  create_grant, new_grant, is_schema_grant, parse_grant, audit_activation, grant_approval, by_kms,
  get_existing,
}
use perseverance.SupportAccess.Protocol.{
  Change, Reach, next, ticked, remembered, grant_verified, grant_ended, grant_opened, grant_counted,
  grant_activated, grant_denied, MayCount, candidates,
}
use perseverance.SupportAccess.Protocol.Rules.{
  by_require, by_version, by_find_grant, by_replay, by_method, by_if, by_pure, by_gets, by_modify,
  by_clock, by_uuid, by_audit, by_revoke_leases, append_audit-Reach, by_gets', by_two,
}

pub status_eq_sound : (a b : Status) → status_eq a b ≡ true → a ≡ b
status_eq_sound a b h = ground arith

module _ (rt : Runtime) {s₀ : Service} where
  verify_fresh-Reach :
      (input : VerifyGrant) (g : Grant) (s : Service)
      → get input.grant_id s.grants ≡ some g
      → Reach rt s₀ s
      → Reach rt s₀ (verify_fresh rt input g s).1
  unfolding verify_fresh
  verify_fresh-Reach input g s found r = by_version _ _ _ s r (
      by_require _ _ _ s r λ _. by_require _ _ _ s r λ pending.
        by_modify _ _ s r (grant_verified s _ _ g found (status_eq_sound _ _ pending))
          λ r₁. by_modify _ _ _ r₁ (remembered _ _ _) λ r₂. by_audit _ _ _ _ _ _ _ _ r₂ (by_pure _))

  pub verify_grant_mfa-Reach :
      (input : VerifyGrant) (s : Service)
      → Reach rt s₀ s
      → Reach rt s₀ (verify_grant_mfa rt input s).1
  unfolding verify_grant_mfa
  verify_grant_mfa-Reach input s r = by_find_grant _ _ s r λ g found.
      by_replay _ _ _ s r λ replay.
        by_if replay _ _ s (λ _. by_pure g s r) (λ _. verify_fresh-Reach input g s found r)

  end_grant-Reach :
      (input : RevokeGrant) (g : Grant) (s : Service)
      → get input.grant_id s.grants ≡ some g
      → is_terminal g.status ≡ false
      → Reach rt s₀ s
      → Reach rt s₀ (end_grant rt input g s).1
  unfolding end_grant
  end_grant-Reach input g s found live r = by_clock _ s r λ r₁.
      by_modify _ _ _ r₁ (grant_ended _ _ g revoked _ found live refl) λ r₂.
        by_revoke_leases _ _ _ _ r₂ λ t r₃.
          by_modify _ _ t r₃ (remembered _ _ _) λ r₄. by_audit _ _ _ _ _ _ _ _ r₄ (by_pure _)

  revoke_fresh-Reach :
      (input : RevokeGrant) (g : Grant) (s : Service)
      → get input.grant_id s.grants ≡ some g
      → Reach rt s₀ s
      → Reach rt s₀ (revoke_fresh rt input g s).1
  unfolding revoke_fresh
  revoke_fresh-Reach input g s found r = by_version _ _ _ s r (
      by_require _ _ _ s r λ _.
        by_if (is_terminal g.status) _ _ s (λ _. by_pure g s r)
          λ live. end_grant-Reach input g s found live r)

  pub revoke_grant-Reach :
      (input : RevokeGrant) (s : Service) → Reach rt s₀ s → Reach rt s₀ (revoke_grant rt input s).1
  unfolding revoke_grant
  revoke_grant-Reach input s r = by_find_grant _ _ s r λ g found.
      by_replay _ _ _ s r λ replay.
        by_if replay _ _ s (λ _. by_pure g s r) (λ _. revoke_fresh-Reach input g s found r)

-- What `decideGrant` has tested when it counts an approval.
abbrev PassedTests : DecideGrant → Grant → Type 0
PassedTests input g =
    (g.status ≡ pending_approval)
    × (str_eq input.actor.principal_id g.requester_principal_id ≡ false)
    × (contains input.actor.principal_id g.approval_principal_ids ≡ false)

-- The state that `decide_fresh` leaves when the decision is made.
abbrev stored : DecideGrant → Grant → Grant → Approval → Service → Service
stored input g g' a s =
    on_store
      (λ t. push_approval a (set_grant input.grant_id (record g' { version = g.version + 1 }) t)) s

not-true : (b : Bool) → not b ≡ true → b ≡ false
not-true b h = ground arith

leb→le : (a b : ℕ) → leb a b ≡ true → a ≤ b
leb→le a b h = ground arith

module _ (rt : Runtime) {s₀ : Service} {A : Type 0} (input : DecideGrant) (g : Grant) where
  -- Both decisions are changes that the protocol allows.
  by_decided :
      (d : Decision) (uuid : String) (at : ℕ) (k : Grant → Method A) (s : Service)
      → input.decision ≡ d
      → get input.grant_id s.grants ≡ some g
      → PassedTests input g
      → Reach rt s₀ s
      → ((g' : Grant) (t : Service)
          → Reach rt s₀ t
          → Change rt t (stored input g g' (grant_approval input g uuid at) t)
          → Reach rt s₀ (k g' t).1)
      → Reach rt s₀ ((decided rt d g (grant_approval input g uuid at) s.approvals >>= k) s).1
  unfolding decided approved primitives
  by_decided deny uuid at k s e found may r f =
      f _ s r (grant_denied s _ g _ denied g.revoked_at found (rw (may.0)) refl e refl)
  by_decided approve uuid at k s e found may r f =
      let a = grant_approval input g uuid at in
      let may_count : MayCount g a = record {
        kind = refl;
        target = refl;
        approves = e;
        not_requester = may.1;
        not_twice = may.2;
      } in
      elim (Bool-cases (leb g.required_approvals (length (candidates s g a)))) [
        | inr few ↦ rw few (f _ s r (grant_counted s _ g a found may.0 may_count))
        | inl enough ↦
            elim (Bool-cases
              (not (any (action_eq content_decrypt) g.actions) || any by_kms (candidates s g a))) [
                | inr refused ↦ rw (enough, refused) r
                | inl kms ↦
                    rw (enough, kms)
                      (f _ _ (next r (ticked s (suc s.clock_reads) s.uuids s.randoms (omega arith)))
                        (grant_activated _ _ g a _ found may.0 may_count (leb→le _ _ enough) kms))
              ]
      ]

module _ (rt : Runtime) {s₀ : Service} where
  audit_activation-Reach :
      (input : DecideGrant) (g : Grant) (s : Service)
      → Reach rt s₀ s
      → Reach rt s₀ (audit_activation rt input g s).1
  unfolding audit_activation
  audit_activation-Reach input g s r =
      by_if (status_eq g.status active)
        (append_audit rt (of_grant g) input.actor.principal_id "grant.activated" success
          "approval_threshold_met" input.correlation_id)
        (pure tt) s (λ _. append_audit-Reach _ _ _ _ _ _ s r) (λ _. by_pure tt s r)

  decide_fresh-Reach :
      (input : DecideGrant) (g : Grant) (s : Service)
      → get input.grant_id s.grants ≡ some g
      → Reach rt s₀ s
      → Reach rt s₀ (decide_fresh rt input g s).1
  unfolding decide_fresh
  decide_fresh-Reach input g s found r = by_version _ _ _ s r (
      by_require _ _ _ s r λ pending. by_require _ _ _ s r λ _. by_require _ _ _ s r λ other.
        by_require _ _ _ s r λ first. by_uuid _ s r λ r₁. by_clock _ _ r₁ λ r₂. by_gets _ _ _ (
          by_decided rt input g input.decision _ _ _ _ refl found
            (status_eq_sound _ _ pending, not-true _ other, not-true _ first) r₂
            λ g' t r₃ c. by_two _ _ _ t r₃ c λ r₄. by_modify _ _ _ r₄ (remembered _ _ _) λ r₅.
              by_audit _ _ _ _ _ _ _ _ r₅ λ u r₆.
                let r₇ = audit_activation-Reach input _ u r₆ in
                by_method _ _ u r₇ λ _ _. by_pure _ _ r₇))

  pub decide_grant-Reach :
      (input : DecideGrant) (s : Service) → Reach rt s₀ s → Reach rt s₀ (decide_grant rt input s).1
  unfolding decide_grant
  decide_grant-Reach input s r = by_find_grant _ _ s r λ g found. by_replay _ _ _ s r λ replay.
      by_if replay (pure g) (decide_fresh rt input g) s (λ _. by_pure g s r)
        (λ _. decide_fresh-Reach input g s found r)

  -- A new grant has a fresh identifier: drawing it and storing the grant are one change.
  by_open :
      {A : Type 0} (input : CreateGrant) (at : ℕ) (k : Grant → Method A) (s : Service)
      → Reach rt s₀ s
      → ((g : Grant) (t : Service) → Reach rt s₀ t → Reach rt s₀ (k g t).1)
      → Reach rt s₀
          ((random_uuid rt >>= λ uuid. parse_grant (new_grant input uuid at) >>= λ g.
              modify (on_store (set_grant g.grant_id g)) >>= λ _. k g)
            s).1
  unfolding primitives parse_grant
  by_open input at k s r f =
      elim (Bool-cases (is_schema_grant (new_grant input (rt.uuid s.uuids) at))) [
        | inl valid ↦ rw valid (f _ _ (next r (grant_opened s input at)))
        | inr refused ↦
            rw refused (next r (ticked s s.clock_reads (suc s.uuids) s.randoms (omega arith)))
      ]

  open_grant-Reach :
      (input : CreateGrant) (s : Service) → Reach rt s₀ s → Reach rt s₀ (open_grant rt input s).1
  unfolding open_grant
  open_grant-Reach input s r = by_clock _ s r λ r₁.
      by_open input _ _ _ r₁ λ g t r₂.
        by_modify _ _ t r₂ (remembered _ _ _) λ r₃. by_audit _ _ _ _ _ _ _ _ r₃ (by_pure _)

  pub create_grant-Reach :
      (input : CreateGrant) (s : Service) → Reach rt s₀ s → Reach rt s₀ (create_grant rt input s).1
  unfolding create_grant
  create_grant-Reach input s r = by_require _ _ _ s r λ _. by_require _ _ _ s r λ _.
      by_require _ _ _ s r λ _. by_require _ _ _ s r λ _. by_require _ _ _ s r λ _. by_gets _ _ s (
        by_if (truthy (get (str_append "grant:" input.idempotency_key) s.idempotency))
          (gets (λ t.
            get_existing (get (str_append "grant:" input.idempotency_key) s.idempotency) t.grants))
          (open_grant rt input) s (λ _. by_gets' _ s r) (λ _. open_grant-Reach input s r))
