-- ===== src/SupportAccess/Protocol/Requests.antt =====
-- The methods on break-glass requests follow the protocol.
use Prim.Native.String.{◌++◌ as str_append}
use text.Mathlib.TextPositions.{eq_refl}
use perseverance.Prelude.{
  ℕ, String, ◌≡◌, refl, Bool, true, false, not, ◌&&◌, ◌||◌, some, List, [], ◌∷◌, ◌++◌, ◌==◌, arith,
  any, length, filter, if◌then◌else◌, filter-snoc,
}
use perseverance.Prelude.Text.{truthy}
use perseverance.Prelude.Map.{get, get-set_self}
use perseverance.Prelude.Exec.{pure, gets, modify, ◌>>=◌}
use perseverance.SupportAccess.Types.{
  content_decrypt, pending_approval, revoked, BreakGlass, Approval, Service, Runtime, Method,
  action_eq,
}
use perseverance.SupportAccess.Store.{on_store, set_break_glass, primitives, random_uuid}
use perseverance.SupportAccess.Grants.{get_existing, by_kms}
use perseverance.SupportAccess.BreakGlass.{
  CreateBreakGlass, VerifyBreakGlass, ApproveBreakGlass, RevokeBreakGlass, new_break_glass,
  is_for_request, break_glass_approval, open_break_glass, create_break_glass, reverify,
  verify_break_glass_mfa, activate, approve_fresh, approve_break_glass, revoke_break_glass,
}
use perseverance.SupportAccess.Protocol.{
  Reach, next, remembered, break_glass_opened, break_glass_verified, break_glass_counted,
  break_glass_activated, break_glass_ended, outbox_set, request_approvals, counted_break_glass,
}
use perseverance.SupportAccess.Protocol.Rules.{
  by_require, by_version, by_find_break_glass, by_replay, by_method, by_if, by_pure, by_gets,
  by_gets', by_modify, by_two, by_clock, by_uuid, by_audit, by_revoke_leases,
  queue_tenant_notification-Reach,
}
use perseverance.SupportAccess.Protocol.Grants.{status_eq_sound}

not_or : (a b : Bool) → not (a || b) ≡ true → (a ≡ false) × (b ≡ false)
not_or a b h = ground arith

kms_present :
    (n : ℕ) (decrypts kms : Bool)
    → not (n == 2 && decrypts && not kms) ≡ true
    → (n == 2) ≡ true
    → (n ≡ 2) × ((not decrypts || kms) ≡ true)
kms_present n decrypts kms h e = ground arith

module _ (rt : Runtime) {s₀ : Service} where
  -- As for grants: drawing the identifier and storing the request are one change.
  by_open :
      {A : Type 0} (input : CreateBreakGlass) (at : ℕ) (k : String → Unit {0} → Method A)
      (s : Service)
      → Reach rt s₀ s
      → ((t : Service) → Reach rt s₀ t → Reach rt s₀ (k (rt.uuid s.uuids) tt t).1)
      → Reach rt s₀
          ((random_uuid rt >>= λ uuid.
              modify (
                on_store (
                  set_break_glass
                    (new_break_glass input uuid at).break_glass_id
                    (new_break_glass input uuid at)))
              >>= k uuid)
            s).1
  unfolding primitives
  by_open input at k s r f = f _ (next r (break_glass_opened s input at))

  open_break_glass-Reach :
      (input : CreateBreakGlass) (s : Service)
      → Reach rt s₀ s
      → Reach rt s₀ (open_break_glass rt input s).1
  unfolding open_break_glass
  open_break_glass-Reach input s r = by_clock _ s r λ r₁.
      by_open input _ _ _ r₁
        λ t r₂. by_modify _ _ t r₂ (remembered _ _ _) λ r₃. by_audit _ _ _ _ _ _ _ _ r₃ (by_pure _)

  pub create_break_glass-Reach :
      (input : CreateBreakGlass) (s : Service)
      → Reach rt s₀ s
      → Reach rt s₀ (create_break_glass rt input s).1
  unfolding create_break_glass
  create_break_glass-Reach input s r =
      let existing = get (str_append "break-glass:" input.idempotency_key) s.idempotency in
      by_require _ _ _ s r λ _. by_require _ _ _ s r λ _. by_require _ _ _ s r λ _.
        by_require _ _ _ s r λ _. by_gets _ _ s (
          by_if (truthy existing) (gets (λ t. get_existing existing t.break_glass))
            (open_break_glass rt input) s (λ _. by_gets' _ s r)
            (λ _. open_break_glass-Reach input s r))

  reverify-Reach :
      (input : VerifyBreakGlass) (b : BreakGlass) (s : Service)
      → get input.break_glass_id s.break_glass ≡ some b
      → Reach rt s₀ s
      → Reach rt s₀ (reverify rt input b s).1
  unfolding reverify
  reverify-Reach input b s found r = by_version _ _ _ s r (
      by_require _ _ _ s r λ _.
        by_modify _ _ s r (break_glass_verified s _ _ b found)
          λ r₁. by_modify _ _ _ r₁ (remembered _ _ _) λ r₂. by_audit _ _ _ _ _ _ _ _ r₂ (by_pure _))

  pub verify_break_glass_mfa-Reach :
      (input : VerifyBreakGlass) (s : Service)
      → Reach rt s₀ s
      → Reach rt s₀ (verify_break_glass_mfa rt input s).1
  unfolding verify_break_glass_mfa
  verify_break_glass_mfa-Reach input s r = by_find_break_glass _ _ s r λ b found.
      by_replay _ _ _ s r λ replay.
        by_if replay (pure b) (reverify rt input b) s (λ _. by_pure b s r)
          (λ _. reverify-Reach input b s found r)

  activate-Reach :
      (input : ApproveBreakGlass) (b : BreakGlass) (s : Service)
      → get input.break_glass_id s.break_glass ≡ some b
      → b.status ≡ pending_approval
      → length (request_approvals s b) ≡ 2
      → (not (any (action_eq content_decrypt) b.actions) || any by_kms (request_approvals s b))
        ≡ true
      → Reach rt s₀ s
      → Reach rt s₀ (activate rt input b s).1
  unfolding activate
  activate-Reach input b s found pending two kms r = by_uuid _ s r λ r₁. by_clock _ _ r₁ λ r₂.
      by_modify _ _ _ r₂ (outbox_set _ _) λ r₃. by_clock _ _ r₃ λ r₄.
        by_modify _ _ _ r₄ (break_glass_activated _ _ b _ found pending two kms)
          λ r₅. by_audit _ _ _ _ _ _ _ _ r₅ λ t r₆. by_audit _ _ _ _ _ _ _ t r₆ (by_pure _)

  -- The approval `a` was just counted: it is the second one, or the request waits on.
  second_approval-Reach :
      (input : ApproveBreakGlass) (b : BreakGlass) (earlier : List Approval) (a : Approval)
      (t : Service)
      → let candidates = filter (is_for_request b.break_glass_id) earlier ++ a ∷ [] in
        let c = counted_break_glass b a in
        get input.break_glass_id t.break_glass ≡ some c
        → b.status ≡ pending_approval
        → t.approvals ≡ earlier ++ a ∷ []
        → is_for_request b.break_glass_id a ≡ true
        → not (
            length candidates == 2
            && any (action_eq content_decrypt) b.actions
            && not (any by_kms candidates))
          ≡ true
        → Reach rt s₀ t
        → Reach rt s₀ ((if length candidates == 2 then activate rt input c else pure c) t).1
  second_approval-Reach input b earlier a t found pending now mine kms r =
      let c = counted_break_glass b a in
      let candidates = filter (is_for_request b.break_glass_id) earlier ++ a ∷ [] in
      let same : request_approvals t c ≡ candidates =
        rw now (filter-snoc (is_for_request b.break_glass_id) earlier a mine) in
      by_if (length candidates == 2) (activate rt input c) (pure c) t
        (λ two.
          let k = kms_present (length candidates) _ _ kms two in
          activate-Reach input c t found pending (rw same k.0) (rw same k.1) r)
        (λ _. by_pure c t r)

  approve_fresh-Reach :
      (input : ApproveBreakGlass) (b : BreakGlass) (s : Service)
      → get input.break_glass_id s.break_glass ≡ some b
      → Reach rt s₀ s
      → Reach rt s₀ (approve_fresh rt input b s).1
  unfolding approve_fresh
  approve_fresh-Reach input b s found r = by_version _ _ _ s r (
      by_require _ _ _ s r λ pending. by_require _ _ _ s r λ _. by_require _ _ _ s r λ other.
        by_uuid _ s r λ r₁. by_clock _ _ r₁ λ r₂. by_gets _ _ _ (
          by_require _ _ _ _ r₂ λ kms.
            by_two _ _ _ _ r₂
              (break_glass_counted _ _ b _ found (status_eq_sound _ _ pending) (record {
                kind = refl;
                target = refl;
                not_requester = (not_or _ _ other).0;
                not_twice = (not_or _ _ other).1;
              }))
              λ r₃.
                let r₄ =
                  second_approval-Reach input b s.approvals (break_glass_approval input b _ _) _
                    (get-set_self _ _ _) (status_eq_sound _ _ pending) refl
                    (eq_refl b.break_glass_id) kms r₃ in
                by_method _ _ _ r₄ λ b' _. by_modify _ _ _ r₄ (remembered _ _ _) (by_pure b' _)))

  pub approve_break_glass-Reach :
      (input : ApproveBreakGlass) (s : Service)
      → Reach rt s₀ s
      → Reach rt s₀ (approve_break_glass rt input s).1
  unfolding approve_break_glass
  approve_break_glass-Reach input s r = by_find_break_glass _ _ s r λ b found.
      by_replay _ _ _ s r λ replay.
        by_if replay (pure b) (approve_fresh rt input b) s (λ _. by_pure b s r)
          (λ _. approve_fresh-Reach input b s found r)

  pub revoke_break_glass-Reach :
      (input : RevokeBreakGlass) (s : Service)
      → Reach rt s₀ s
      → Reach rt s₀ (revoke_break_glass rt input s).1
  unfolding revoke_break_glass
  revoke_break_glass-Reach input s r = by_find_break_glass _ _ s r λ b found. by_version _ _ _ s r (
      by_require _ _ _ s r λ _. by_clock _ s r λ r₁.
        by_modify _ _ _ r₁ (break_glass_ended _ _ b revoked _ found refl) λ r₂.
          by_revoke_leases _ _ _ _ r₂ λ t r₃.
            let r₄ = queue_tenant_notification-Reach _ t r₃ in
            by_method _ _ t r₄ λ _ _. by_audit _ _ _ _ _ _ _ _ r₄ (by_pure _))
