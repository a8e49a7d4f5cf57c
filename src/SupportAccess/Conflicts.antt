-- ===== src/SupportAccess/Conflicts.antt =====
-- What the requester's verification does to a break-glass request in any status.
use Prim.Native.String.{◌++◌ as str_append}
use perseverance.Prelude.{String, ◌≡◌, refl, true, none, some, ◌==◌, str_eq}
use perseverance.Prelude.Map.{get, get-set_self}
use perseverance.Prelude.Exec.{ok, or_throw}
use perseverance.SupportAccess.Types.{BreakGlass, Service, Runtime}
use perseverance.SupportAccess.Store.{primitives}
use perseverance.SupportAccess.BreakGlass.{VerifyBreakGlass, reverify, verify_break_glass_mfa}
use perseverance.SupportAccess.Protocol.{reverified}

abbrev Unseen : String → Service → Type 0
Unseen key s = get key s.idempotency ≡ none

module _ (rt : Runtime) (s : Service) where
  -- In every status, a revoked, expired or denied request included, the requester's verification with
  -- the current version and an unused key makes a break-glass request wait for approval again, with
  -- the approvals that it had.
  pub verify_break_glass_mfa-revives :
      (input : VerifyBreakGlass) (b : BreakGlass)
      → get input.break_glass_id s.break_glass ≡ some b
      → Unseen (str_append "break-mfa:" input.idempotency_key) s
      → (b.version == input.expected_version) ≡ true
      → str_eq input.actor.principal_id b.requester_principal_id ≡ true
      → let after = verify_break_glass_mfa rt input s in
        (after.0 ≡ ok (reverified b input.mfa_evidence_id))
        × (get input.break_glass_id after.1.break_glass ≡ some (reverified b input.mfa_evidence_id))
        × (after.1.approvals ≡ s.approvals)
        × (after.1.leases ≡ s.leases)
  unfolding verify_break_glass_mfa reverify primitives
  verify_break_glass_mfa-revives input b found fresh current requester =
      rw (found, or_throw)
        (rw (fresh, current, requester)
          (
            refl,
            get-set_self input.break_glass_id (reverified b input.mfa_evidence_id) s.break_glass,
            refl,
            refl,
          ))
