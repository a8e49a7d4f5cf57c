-- ===== src/SupportAccess/Run/Requests.antt =====
-- The rules for break-glass requests: who must have approved what is active.
use Prim.Native.String.{◌++◌ as str_append}
use mathlib.Core.List.{map-append}
use text.Mathlib.TextPositions.{eq_refl}
use perseverance.Prelude.{
  ℕ, ◌<◌, String, ◌≡◌, refl, sym, ap, ◌∙◌, true, false, not, ◌||◌, List, [], ◌∷◌, ◌++◌, Option,
  none, some, arith, length, filter, any, contains, filter-snoc, filter-snoc_refused, str_eq,
  is_some,
}
use perseverance.Prelude.Map.{get}
use perseverance.SupportAccess.Types.{
  content_decrypt, pending_approval, active, Status, BreakGlass, Approval, Service, Runtime,
  action_eq, is_terminal, is_grant_kind,
}
use perseverance.SupportAccess.Grants.{by_kms}
use perseverance.SupportAccess.BreakGlass.{is_for_request}
use perseverance.SupportAccess.Protocol.{
  MayCountBreakGlass, counted_break_glass, activated_break_glass, ended_break_glass, reverified,
}
use perseverance.SupportAccess.Run.FourEyes.{
  approvers, distinct, distinct-snoc, contains-snoc, length-approvers,
}

abbrev pub request_approvals_in : String → List Approval → List Approval
request_approvals_in id = filter (is_for_request id)

-- The request's approvers are those of the recorded approvals, all different, none the requester;
-- and an active request has exactly two of them, one in the role of a KMS operator where content is
-- decrypted, and evidence of MFA.
pub record IsApproved (approvals : List Approval) (b : BreakGlass) : Type 0 where
  pub recorded :
      approvers (request_approvals_in b.break_glass_id approvals) ≡ b.approval_principal_ids
  pub all_different : distinct b.approval_principal_ids ≡ true
  pub not_requester : contains b.requester_principal_id b.approval_principal_ids ≡ false
  pub verified : b.status ≡ pending_approval → is_some b.mfa_evidence_id ≡ true
  pub verified_active : b.status ≡ active → is_some b.mfa_evidence_id ≡ true
  pub two : b.status ≡ active → length b.approval_principal_ids ≡ 2
  pub kms :
      b.status ≡ active
      → any (action_eq content_decrypt) b.actions ≡ true
      → any by_kms (request_approvals_in b.break_glass_id approvals) ≡ true

-- The state of requests and approvals between two calls.
pub record AreApproved (rt : Runtime) (s : Service) : Type 0 where
  pub keyed : (id : String) (b : BreakGlass) → get id s.break_glass ≡ some b → b.break_glass_id ≡ id
  pub drawn :
      (id : String) (b : BreakGlass)
      → get id s.break_glass ≡ some b
      → (n : ℕ) × (n < s.uuids) × (id ≡ str_append "bgr_" (rt.uuid n))
  pub unknown :
      (id : String) → get id s.break_glass ≡ none → request_approvals_in id s.approvals ≡ []
  pub sound :
      (id : String) (b : BreakGlass) → get id s.break_glass ≡ some b → IsApproved s.approvals b

module _ {old log : List Approval} {b : BreakGlass} where
  pub IsApproved-transport :
      request_approvals_in b.break_glass_id log ≡ request_approvals_in b.break_glass_id old
      → IsApproved old b
      → IsApproved log b
  IsApproved-transport e h = record {
    recorded = rw e h.recorded;
    all_different = h.all_different;
    not_requester = h.not_requester;
    verified = h.verified;
    verified_active = h.verified_active;
    two = h.two;
    kms = rw e h.kms;
  }

module _ (log : List Approval) (b : BreakGlass) (h : IsApproved log b) where
  pub reverified-IsApproved : (evidence : String) → IsApproved log (reverified b evidence)
  reverified-IsApproved evidence = record {
    recorded = h.recorded;
    all_different = h.all_different;
    not_requester = h.not_requester;
    verified = λ _. refl;
    verified_active = λ _. refl;
    two = λ p. absurd (ground arith);
    kms = λ p. absurd (ground arith);
  }

  pub ended-IsApproved :
      (status : Status) (at : Option ℕ)
      → is_terminal status ≡ true
      → IsApproved log (ended_break_glass b status at)
  ended-IsApproved status at over = record {
    recorded = h.recorded;
    all_different = h.all_different;
    not_requester = h.not_requester;
    verified = λ p. ground arith;
    verified_active = λ p. ground arith;
    two = λ p. absurd (ground arith);
    kms = λ p. absurd (ground arith);
  }

  pub activated-IsApproved :
      (now : ℕ)
      → b.status ≡ pending_approval
      → length (request_approvals_in b.break_glass_id log) ≡ 2
      → (not (any (action_eq content_decrypt) b.actions)
          || any by_kms (request_approvals_in b.break_glass_id log))
        ≡ true
      → IsApproved log (activated_break_glass b now)
  activated-IsApproved now pending many kms = record {
    recorded = h.recorded;
    all_different = h.all_different;
    not_requester = h.not_requester;
    verified = λ _. h.verified pending;
    verified_active = λ _. h.verified pending;
    two = λ _. ap length (sym h.recorded) ∙ length-approvers _ ∙ many;
    kms = λ _ decrypts. ground (arith, decrypts, kms);
  }

  pub counted-IsApproved :
      (a : Approval)
      → b.status ≡ pending_approval
      → MayCountBreakGlass b a
      → IsApproved (log ++ a ∷ []) (counted_break_glass b a)
  counted-IsApproved a pending may =
      let counts : is_for_request b.break_glass_id a ≡ true =
        rw (may.kind, may.target) (eq_refl b.break_glass_id) in
      record {
        recorded = rw (filter-snoc (is_for_request b.break_glass_id) log a counts) (
            map-append _ (request_approvals_in b.break_glass_id log) (a ∷ [])
            ∙ ap (λ (xs : List String). xs ++ a.approver_principal_id ∷ []) h.recorded);
        all_different =
            distinct-snoc b.approval_principal_ids a.approver_principal_id h.all_different
              may.not_twice;
        not_requester =
            contains-snoc b.approval_principal_ids _ _ h.not_requester may.not_requester;
        verified = h.verified;
        verified_active = h.verified_active;
        two = λ p. absurd (differ p);
        kms = λ p. absurd (differ p);
      }
    where
      differ : b.status ≡ active → ⊥
      differ p = cc

pub counts_elsewhere_in :
    (b : BreakGlass) (a : Approval) (id j : String)
    → MayCountBreakGlass b a
    → b.break_glass_id ≡ id
    → str_eq id j ≡ false
    → is_for_request j a ≡ false
counts_elsewhere_in b a id j may e h = rw (may.kind, may.target, e, h)

pub grant_ignored :
    (log : List Approval) (a : Approval) (j : String)
    → is_grant_kind a.aggregate_kind ≡ true
    → request_approvals_in j (log ++ a ∷ []) ≡ request_approvals_in j log
grant_ignored log a j kind = filter-snoc_refused (is_for_request j) log a (rw kind)
