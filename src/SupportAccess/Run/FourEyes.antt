-- ===== src/SupportAccess/Run/FourEyes.antt =====
-- The four-eyes rules under any calls: who must have approved what is active.
use Prim.Native.String.{◌++◌ as str_append}
use mathlib.Core.List.{map-append}
use text.Mathlib.TextPositions.{eq_refl}
use perseverance.Prelude.{
  ℕ, suc, ◌≤◌, ◌<◌, String, ◌≡◌, refl, sym, ap, ◌∙◌, subst, Bool, true, false, not, ◌&&◌, ◌||◌,
  List, [], ◌∷◌, ◌++◌, map, none, some, arith, length, filter, any, contains, filter-snoc, str_eq,
  eq_iff, any-append, if◌then◌else◌, is_some,
}
use perseverance.Prelude.Map.{get}
use perseverance.SupportAccess.Types.{
  Action, content_decrypt, pending_approval, active, Grant, Approval, Service, Runtime, action_eq,
  is_high_risk,
}
use perseverance.SupportAccess.Grants.{dedupe, approves, by_kms}
use perseverance.SupportAccess.Protocol.{activated, MayCount, counted, candidates}

abbrev pub approvers : List Approval → List String
approvers = map (λ a. a.approver_principal_id)

-- No text stands twice.
abbrev pub distinct : List String → Bool
distinct [] = true
distinct (x ∷ xs) = not (contains x xs) && distinct xs

abbrev pub approvals_for : String → List Approval → List Approval
approvals_for id = filter (approves id)

-- The grant's approvers are those of the recorded approvals, all different, none the requester; two
-- are required for a high-risk action; and an active grant has enough of them, one in the role of a
-- KMS operator where content is decrypted, and evidence of MFA.
pub record IsSound (approvals : List Approval) (g : Grant) : Type 0 where
  pub recorded : approvers (approvals_for g.grant_id approvals) ≡ g.approval_principal_ids
  pub all_different : distinct g.approval_principal_ids ≡ true
  pub not_requester : contains g.requester_principal_id g.approval_principal_ids ≡ false
  pub threshold : g.required_approvals ≡ (if any is_high_risk g.actions then 2 else 1)
  pub verified : g.status ≡ pending_approval → is_some g.mfa_evidence_id ≡ true
  pub verified_active : g.status ≡ active → is_some g.mfa_evidence_id ≡ true
  pub enough : g.status ≡ active → g.required_approvals ≤ length g.approval_principal_ids
  pub kms :
      g.status ≡ active
      → any (action_eq content_decrypt) g.actions ≡ true
      → any by_kms (approvals_for g.grant_id approvals) ≡ true

-- The state of grants and approvals between two calls.
pub record IsOrderly (rt : Runtime) (s : Service) : Type 0 where
  pub keyed : (id : String) (g : Grant) → get id s.grants ≡ some g → g.grant_id ≡ id
  pub drawn :
      (id : String) (g : Grant)
      → get id s.grants ≡ some g
      → (n : ℕ) × (n < s.uuids) × (id ≡ str_append "sgr_" (rt.uuid n))
  pub unknown : (id : String) → get id s.grants ≡ none → approvals_for id s.approvals ≡ []
  pub sound : (id : String) (g : Grant) → get id s.grants ≡ some g → IsSound s.approvals g

-- `randomUUID` never gives the same text twice.
abbrev pub Fresh : Runtime → Type 0
Fresh rt = (m n : ℕ) → rt.uuid m ≡ rt.uuid n → m ≡ n

pub distinct-snoc :
    (xs : List String) (x : String)
    → distinct xs ≡ true
    → contains x xs ≡ false
    → distinct (xs ++ x ∷ []) ≡ true
distinct-snoc [] x h e = refl
distinct-snoc (y ∷ xs) x h e =
    ground
      (arith, distinct-snoc xs x, any-append (λ z. str_eq z y) xs (x ∷ []), eq_iff x y, eq_iff y x)

pub contains-snoc :
    (xs : List String) (x y : String)
    → contains y xs ≡ false
    → str_eq x y ≡ false
    → contains y (xs ++ x ∷ []) ≡ false
contains-snoc xs x y h e = rw any-append (rw (h, e))

pub length-approvers : (as' : List Approval) → length (approvers as') ≡ length as'
length-approvers [] = refl
length-approvers (a ∷ as') = ap suc (length-approvers as')

high_risk_seen :
    (a : Action) (seen : List Action)
    → any (action_eq a) seen ≡ true
    → is_high_risk a ≡ true
    → any is_high_risk seen ≡ true
high_risk_seen a [] h e = h
high_risk_seen a (x ∷ seen) h e = ground (arith, high_risk_seen a seen)

-- Removing repeated actions keeps the risk.
pub high_risk-dedupe :
    (seen xs : List Action)
    → (any is_high_risk seen || any is_high_risk (dedupe seen xs))
      ≡ (any is_high_risk seen || any is_high_risk xs)
high_risk-dedupe seen [] = refl
high_risk-dedupe seen (x ∷ xs) =
    ground (arith, high_risk-dedupe seen xs, high_risk-dedupe (x ∷ seen) xs, high_risk_seen x seen)

module _ {old log : List Approval} {g : Grant} where
  -- Only the approvals of the grant itself count.
  pub IsSound-transport :
      approvals_for g.grant_id log ≡ approvals_for g.grant_id old → IsSound old g → IsSound log g
  IsSound-transport e h = record {
    recorded = rw e h.recorded;
    all_different = h.all_different;
    not_requester = h.not_requester;
    threshold = h.threshold;
    verified = h.verified;
    verified_active = h.verified_active;
    enough = h.enough;
    kms = rw e h.kms;
  }

module _ (s : Service) (g : Grant) (a : Approval) (may : MayCount g a)
    (h : IsSound s.approvals g) where
  counts : approves g.grant_id a ≡ true
  counts = rw (may.kind, may.target, may.approves, eq_refl g.grant_id)

  approvals_for-pushed : approvals_for g.grant_id (s.approvals ++ a ∷ []) ≡ candidates s g a
  approvals_for-pushed = filter-snoc (approves g.grant_id) s.approvals a counts

  recorded-pushed :
      approvers (approvals_for g.grant_id (s.approvals ++ a ∷ []))
      ≡ g.approval_principal_ids ++ a.approver_principal_id ∷ []
  recorded-pushed = rw approvals_for-pushed (
      map-append _ (approvals_for g.grant_id s.approvals) (a ∷ [])
      ∙ ap (λ (xs : List String). xs ++ a.approver_principal_id ∷ []) h.recorded)

  pub counted-IsSound : g.status ≡ pending_approval → IsSound (s.approvals ++ a ∷ []) (counted g a)
  counted-IsSound pending = record {
    recorded = recorded-pushed;
    all_different =
        distinct-snoc g.approval_principal_ids a.approver_principal_id h.all_different
          may.not_twice;
    not_requester = contains-snoc g.approval_principal_ids _ _ h.not_requester may.not_requester;
    threshold = h.threshold;
    verified = h.verified;
    verified_active = λ e. absurd (differ e);
    enough = λ e. absurd (differ e);
    kms = λ e. absurd (differ e);
  }
    where
      differ : g.status ≡ active → ⊥
      differ e = cc

  pub activated-IsSound :
      (now : ℕ)
      → g.status ≡ pending_approval
      → g.required_approvals ≤ length (candidates s g a)
      → (not (any (action_eq content_decrypt) g.actions) || any by_kms (candidates s g a)) ≡ true
      → IsSound (s.approvals ++ a ∷ []) (activated g a now)
  activated-IsSound now pending many kms = record {
    recorded = recorded-pushed;
    all_different =
        distinct-snoc g.approval_principal_ids a.approver_principal_id h.all_different
          may.not_twice;
    not_requester = contains-snoc g.approval_principal_ids _ _ h.not_requester may.not_requester;
    threshold = h.threshold;
    verified = λ _. h.verified pending;
    verified_active = λ _. h.verified pending;
    enough = λ _.
        subst (λ n. g.required_approvals ≤ n)
          (sym (length-approvers (candidates s g a))
            ∙ ap length (ap approvers (sym approvals_for-pushed) ∙ recorded-pushed))
          many;
    kms = λ _ decrypts. rw approvals_for-pushed (ground (arith, decrypts, kms));
  }
