-- ===== src/SupportAccess/Run/Approvals.antt =====
-- What a decision does to the approvals of a grant, and to those of the others.
use perseverance.Prelude.{
  ℕ, ◌+◌, String, ◌≡◌, refl, true, false, List, [], ◌∷◌, ◌++◌, Option, some, arith,
  filter-snoc_refused, str_eq,
}
use perseverance.SupportAccess.Types.{
  pending_verification, pending_approval, deny, Status, Grant, Approval, Service, is_terminal,
  is_grant_kind,
}
use perseverance.SupportAccess.Grants.{approves}
use perseverance.SupportAccess.Protocol.{ended, MayCount}
use perseverance.SupportAccess.Run.FourEyes.{approvals_for, IsSound}

-- A pushed approval that does not count for a grant leaves the grant's approvals as they were.
pub others-pushed :
    (s : Service) (a : Approval) (j : String)
    → approves j a ≡ false
    → approvals_for j (s.approvals ++ a ∷ []) ≡ approvals_for j s.approvals
others-pushed s a j e = filter-snoc_refused (approves j) s.approvals a e

pub counts_elsewhere :
    (g : Grant) (a : Approval) (id j : String)
    → MayCount g a
    → g.grant_id ≡ id
    → str_eq id j ≡ false
    → approves j a ≡ false
counts_elsewhere g a id j may e h = rw (may.kind, may.target, e, h)

pub not-active_of_terminal :
    (s : Service) (g : Grant) (log : List Approval) (status : Status) (at : Option ℕ)
    → is_terminal status ≡ true
    → approvals_for g.grant_id log ≡ approvals_for g.grant_id s.approvals
    → IsSound s.approvals g
    → IsSound log (ended g status at)
not-active_of_terminal s g log status at over e h = record {
  recorded = rw e h.recorded;
  all_different = h.all_different;
  not_requester = h.not_requester;
  threshold = h.threshold;
  verified = λ p. ground arith;
  verified_active = λ p. ground arith;
  enough = λ p. absurd (ground arith);
  kms = λ p. absurd (ground arith);
}

pub denied_ignored : (a : Approval) (j : String) → a.decision ≡ deny → approves j a ≡ false
denied_ignored a j h = ground arith

pub other_kind_ignored :
    (a : Approval) (j : String) → is_grant_kind a.aggregate_kind ≡ false → approves j a ≡ false
other_kind_ignored a j h = rw h

pub verified-IsSound :
    (log : List Approval) (g : Grant) (evidence : String)
    → g.status ≡ pending_verification
    → IsSound log g
    → IsSound log (record g {
      mfa_evidence_id = some evidence;
      status = pending_approval;
      version = g.version + 1;
    })
verified-IsSound log g evidence e h = record {
  recorded = h.recorded;
  all_different = h.all_different;
  not_requester = h.not_requester;
  threshold = h.threshold;
  verified = λ _. refl;
  verified_active = λ _. refl;
  enough = λ p. absurd (ground arith);
  kms = λ p. absurd (ground arith);
}
