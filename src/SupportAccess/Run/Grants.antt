-- ===== src/SupportAccess/Run/Grants.antt =====
-- The rules for grants under sequences of calls.
use Prim.Native.String.{◌++◌ as str_append}
use text.Mathlib.TextLemmas.{append_cancel_left}
use perseverance.Prelude.{
  ℕ, suc, ◌≤◌, String, ◌≡◌, refl, sym, ap, ◌∙◌, subst, false, List, [], ◌∷◌, ◌++◌, none, some, inl,
  inr, arith, str_eq, Option-cases,
}
use perseverance.Prelude.Map.{get, set, get-set_cases, get-set-none}
use perseverance.SupportAccess.Store.{set_grant}
use perseverance.SupportAccess.Types.{Grant, Service, Runtime}
use perseverance.SupportAccess.Grants.{CreateGrant}
use perseverance.SupportAccess.Protocol.{
  Change, Reach, here, next, ticked, grant_opened, grant_verified, grant_counted, grant_activated,
  grant_denied, grant_ended, break_glass_counted, lease_issued, break_glass_opened, counted,
  activated, ended, opened,
}
use perseverance.SupportAccess.Run.{Call, run, run-Reach}
use perseverance.SupportAccess.Run.FourEyes.{
  approvals_for, IsSound, IsOrderly, Fresh, high_risk-dedupe, IsSound-transport, counted-IsSound,
  activated-IsSound,
}
use perseverance.SupportAccess.Run.Approvals.{
  others-pushed, counts_elsewhere, not-active_of_terminal, denied_ignored, other_kind_ignored,
  verified-IsSound,
}

module _ {rt : Runtime} where
  -- A change that leaves grants and approvals alone.
  keep-IsOrderly :
      {s t : Service}
      → t.grants ≡ s.grants
      → ((id : String) → approvals_for id t.approvals ≡ approvals_for id s.approvals)
      → s.uuids ≤ t.uuids
      → IsOrderly rt s
      → IsOrderly rt t
  keep-IsOrderly {s} {t} same others later h = record {
    keyed = λ id g e. h.keyed id g (rw (← same) e);
    drawn =
        λ id g e. let (n, below, drawn) = h.drawn id g (rw (← same) e) in (n, omega arith, drawn);
    unknown = λ id e. others id ∙ h.unknown id (rw (← same) e);
    sound = λ id g e. IsSound-transport (others g.grant_id) (h.sound id g (rw (← same) e));
  }

  -- A grant of the store is replaced, and approvals of that grant alone may be added.
  module _ {s t : Service} (id : String) (g g' : Grant) (found : get id s.grants ≡ some g)
      (stored : t.grants ≡ set id g' s.grants) (same_uuids : t.uuids ≡ s.uuids)
      (same_id : g'.grant_id ≡ g.grant_id)
      (others : (j : String)
        → str_eq id j ≡ false
        → approvals_for j t.approvals ≡ approvals_for j s.approvals)
      (new : IsSound s.approvals g → IsSound t.approvals g') (h : IsOrderly rt s) where
    replace-IsOrderly : IsOrderly rt t
    replace-IsOrderly = record {
      keyed = λ j x e. elim (get-set_cases id j g' x s.grants (rw stored at e)) [
        | inl (p, q) ↦ ap (λ (y : Grant). y.grant_id) (sym q) ∙ same_id ∙ h.keyed id g found ∙ p
        | inr (p, q) ↦ h.keyed j x q
      ];
      drawn = λ j x e. elim (get-set_cases id j g' x s.grants (rw stored at e)) [
        | inl (p, q) ↦ let (n, below, drawn) = h.drawn id g found in (n, omega arith, sym p ∙ drawn)
        | inr (p, q) ↦ let (n, below, drawn) = h.drawn j x q in (n, omega arith, drawn)
      ];
      unknown = λ j e.
          let (p, q) = get-set-none id j g' s.grants (rw stored at e) in others j p ∙ h.unknown j q;
      sound = λ j x e. elim (get-set_cases id j g' x s.grants (rw stored at e)) [
        | inl (p, q) ↦ subst (IsSound t.approvals) q (new (h.sound id g found))
        | inr (p, q) ↦ IsSound-transport (others x.grant_id (rw (h.keyed j x q) p)) (h.sound j x q)
      ];
    }

  opened-absent :
      (s : Service)
      → Fresh rt
      → IsOrderly rt s
      → get (str_append "sgr_" (rt.uuid s.uuids)) s.grants ≡ none
  opened-absent s fresh h =
      elim (Option-cases (get (str_append "sgr_" (rt.uuid s.uuids)) s.grants)) [
        | inl e ↦ e
        | inr (g, e) ↦
            let (n, below, drawn) = h.drawn _ g e in
            let same : s.uuids ≡ n = fresh _ _ (append_cancel_left "sgr_" _ _ drawn) in
            absurd (omega arith)
      ]

  opened-IsSound :
      (s : Service) (input : CreateGrant) (at : ℕ)
      → Fresh rt
      → IsOrderly rt s
      → IsSound s.approvals (opened rt s input at)
  opened-IsSound s input at fresh h = record {
    recorded = rw (h.unknown _ (opened-absent s fresh h));
    all_different = refl;
    not_requester = refl;
    threshold = rw (high_risk-dedupe [] input.actions);
    verified = λ e. cc;
    verified_active = λ e. cc;
    enough = λ e. cc;
    kms = λ e. cc;
  }

  opened-IsOrderly :
      (s : Service) (input : CreateGrant) (at : ℕ)
      → Fresh rt
      → IsOrderly rt s
      → let g = opened rt s input at in
        IsOrderly rt (record s { store = set_grant g.grant_id g s.store; uuids = suc s.uuids })
  opened-IsOrderly s input at fresh h =
      let g = opened rt s input at in
      record {
        keyed = λ j x e. elim (get-set_cases g.grant_id j g x s.grants e) [
          | inl (p, q) ↦ ap (λ (y : Grant). y.grant_id) (sym q) ∙ p
          | inr (p, q) ↦ h.keyed j x q
        ];
        drawn = λ j x e. elim (get-set_cases g.grant_id j g x s.grants e) [
          | inl (p, q) ↦ (s.uuids, omega arith, sym p)
          | inr (p, q) ↦ let (n, below, drawn) = h.drawn j x q in (n, omega arith, drawn)
        ];
        unknown = λ j e. h.unknown j (get-set-none g.grant_id j g s.grants e).1;
        sound = λ j x e. elim (get-set_cases g.grant_id j g x s.grants e) [
          | inl (p, q) ↦ subst (IsSound s.approvals) q (opened-IsSound s input at fresh h)
          | inr (p, q) ↦ h.sound j x q
        ];
      }

  Change-IsOrderly : {s t : Service} → Fresh rt → Change rt s t → IsOrderly rt s → IsOrderly rt t
  Change-IsOrderly fresh (ticked s c u r later) h = keep-IsOrderly refl (λ _. refl) later h
  Change-IsOrderly fresh (grant_opened s input at) h = opened-IsOrderly s input at fresh h
  Change-IsOrderly fresh (grant_verified s id evidence g found pending) h =
      replace-IsOrderly id g _ found refl refl refl (λ _ _. refl)
        (verified-IsSound _ g evidence pending) h
  Change-IsOrderly fresh (grant_counted s id g a found pending may) h =
      replace-IsOrderly id g (counted g a) found refl refl refl
        (λ j e. others-pushed s a j (counts_elsewhere g a id j may (h.keyed id g found) e))
        (λ v. counted-IsSound s g a may v pending) h
  Change-IsOrderly fresh (grant_activated s id g a now found pending may many kms) h =
      replace-IsOrderly id g (activated g a now) found refl refl refl
        (λ j e. others-pushed s a j (counts_elsewhere g a id j may (h.keyed id g found) e))
        (λ v. activated-IsSound s g a may v now pending many kms) h
  Change-IsOrderly fresh (grant_denied s id g a status at found live over denies kind) h =
      let ignored = λ (j : String). others-pushed s a j (denied_ignored a j denies) in
      replace-IsOrderly id g (ended g status at) found refl refl refl (λ j _. ignored j)
        (not-active_of_terminal s g (s.approvals ++ a ∷ []) status at over (ignored g.grant_id)) h
  Change-IsOrderly fresh (grant_ended s id g status at found live over) h =
      replace-IsOrderly id g (ended g status at) found refl refl refl (λ _ _. refl)
        (not-active_of_terminal s g s.approvals status at over refl) h
  Change-IsOrderly fresh (break_glass_opened s input at) h =
      keep-IsOrderly refl (λ _. refl) (omega arith) h
  Change-IsOrderly fresh (break_glass_counted s id b a found pending may) h =
      keep-IsOrderly refl (λ j. others-pushed s a j (other_kind_ignored a j may.kind)) (omega arith)
        h
  Change-IsOrderly fresh (lease_issued s aggregate l named issued) h =
      keep-IsOrderly refl (λ _. refl) (omega arith) h
  Change-IsOrderly fresh _ h = keep-IsOrderly refl (λ _. refl) (omega arith) h

  Reach-IsOrderly : {s t : Service} → Fresh rt → Reach rt s t → IsOrderly rt s → IsOrderly rt t
  Reach-IsOrderly fresh here h = h
  Reach-IsOrderly fresh (next r c) h = Change-IsOrderly fresh c (Reach-IsOrderly fresh r h)

-- If `randomUUID` never repeats a text, every sequence of calls leads from an orderly service to an
-- orderly one: each
-- grant stands under its own identifier; its approvers are those of the recorded approvals, all
-- different, and none is the requester; two approvals are required for a high-risk action and one
-- else; and an active grant has the required approvals, evidence of MFA and, where
-- it allows to decrypt content, an approval in the role of a KMS operator.
pub run-IsOrderly :
    (rt : Runtime) (s : Service) (cs : List Call)
    → Fresh rt
    → IsOrderly rt s
    → IsOrderly rt (run rt s cs)
run-IsOrderly rt s cs fresh h = Reach-IsOrderly fresh (run-Reach rt s cs) h
