-- ===== src/SupportAccess/Run/Emergencies.antt =====
-- The rules for break-glass requests under sequences of calls.
use Prim.Native.String.{◌++◌ as str_append}
use text.Mathlib.TextLemmas.{append_cancel_left}
use perseverance.Prelude.{
  ℕ, suc, ◌≤◌, String, ◌≡◌, refl, sym, ap, ◌∙◌, subst, false, List, none, some, inl, inr, arith,
  filter-snoc_refused, str_eq, Option-cases,
}
use perseverance.Prelude.Map.{get, set, get-set_cases, get-set-none}
use perseverance.SupportAccess.Types.{BreakGlass, Service, Runtime}
use perseverance.SupportAccess.Store.{set_break_glass}
use perseverance.SupportAccess.BreakGlass.{CreateBreakGlass, is_for_request}
use perseverance.SupportAccess.Protocol.{
  Change, Reach, here, next, ticked, grant_opened, grant_counted, grant_activated, grant_denied,
  break_glass_opened, break_glass_verified, break_glass_counted, break_glass_activated,
  break_glass_ended, lease_issued, counted_break_glass, activated_break_glass, ended_break_glass,
  reverified, opened_break_glass,
}
use perseverance.SupportAccess.Run.{Call, run, run-Reach}
use perseverance.SupportAccess.Run.FourEyes.{Fresh}
use perseverance.SupportAccess.Run.Requests.{
  request_approvals_in, IsApproved, AreApproved, IsApproved-transport, reverified-IsApproved,
  ended-IsApproved, activated-IsApproved, counted-IsApproved, counts_elsewhere_in, grant_ignored,
}

module _ {rt : Runtime} where
  keep-AreApproved :
      {s t : Service}
      → t.break_glass ≡ s.break_glass
      → ((id : String) → request_approvals_in id t.approvals ≡ request_approvals_in id s.approvals)
      → s.uuids ≤ t.uuids
      → AreApproved rt s
      → AreApproved rt t
  keep-AreApproved {s} {t} same others later h = record {
    keyed = λ id b e. h.keyed id b (rw (← same) e);
    drawn =
        λ id b e. let (n, below, drawn) = h.drawn id b (rw (← same) e) in (n, omega arith, drawn);
    unknown = λ id e. others id ∙ h.unknown id (rw (← same) e);
    sound = λ id b e. IsApproved-transport (others b.break_glass_id) (h.sound id b (rw (← same) e));
  }

  module _ {s t : Service} (id : String) (b b' : BreakGlass) (found : get id s.break_glass ≡ some b)
      (stored : t.break_glass ≡ set id b' s.break_glass) (same_uuids : t.uuids ≡ s.uuids)
      (same_id : b'.break_glass_id ≡ b.break_glass_id)
      (others : (j : String)
        → str_eq id j ≡ false
        → request_approvals_in j t.approvals ≡ request_approvals_in j s.approvals)
      (new : IsApproved s.approvals b → IsApproved t.approvals b') (h : AreApproved rt s) where
    replace-AreApproved : AreApproved rt t
    replace-AreApproved = record {
      keyed = λ j x e. elim (get-set_cases id j b' x s.break_glass (rw stored at e)) [
        | inl (p, q) ↦
            ap (λ (y : BreakGlass). y.break_glass_id) (sym q) ∙ same_id ∙ h.keyed id b found ∙ p
        | inr (p, q) ↦ h.keyed j x q
      ];
      drawn = λ j x e. elim (get-set_cases id j b' x s.break_glass (rw stored at e)) [
        | inl (p, q) ↦ let (n, below, drawn) = h.drawn id b found in (n, omega arith, sym p ∙ drawn)
        | inr (p, q) ↦ let (n, below, drawn) = h.drawn j x q in (n, omega arith, drawn)
      ];
      unknown = λ j e.
          let (p, q) = get-set-none id j b' s.break_glass (rw stored at e) in
          others j p ∙ h.unknown j q;
      sound = λ j x e. elim (get-set_cases id j b' x s.break_glass (rw stored at e)) [
        | inl (p, q) ↦ subst (IsApproved t.approvals) q (new (h.sound id b found))
        | inr (p, q) ↦
            IsApproved-transport (others x.break_glass_id (rw (h.keyed j x q) p)) (h.sound j x q)
      ];
    }

  opened-missing :
      (s : Service)
      → Fresh rt
      → AreApproved rt s
      → get (str_append "bgr_" (rt.uuid s.uuids)) s.break_glass ≡ none
  opened-missing s fresh h =
      elim (Option-cases (get (str_append "bgr_" (rt.uuid s.uuids)) s.break_glass)) [
        | inl e ↦ e
        | inr (b, e) ↦
            let (n, below, drawn) = h.drawn _ b e in
            let same : s.uuids ≡ n = fresh _ _ (append_cancel_left "bgr_" _ _ drawn) in
            absurd (omega arith)
      ]

  opened-IsApproved :
      (s : Service) (input : CreateBreakGlass) (at : ℕ)
      → Fresh rt
      → AreApproved rt s
      → IsApproved s.approvals (opened_break_glass rt s input at)
  opened-IsApproved s input at fresh h = record {
    recorded = rw (h.unknown _ (opened-missing s fresh h));
    all_different = refl;
    not_requester = refl;
    verified = λ e. cc;
    verified_active = λ e. cc;
    two = λ e. cc;
    kms = λ e. cc;
  }

  opened-AreApproved :
      (s : Service) (input : CreateBreakGlass) (at : ℕ)
      → Fresh rt
      → AreApproved rt s
      → let b = opened_break_glass rt s input at in
        AreApproved rt
          (record s { store = set_break_glass b.break_glass_id b s.store; uuids = suc s.uuids })
  opened-AreApproved s input at fresh h =
      let b = opened_break_glass rt s input at in
      record {
        keyed = λ j x e. elim (get-set_cases b.break_glass_id j b x s.break_glass e) [
          | inl (p, q) ↦ ap (λ (y : BreakGlass). y.break_glass_id) (sym q) ∙ p
          | inr (p, q) ↦ h.keyed j x q
        ];
        drawn = λ j x e. elim (get-set_cases b.break_glass_id j b x s.break_glass e) [
          | inl (p, q) ↦ (s.uuids, omega arith, sym p)
          | inr (p, q) ↦ let (n, below, drawn) = h.drawn j x q in (n, omega arith, drawn)
        ];
        unknown = λ j e. h.unknown j (get-set-none b.break_glass_id j b s.break_glass e).1;
        sound = λ j x e. elim (get-set_cases b.break_glass_id j b x s.break_glass e) [
          | inl (p, q) ↦ subst (IsApproved s.approvals) q (opened-IsApproved s input at fresh h)
          | inr (p, q) ↦ h.sound j x q
        ];
      }

  Change-AreApproved :
      {s t : Service} → Fresh rt → Change rt s t → AreApproved rt s → AreApproved rt t
  Change-AreApproved fresh (ticked s c u r later) h = keep-AreApproved refl (λ _. refl) later h
  Change-AreApproved fresh (grant_opened s input at) h =
      keep-AreApproved refl (λ _. refl) (omega arith) h
  Change-AreApproved fresh (grant_counted s id g a found pending may) h =
      keep-AreApproved refl (λ j. grant_ignored s.approvals a j may.kind) (omega arith) h
  Change-AreApproved fresh (grant_activated s id g a now found pending may many kms) h =
      keep-AreApproved refl (λ j. grant_ignored s.approvals a j may.kind) (omega arith) h
  Change-AreApproved fresh (grant_denied s id g a status at found live over denies kind) h =
      keep-AreApproved refl (λ j. grant_ignored s.approvals a j kind) (omega arith) h
  Change-AreApproved fresh (break_glass_opened s input at) h = opened-AreApproved s input at fresh h
  Change-AreApproved fresh (break_glass_verified s id evidence b found) h =
      replace-AreApproved id b (reverified b evidence) found refl refl refl (λ _ _. refl)
        (λ v. reverified-IsApproved s.approvals b v evidence) h
  Change-AreApproved fresh (break_glass_counted s id b a found pending may) h =
      replace-AreApproved id b (counted_break_glass b a) found refl refl refl
        (λ j e.
          filter-snoc_refused (is_for_request j) s.approvals a
            (counts_elsewhere_in b a id j may (h.keyed id b found) e))
        (λ v. counted-IsApproved s.approvals b v a pending may) h
  Change-AreApproved fresh (break_glass_activated s id b now found pending many kms) h =
      replace-AreApproved id b (activated_break_glass b now) found refl refl refl (λ _ _. refl)
        (λ v. activated-IsApproved s.approvals b v now pending many kms) h
  Change-AreApproved fresh (break_glass_ended s id b status at found over) h =
      replace-AreApproved id b (ended_break_glass b status at) found refl refl refl (λ _ _. refl)
        (λ v. ended-IsApproved s.approvals b v status at over) h
  Change-AreApproved fresh (lease_issued s aggregate l named issued) h =
      keep-AreApproved refl (λ _. refl) (omega arith) h
  Change-AreApproved fresh _ h = keep-AreApproved refl (λ _. refl) (omega arith) h

  Reach-AreApproved :
      {s t : Service} → Fresh rt → Reach rt s t → AreApproved rt s → AreApproved rt t
  Reach-AreApproved fresh here h = h
  Reach-AreApproved fresh (next r c) h = Change-AreApproved fresh c (Reach-AreApproved fresh r h)

-- If `randomUUID` never repeats a text, every sequence of calls keeps the rules for break-glass
-- requests: each stands under its own identifier; its approvers are those of the recorded approvals,
-- all different, and none is the requester; and an active request has exactly two of them,
-- evidence of MFA and, where it allows to decrypt content, an approval in the role of a
-- KMS operator.
pub run-AreApproved :
    (rt : Runtime) (s : Service) (cs : List Call)
    → Fresh rt
    → AreApproved rt s
    → AreApproved rt (run rt s cs)
run-AreApproved rt s cs fresh h = Reach-AreApproved fresh (run-Reach rt s cs) h
