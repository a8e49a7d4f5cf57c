-- ===== src/SharedFolders/Acceptance/Succeeds.antt =====
-- That `acceptInvitation` returns where nothing stands against it.
use perseverance.Prelude.{
  ℕ, String, ◌≡◌, refl, sym, ap, ◌∙◌, subst, Bool, true, false, ◌&&◌, Option, none, some, arith,
  str_eq, opt_eq, leb, of_some,
}
use perseverance.Prelude.Text.{truthy}
use perseverance.Prelude.Map.{get}
use perseverance.Prelude.Exec.{Result, ok, err, or_throw}
use perseverance.Prelude.Exec.Triple.{
  Outcome, Triple, bind-Triple, or_throw-Triple, gets-Triple, modify-Triple, pure-Triple,
  elim-Triple, skip_gets, sure_require, fact-Triple, weaken-Triple,
}
use perseverance.SharedFolders.Types.{
  FolderScope, InvitationStatus, pending, accepted, expired, revoked, AccessReason, SharedFolder,
  FolderMembership, StoredInvitation, Core, Environment, is_pending, is_accepted, is_active,
  FolderError,
}
use perseverance.SharedFolders.Keys.{folder_key}
use perseverance.SharedFolders.Acceptance.{expire_unexpired}
use perseverance.SharedFolders.Store.{expire, find_folder, bump, append_audit}
use perseverance.SharedFolders.Invitations.{
  AcceptInvitation, Acceptance, accepted_before, accept_write, settle_acceptance, accept_invitation,
}

pending_not_accepted :
    (status : InvitationStatus) → is_pending status ≡ true → is_accepted status ≡ false
pending_not_accepted pending h = refl
pending_not_accepted accepted h = cc
pending_not_accepted expired h = cc
pending_not_accepted revoked h = cc

module _ (env : Environment) where
  accepted_before_pending :
      (input : AcceptInvitation) (i : StoredInvitation) (o : Option FolderMembership)
      → is_pending i.status ≡ true
      → accepted_before env input i o ≡ none
  accepted_before_pending input i none h = refl
  accepted_before_pending input i (some m) h =
      rw
        (off (is_accepted i.status) (opt_eq i.accepted_by_principal_id (some input.principal_id))
          (is_active m.status) (pending_not_accepted i.status h))
        refl
    where
      off : (a b c : Bool) → a ≡ false → (a && b && c) ≡ false
      off a b c h = ground arith

  abbrev IsHere : FolderScope → String → SharedFolder → Core → Type 0
  IsHere scope folder_id f s = get (folder_key env scope folder_id) s.folders ≡ some f

  find_folder_returns :
      (scope : FolderScope) (folder_id : String) (f : SharedFolder)
      → Triple (IsHere scope folder_id f) (find_folder env scope folder_id) (λ _ _. Unit) (λ _. ⊥)
  unfolding find_folder or_throw
  find_folder_returns scope folder_id f = record { at = λ s e. rw e tt }

  bump_returns :
      (scope : FolderScope) (folder_id : String) (f : SharedFolder) (reason : AccessReason)
      (affected : Option String) (now : ℕ)
      → Triple
          (IsHere scope folder_id f)
          (bump env scope folder_id reason affected now)
          (λ _ _. Unit)
          (λ _. ⊥)
  unfolding bump
  bump_returns scope folder_id f reason affected now =
      bind-Triple (find_folder_returns scope folder_id f) (λ g.
        bind-Triple (modify-Triple {Q = λ _. Unit} _ (λ s p. tt)) (λ _. pure-Triple _ (λ s p. tt)))

  -- A call that returns, and is no repetition.
  abbrev Fresh : Acceptance → Core → Type 0
  Fresh a s = a.idempotent ≡ false

  accept_write_returns :
      (input : AcceptInvitation) (id : String) (i : StoredInvitation)
      (existing : Option FolderMembership) (f : SharedFolder)
      → Triple
          (IsHere input.scope i.folder_id f)
          (accept_write env input id i existing)
          Fresh
          (λ _. ⊥)
  unfolding accept_write append_audit
  accept_write_returns input id i existing f =
      bind-Triple (modify-Triple {Q = IsHere input.scope i.folder_id f} _ (λ s e. e)) (λ _.
        bind-Triple (modify-Triple {Q = IsHere input.scope i.folder_id f} _ (λ s e. e)) (λ _.
          bind-Triple (bump_returns input.scope i.folder_id f _ _ _) (λ g.
            bind-Triple {Q = λ _ _. Unit} (record { at = λ s _. tt })
              (λ _. pure-Triple _ (λ s _. refl)))))

  settle_acceptance_returns :
      (input : AcceptInvitation) (id : String) (i : StoredInvitation)
      (existing : Option FolderMembership) (f : SharedFolder)
      → is_pending i.status ≡ true
      → Triple
          (IsHere input.scope i.folder_id f)
          (settle_acceptance env input id i existing)
          Fresh
          (λ _. ⊥)
  unfolding settle_acceptance
  settle_acceptance_returns input id i existing f h =
      elim-Triple (accepted_before env input i existing)
        (λ _.
          bind-Triple (sure_require _ _ (λ s e. h))
            (λ _. accept_write_returns input id i existing f))
        (λ m e. cc (accepted_before_pending input i existing h, e))

  accept_invitation_returns :
      (input : AcceptInvitation) (s : Core) (id : String) (i : StoredInvitation) (f : SharedFolder)
      → get (env.sha256 input.token) s.invitation_by_digest ≡ some id
      → truthy (some id) ≡ true
      → get id s.invitations ≡ some i
      → str_eq (env.scope_json i.scope) (env.scope_json input.scope) ≡ true
      → is_pending i.status ≡ true
      → leb i.expires_at input.now ≡ false
      → IsHere input.scope i.folder_id f s
      → Triple (λ t. t ≡ s) (accept_invitation env input) Fresh (λ _. ⊥)
  unfolding accept_invitation
  accept_invitation_returns input s id i f token full stored scope waiting in_time here =
      bind-Triple (gets-Triple _) (λ known.
        bind-Triple (sure_require _ _ (λ t (e, k). ap truthy (known_id known t e k) ∙ full)) (λ _.
          bind-Triple (or_throw-Triple _ _ (λ t (e, k) n. cc (known_id known t e k, n))) (λ id'.
            bind-Triple (gets-Triple _) (λ found.
              bind-Triple (or_throw-Triple _ _ (λ t p n. cc (found_i known id' found t p, n)))
                (λ before.
                  bind-Triple
                    (sure_require _ _ (λ t (p, b).
                      subst
                        (λ x. str_eq (env.scope_json x.scope) (env.scope_json input.scope) ≡ true)
                        (of_some (sym (found_i known id' found t p) ∙ b)) scope))
                    (λ _.
                      bind-Triple
                        (modify-Triple {Q = Entered before} _ (λ t (p, b). (
                          ap (λ u. u.folders) ((p.0).0).0,
                          of_some (sym b ∙ found_i known id' found t p),
                        )))
                        (λ _.
                          bind-Triple (skip_gets _)
                            (λ existing. fact-Triple (settled id' before existing)))))))))
    where
      Entered : StoredInvitation → Core → Type 0
      Entered before t = (t.folders ≡ s.folders) × (before ≡ i)

      same : (before : StoredInvitation) → before ≡ i → expire input.now before ≡ i
      same before e = ap (expire input.now) e ∙ expire_unexpired input.now i in_time

      settled :
          (id' : String) (before : StoredInvitation) (existing : Option FolderMembership)
          → before ≡ i
          → Triple
              (λ t. t.folders ≡ s.folders)
              (settle_acceptance env input id' (expire input.now before) existing)
              Fresh
              (λ _. ⊥)
      settled id' before existing e =
          weaken-Triple
            (λ t k.
              ap (get (folder_key env input.scope (expire input.now before).folder_id)) k
              ∙ ap (λ x. get (folder_key env input.scope x.folder_id) s.folders) (same before e)
              ∙ here)
            (settle_acceptance_returns input id' (expire input.now before) existing f
              (ap (λ x. is_pending x.status) (same before e) ∙ waiting))

      known_id :
          (known : Option String) (t : Core)
          → t ≡ s
          → known ≡ get (env.sha256 input.token) t.invitation_by_digest
          → known ≡ some id
      known_id known t e k =
          k ∙ ap (λ u. get (env.sha256 input.token) u.invitation_by_digest) e ∙ token

      found_i :
          (known : Option String) (id' : String) (found : Option StoredInvitation) (t : Core)
          → (((t ≡ s) × (known ≡ get (env.sha256 input.token) t.invitation_by_digest))
              × (known ≡ some id'))
            × (found ≡ get id' t.invitations)
          → found ≡ some i
      found_i known id' found t (((e, k), j), g) =
          g
          ∙ ap (λ u. get id' u.invitations) e
          ∙ ap (λ x. get x s.invitations) (of_some (sym j ∙ known_id known t e k))
          ∙ stored

  succeeded :
      (m : Result FolderError Acceptance × Core)
      → Outcome Fresh (λ _. ⊥) m.0 m.1
      → (a : Acceptance) × (m.0 ≡ ok a) × (a.idempotent ≡ false)
  succeeded (ok a, t) h = (a, refl, h)
  succeeded (err e, t) h = absurd h

  -- An invitation can be accepted: where the digest of the token names a stored invitation of the
  -- scope of the caller that is pending and has not expired, and the folder is stored,
  -- `acceptInvitation` returns, and not as a repetition. The identifier of the invitation is not empty.
  pub accept_invitation_succeeds :
      (input : AcceptInvitation) (s : Core) (id : String) (i : StoredInvitation) (f : SharedFolder)
      → get (env.sha256 input.token) s.invitation_by_digest ≡ some id
      → truthy (some id) ≡ true
      → get id s.invitations ≡ some i
      → str_eq (env.scope_json i.scope) (env.scope_json input.scope) ≡ true
      → is_pending i.status ≡ true
      → leb i.expires_at input.now ≡ false
      → get (folder_key env input.scope i.folder_id) s.folders ≡ some f
      → (a : Acceptance) × ((accept_invitation env input s).0 ≡ ok a) × (a.idempotent ≡ false)
  accept_invitation_succeeds input s id i f token full stored scope waiting in_time here =
      succeeded (accept_invitation env input s) (
        (accept_invitation_returns input s id i f token full stored scope waiting in_time here).at s
          refl)
