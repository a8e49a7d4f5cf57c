-- ===== src/SharedFolders/Cache/Invitations.antt =====
-- The methods on invitations, for the cached roles.
use Prim.Native.String.{◌++◌ as str_append}
use perseverance.Prelude.{
  ℕ, String, ◌≡◌, refl, sym, ap, ◌∙◌, subst, true, ◌&&◌, Option, none, some, inl, inr, is_some,
  str_eq, if◌then◌else◌, leb, Option-cases, Bool-cases, eq_iff, of_some,
}
use perseverance.Prelude.Map.{get, get-set_cases, map_values, map_option, get-map_values}
use perseverance.Prelude.Exec.Triple.{
  Triple, bind-Triple, require-Triple, or_throw-Triple, gets-Triple, modify-Triple, pure-Triple,
  if-Triple, elim-Triple, skip_gets, skip_require, skip_or_throw,
}
use perseverance.SharedFolders.Types.{
  FolderScope, FolderIdentity, manage, FolderMembership, StoredInvitation, Core, Environment,
  is_pending,
}
use perseverance.SharedFolders.Keys.{folder_key}
use perseverance.SharedFolders.Store.{set_invitation, expire, random_uuid, random_bytes}
use perseverance.SharedFolders.Invitations.{
  CreateInvitation, AcceptInvitation, RevokeInvitation, of_folder, accepted_before,
  create_invitation, list_invitations, accept_write, settle_acceptance, accept_invitation,
  in_this_folder, revoke_invitation, new_invitation, revoked_invitation,
}
use perseverance.SharedFolders.Cache.{IsCoherent, AreInvited, Coherent-draw}
use perseverance.SharedFolders.Cache.Writes.{
  IsCurrent, KeepsCoherent, append_audit-Triple, get_folder-IsCurrent, get_folder-IsCoherent,
  write_membership-Triple,
}

-- Expiry keeps the folder of an invitation.
expire_folder :
    (now : ℕ) (i : StoredInvitation)
    → ((expire now i).scope ≡ i.scope) × ((expire now i).folder_id ≡ i.folder_id)
expire_folder now i = elim (Bool-cases (is_pending i.status && leb i.expires_at now)) [
  | inl b ↦ rw b (refl, refl)
  | inr b ↦ rw b (refl, refl)
]

folder-key_of_scope :
    (env : Environment) (a b : FolderScope) (folder_id : String)
    → str_eq (env.scope_json a) (env.scope_json b) ≡ true
    → folder_key env a folder_id ≡ folder_key env b folder_id
unfolding folder_key
folder-key_of_scope env a b folder_id e =
    ap (λ k. str_append k (str_append ":" folder_id))
      ((eq_iff (env.scope_json a) (env.scope_json b)).0 e)

module _ (env : Environment) where
  abbrev HasFolder : StoredInvitation → Core → Type 0
  HasFolder i s = is_some (get (folder_key env i.scope i.folder_id) s.folders) ≡ true

  expire-HasFolder :
      (now : ℕ) (i : StoredInvitation) (s : Core) → HasFolder i s → HasFolder (expire now i) s
  expire-HasFolder now i s h = rw ((expire_folder now i).0) (rw ((expire_folder now i).1) h)

  expired_in_folder :
      (input : AcceptInvitation) (i : StoredInvitation) (s : Core)
      → str_eq (env.scope_json i.scope) (env.scope_json input.scope) ≡ true
      → HasFolder i s
      → is_some (get (folder_key env input.scope (expire input.now i).folder_id) s.folders) ≡ true
  expired_in_folder input i s b h = rw ((expire_folder input.now i).1) (
      subst (λ k. is_some (get k s.folders) ≡ true)
        (folder-key_of_scope env i.scope input.scope i.folder_id b) h)

  Coherent_invite :
      (id : String) (i : StoredInvitation) (s : Core)
      → HasFolder i s
      → IsCoherent env none s
      → IsCoherent env none (set_invitation id i s)
  Coherent_invite id i s o c = record {
    drawn = c.drawn;
    entries = c.entries;
    exact = c.exact;
    invited = λ j x e. elim (get-set_cases id j i x s.invitations e) [
      | inl (_, v) ↦ subst (λ y. HasFolder y s) v o
      | inr (_, e') ↦ c.invited j x e'
    ];
  }

  pub create_invitation-Triple :
      (input : CreateInvitation) → KeepsCoherent env (create_invitation env input)
  unfolding create_invitation random_uuid random_bytes
  create_invitation-Triple input =
      bind-Triple (get_folder-IsCurrent env input.identity input.folder_id manage) (λ folder.
        bind-Triple (skip_require _ _ (λ s p. p.0)) (λ _. bind-Triple draw (λ uuid.
          bind-Triple token (λ text. bind-Triple (modify-Triple _ (invite uuid text)) (λ _.
            bind-Triple (modify-Triple {Q = IsCoherent env none} _ (λ s c. c)) (λ _.
              bind-Triple (append_audit-Triple env input.identity folder _ _ _ _ _)
                (λ _. pure-Triple _ (λ s c. c))))))))
    where
      Current : Core → Type 0
      Current = IsCurrent env input.scope input.folder_id

      draw : Triple Current (random_uuid env) (λ _. Current) (IsCoherent env none)
      draw = record { at = λ s (c, o). (Coherent-draw env c, o) }

      token : Triple Current (random_bytes env) (λ _. Current) (IsCoherent env none)
      token = record { at = λ s p. p }

      invite :
          (uuid text : String) (s : Core)
          → Current s
          → IsCoherent env none (
              set_invitation
                (str_append "inv_" uuid)
                (new_invitation input (str_append "inv_" uuid) (env.sha256 text))
                s)
      invite uuid text s (c, o) = Coherent_invite _ _ s o c

  pub list_invitations-Triple :
      (identity : FolderIdentity) (folder_id : String) (now : ℕ)
      → KeepsCoherent env (list_invitations env identity folder_id now)
  unfolding list_invitations
  list_invitations-Triple identity folder_id now =
      bind-Triple (get_folder-IsCoherent env identity folder_id manage) (λ _.
        bind-Triple
          (modify-Triple _ (λ s c. record {
            drawn = c.drawn;
            entries = c.entries;
            exact = c.exact;
            invited = listed s c.invited;
          }))
          (λ _. skip_gets _))
    where
      seen : StoredInvitation → StoredInvitation
      seen i = if of_folder env identity.scope folder_id i then expire now i else i

      seen_folder : (i : StoredInvitation) (s : Core) → HasFolder i s → HasFolder (seen i) s
      seen_folder i s h = elim (Bool-cases (of_folder env identity.scope folder_id i)) [
        | inl b ↦ rw b (expire-HasFolder now i s h)
        | inr b ↦ rw b h
      ]

      listed :
          (s : Core)
          → AreInvited env s.folders s.invitations
          → AreInvited env s.folders (map_values seen s.invitations)
      listed s h id x e = elim (Option-cases (get id s.invitations)) [
        | inl n ↦ cc (get-map_values seen id s.invitations)
        | inr (i, o) ↦
            let found : some (seen i) ≡ some x =
              ap (map_option seen) (sym o) ∙ sym (get-map_values seen id s.invitations) ∙ e in
            subst (λ y. HasFolder y s) (of_some found) (seen_folder i s (h id i o))
      ]

  accept_write-Triple :
      (input : AcceptInvitation) (id : String) (i : StoredInvitation)
      (existing : Option FolderMembership)
      → Triple
          (λ s. IsCurrent env input.scope i.folder_id s × HasFolder i s)
          (accept_write env input id i existing)
          (λ _. IsCoherent env none)
          (IsCoherent env none)
  unfolding accept_write
  accept_write-Triple input id i existing =
      bind-Triple
        (modify-Triple {Q = IsCurrent env input.scope i.folder_id} _
          (λ s ((c, o), h). (Coherent_invite _ _ s h c, o)))
        (λ _.
          write_membership-Triple env input.identity i.folder_id input.principal_id _ _ _ _ _ _ _)

  settle_acceptance-Triple :
      (input : AcceptInvitation) (id : String) (i : StoredInvitation)
      (existing : Option FolderMembership)
      → Triple
          (λ s. IsCurrent env input.scope i.folder_id s × HasFolder i s)
          (settle_acceptance env input id i existing)
          (λ _. IsCoherent env none)
          (IsCoherent env none)
  unfolding settle_acceptance
  settle_acceptance-Triple input id i existing =
      elim-Triple (accepted_before env input i existing)
        (λ _.
          bind-Triple (skip_require _ _ (λ s p. (p.0).0))
            (λ _. accept_write-Triple input id i existing))
        (λ m _. pure-Triple _ (λ s p. (p.0).0))

  pub accept_invitation-Triple :
      (input : AcceptInvitation) → KeepsCoherent env (accept_invitation env input)
  unfolding accept_invitation
  accept_invitation-Triple input = bind-Triple (skip_gets _) (λ known.
      bind-Triple (skip_require _ _ (λ s c. c)) (λ _.
        bind-Triple (skip_or_throw _ _ (λ s c. c)) (λ id. bind-Triple (gets-Triple _) (λ found.
          bind-Triple (or_throw-Triple _ _ (λ s p _. p.0)) (λ before.
            bind-Triple (require-Triple _ _ (λ s p. (p.0).0)) (λ _.
              bind-Triple (modify-Triple _ (expired_current id found before)) (λ _.
                bind-Triple (skip_gets _) (λ existing.
                  settle_acceptance-Triple input id (expire input.now before) existing))))))))
    where
      expired_current :
          (id : String) (found : Option StoredInvitation) (before : StoredInvitation) (s : Core)
          → ((IsCoherent env none s × (found ≡ get id s.invitations)) × (found ≡ some before))
            × (str_eq (env.scope_json before.scope) (env.scope_json input.scope) ≡ true)
          → IsCurrent env input.scope
              (expire input.now before).folder_id
              (set_invitation id (expire input.now before) s)
            × HasFolder (expire input.now before) s
      expired_current id found before s (((c, e), o), b) =
          let has = expire-HasFolder input.now before s (c.invited id before (sym e ∙ o)) in
          (
            (
              Coherent_invite id (expire input.now before) s has c,
              expired_in_folder input before s b (c.invited id before (sym e ∙ o)),
            ),
            has,
          )

  in_this_folder_lem :
      (input : RevokeInvitation) (o : Option StoredInvitation) (i : StoredInvitation)
      → in_this_folder env input o ≡ some i
      → o ≡ some i
  in_this_folder_lem input none i e = cc
  in_this_folder_lem input (some j) i e =
      elim (Bool-cases (of_folder env input.scope input.folder_id j)) [
        | inl b ↦ subst (λ c. (if c then some j else none) ≡ some i) b e
        | inr b ↦ cc (subst (λ c. (if c then some j else none) ≡ some i) b e)
      ]

  pub revoke_invitation-Triple :
      (input : RevokeInvitation) → KeepsCoherent env (revoke_invitation env input)
  unfolding revoke_invitation
  revoke_invitation-Triple input =
      bind-Triple (get_folder-IsCoherent env input.identity input.folder_id manage) (λ folder.
        bind-Triple (gets-Triple _) (λ found. bind-Triple (or_throw-Triple _ _ (λ s p _. p.0)) (λ i.
          bind-Triple (skip_require _ _ (λ s p. (p.0).0)) (λ _.
            if-Triple _ (pure-Triple _ (λ s p. (p.0).0)) (
              bind-Triple (skip_require _ _ (λ s p. (p.0).0)) (λ _.
                bind-Triple (modify-Triple _ (ended found i)) (λ _.
                  bind-Triple (append_audit-Triple env input.identity folder _ _ _ _ _)
                    (λ _. pure-Triple _ (λ s c. c)))))))))
    where
      ended :
          (found : Option StoredInvitation) (i : StoredInvitation) (s : Core)
          → (IsCoherent env none s × (found ≡ get input.invitation_id s.invitations))
            × (in_this_folder env input found ≡ some i)
          → IsCoherent env none
              (set_invitation input.invitation_id (revoked_invitation input.now i) s)
      ended found i s ((c, e), o) =
          Coherent_invite input.invitation_id (revoked_invitation input.now i) s
            (c.invited input.invitation_id i (sym e ∙ in_this_folder_lem input found i o)) c
