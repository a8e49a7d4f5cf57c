-- ===== src/SharedFolders/Acceptance.antt =====
-- What `acceptInvitation` writes when it returns, and what becomes of an owner who accepts.
pub mod Succeeds
use perseverance.Prelude.{
  ℕ, ◌+◌, String, ◌≡◌, refl, sym, ap, ◌∙◌, subst, Bool, true, false, ◌&&◌, Option, some, inl, inr,
  arith, if◌then◌else◌, leb, length, filter, Bool-cases,
}
use perseverance.Prelude.Map.{Map, get, set, get-set_self}
use perseverance.Prelude.Exec.{ok}
use perseverance.Prelude.Exec.Triple.{
  Triple, bind-Triple, require-Triple, or_throw-Triple, gets-Triple, modify-Triple, pure-Triple,
  fact-Triple, relax-Triple, strengthen-Triple, elim-Triple, skip_gets, skip_require, returned,
}
use perseverance.SharedFolders.Types.{
  FolderScope, FolderIdentity, AccessReason, AuditAction, AuditOutcome, accepted, expired, active,
  SharedFolder, FolderMembership, StoredInvitation, Core, Environment, is_pending, is_owner,
  is_active,
}
use perseverance.SharedFolders.Keys.{member_prefix, member_key}
use perseverance.SharedFolders.Store.{
  is_owner_entry, set_invitation, expire, owner_count, bump, AuditDetails, append_audit,
}
use perseverance.SharedFolders.Invitations.{
  AcceptInvitation, Acceptance, invited_membership, accepted_invitation, accepted_before,
  accept_write, settle_acceptance, accept_invitation,
}
use perseverance.SharedFolders.Cache.Reads.{find_folder-Triple}
use perseverance.SharedFolders.Owners.Count.{bit}
use perseverance.SharedFolders.Owners.{owner_count-set_membership}

-- An invitation that is pending after expiry was pending, and its time has not come.
pending_unexpired :
    (now : ℕ) (i : StoredInvitation)
    → is_pending (expire now i).status ≡ true
    → (is_pending i.status ≡ true) × (leb i.expires_at now ≡ false)
pending_unexpired now i h = elim (Bool-cases (is_pending i.status && leb i.expires_at now)) [
  | inl b ↦ cc (subst (λ c. is_pending (after c).status ≡ true) b h)
  | inr b ↦
      split (is_pending i.status) (leb i.expires_at now) b
        (subst (λ c. is_pending (after c).status ≡ true) b h)
]
  where
    after : Bool → StoredInvitation
    after c =
        if c
        then record i {
          invitation = record i.invitation {
            status = expired;
            updated_at = now;
            version = i.version + 1;
          };
        }
        else i

    split : (p l : Bool) → (p && l) ≡ false → p ≡ true → (p ≡ true) × (l ≡ false)
    split p l h k = ground arith

pub expire_unexpired :
    (now : ℕ) (i : StoredInvitation) → leb i.expires_at now ≡ false → expire now i ≡ i
expire_unexpired now i h = rw (off (is_pending i.status) (leb i.expires_at now) h) refl
  where
    off : (p l : Bool) → l ≡ false → (p && l) ≡ false
    off p l h = ground arith

module _ (env : Environment) where
  -- What follows the writing of a membership writes neither memberships nor invitations.
  bump_frame :
      (F : Map FolderMembership → Map StoredInvitation → Type 0) (scope : FolderScope)
      (folder_id : String) (reason : AccessReason) (affected : Option String) (now : ℕ)
      → Triple
          (λ s. F s.memberships s.invitations)
          (bump env scope folder_id reason affected now)
          (λ _ s. F s.memberships s.invitations)
          (λ _. Unit)
  unfolding bump
  bump_frame F scope folder_id reason affected now =
      bind-Triple
        (relax-Triple (λ _ _. tt)
          (strengthen-Triple (λ _ _ p. p.0) (find_folder-Triple env scope folder_id)))
        (λ f.
          bind-Triple (modify-Triple {Q = λ s. F s.memberships s.invitations} _ (λ s p. p))
            (λ _. pure-Triple _ (λ s p. p)))

  append_audit_frame :
      (F : Map FolderMembership → Map StoredInvitation → Type 0) (identity : FolderIdentity)
      (folder : SharedFolder) (action : AuditAction) (outcome : AuditOutcome) (code : String)
      (details : AuditDetails)
      → Triple
          (λ s. F s.memberships s.invitations)
          (append_audit env identity folder action outcome code details)
          (λ _ s. F s.memberships s.invitations)
          (λ _. Unit)
  unfolding append_audit
  append_audit_frame F identity folder action outcome code details = record { at = λ s p. p }

  -- The core has the acceptance, with a new membership in the place of what was there.
  pub record IsAccepted (input : AcceptInvitation) (s : Core) (a : Acceptance) (t : Core)
      : Type 0 where
    pub invitation_id : String
    pub before : StoredInvitation
    pub by_token : get (env.sha256 input.token) s.invitation_by_digest ≡ some invitation_id
    pub was_stored : get invitation_id s.invitations ≡ some before
    pub was_pending : is_pending before.status ≡ true
    pub was_in_time : leb before.expires_at input.now ≡ false
    pub after : StoredInvitation
    pub is_stored : get invitation_id t.invitations ≡ some after
    pub returned : after.invitation ≡ a.invitation
    pub is_accepted : a.invitation.status ≡ accepted
    pub accepted_by : a.invitation.accepted_by_principal_id ≡ some input.principal_id
    pub same_invitation : a.invitation.invitation_id ≡ before.invitation_id
    pub same_folder : a.invitation.folder_id ≡ before.folder_id
    pub same_scope : a.invitation.scope ≡ before.scope
    pub same_role : a.invitation.role ≡ before.role
    pub in_folder : a.membership.folder_id ≡ before.folder_id
    pub in_scope : a.membership.scope ≡ input.scope
    pub of_caller : a.membership.principal_id ≡ input.principal_id
    pub by_invitation : a.membership.accepted_invitation_id ≡ some before.invitation_id
    pub has_role : a.membership.role ≡ before.role
    pub has_status : a.membership.status ≡ active
    pub memberships :
        t.memberships
        ≡ set
            (member_key env input.scope before.folder_id input.principal_id)
            a.membership
            s.memberships

  -- The invitation of the token has been found in the core `s`.
  abbrev IsFound : AcceptInvitation → Core → String → StoredInvitation → Type 0
  IsFound input s id before =
      (get (env.sha256 input.token) s.invitation_by_digest ≡ some id)
      × (get id s.invitations ≡ some before)

  abbrev Settled : AcceptInvitation → Core → Acceptance → Core → Type 0
  Settled input s a t = a.idempotent ≡ false → IsAccepted input s a t

  abbrev Written :
      AcceptInvitation
      → Core
      → String
      → StoredInvitation
      → FolderMembership
      → Map FolderMembership
      → Map StoredInvitation
      → Type 0
  Written input s id taken m memberships invitations =
      (memberships
        ≡ set (member_key env input.scope taken.folder_id input.principal_id) m s.memberships)
      × (get id invitations ≡ some taken)

  accept_write-Triple :
      (input : AcceptInvitation) (s : Core) (id : String) (before : StoredInvitation)
      (existing : Option FolderMembership)
      → IsFound input s id before
      → is_pending (expire input.now before).status ≡ true
      → Triple
          (λ t. t.memberships ≡ s.memberships)
          (accept_write env input id (expire input.now before) existing)
          (Settled input s)
          (λ _. Unit)
  unfolding accept_write
  accept_write-Triple input s id before existing (token, stored) pending =
      let i = expire input.now before in
      let taken = accepted_invitation input i in
      let m = invited_membership input taken existing in
      let was = pending_unexpired input.now before pending in
      let kept = expire_unexpired input.now before was.1 in
      let written = Written input s id taken m in
      bind-Triple
        (modify-Triple
          {Q = λ t. (t.memberships ≡ s.memberships) × (get id t.invitations ≡ some taken)} _
          (λ t e. (e, get-set_self id taken t.invitations)))
        (λ _.
          bind-Triple
            (modify-Triple {Q = λ t. written t.memberships t.invitations} _ (λ t (e, h).
              (ap (set (member_key env input.scope i.folder_id input.principal_id) m) e, h)))
            (λ _. bind-Triple (bump_frame written input.scope i.folder_id _ _ _) (λ folder.
              bind-Triple (append_audit_frame written input.identity folder _ _ _ _) (λ _.
                pure-Triple _ (λ t (e, h) _. record {
                  invitation_id = id;
                  before = before;
                  by_token = token;
                  was_stored = stored;
                  was_pending = was.0;
                  was_in_time = was.1;
                  after = taken;
                  is_stored = h;
                  returned = refl;
                  is_accepted = refl;
                  accepted_by = refl;
                  same_invitation = ap (λ x. x.invitation_id) kept;
                  same_folder = ap (λ x. x.folder_id) kept;
                  same_scope = ap (λ x. x.scope) kept;
                  same_role = ap (λ x. x.role) kept;
                  in_folder = ap (λ x. x.folder_id) kept;
                  in_scope = refl;
                  of_caller = refl;
                  by_invitation = ap (λ x. some x.invitation_id) kept;
                  has_role = ap (λ x. x.role) kept;
                  has_status = refl;
                  memberships =
                      e
                      ∙ ap
                          (λ (x : StoredInvitation).
                            set (member_key env input.scope x.folder_id input.principal_id) m
                              s.memberships)
                          kept;
                })))))

  settle_acceptance-Triple :
      (input : AcceptInvitation) (s : Core) (id : String) (before : StoredInvitation)
      (existing : Option FolderMembership)
      → IsFound input s id before
      → Triple
          (λ t. t.memberships ≡ s.memberships)
          (settle_acceptance env input id (expire input.now before) existing)
          (Settled input s)
          (λ _. Unit)
  unfolding settle_acceptance
  settle_acceptance-Triple input s id before existing found =
      elim-Triple (accepted_before env input (expire input.now before) existing)
        (λ _.
          bind-Triple (require-Triple _ _ (λ _ _. tt))
            (λ _. fact-Triple (accept_write-Triple input s id before existing found)))
        (λ m _. pure-Triple _ (λ t e f. cc))

  accept_invitation-Triple :
      (input : AcceptInvitation) (s : Core)
      → Triple (λ t. t ≡ s) (accept_invitation env input) (Settled input s) (λ _. Unit)
  unfolding accept_invitation
  accept_invitation-Triple input s = bind-Triple (gets-Triple _) (λ known.
      bind-Triple (skip_require _ _ (λ _ _. tt)) (λ _.
        bind-Triple (or_throw-Triple _ _ (λ _ _ _. tt)) (λ id. bind-Triple (gets-Triple _) (λ found.
          bind-Triple (or_throw-Triple _ _ (λ _ _ _. tt)) (λ before.
            bind-Triple (skip_require _ _ (λ _ _. tt)) (λ _.
              bind-Triple (modify-Triple {Q = Entered id before} _ (enter known id found before))
                (λ _. bind-Triple (skip_gets _) (λ existing.
                  fact-Triple (settle_acceptance-Triple input s id before existing)))))))))
    where
      Entered : String → StoredInvitation → Core → Type 0
      Entered id before t = (t.memberships ≡ s.memberships) × IsFound input s id before

      enter :
          (known : Option String) (id : String) (found : Option StoredInvitation)
          (before : StoredInvitation) (t : Core)
          → ((((t ≡ s) × (known ≡ get (env.sha256 input.token) t.invitation_by_digest))
                × (known ≡ some id))
              × (found ≡ get id t.invitations))
            × (found ≡ some before)
          → Entered id before (set_invitation id (expire input.now before) t)
      enter known id found before t ((((e, k), i), f), b) = (
        ap (λ u. u.memberships) e,
        (
          ap (λ u. get (env.sha256 input.token) u.invitation_by_digest) (sym e) ∙ sym k ∙ i,
          ap (λ u. get id u.invitations) (sym e) ∙ sym f ∙ b,
        ),
      )

  -- Where `acceptInvitation` returns and says that the call is not a repetition, the digest of the
  -- token named a stored invitation that was pending and had not expired; it is now stored as accepted by
  -- the caller, with its folder, scope and role unchanged, and the only change to the memberships is the
  -- caller's in the folder of that invitation, which is active and has the role that the stored
  -- invitation gave.
  pub accept_invitation-IsAccepted :
      (input : AcceptInvitation) (s : Core) (a : Acceptance)
      → (accept_invitation env input s).0 ≡ ok a
      → a.idempotent ≡ false
      → IsAccepted input s a (accept_invitation env input s).1
  accept_invitation-IsAccepted input s a e f =
      returned (Settled input s) (λ _. Unit) (accept_invitation env input s) a
        ((accept_invitation-Triple input s).at s refl) e f

  -- An active owner of the folder who accepts an invitation to it, not as a repetition, is counted as
  -- an owner no more: the folder has one owner fewer than before, and none if this was the last.
  pub accept_invitation-demotes :
      (input : AcceptInvitation) (s : Core) (a : Acceptance) (m : FolderMembership)
      → (accept_invitation env input s).0 ≡ ok a
      → a.idempotent ≡ false
      → get (member_key env input.scope a.invitation.folder_id input.principal_id) s.memberships
        ≡ some m
      → (is_active m.status && is_owner m.role) ≡ true
      → is_owner a.invitation.role ≡ false
      → owner_count env input.scope a.invitation.folder_id (accept_invitation env input s).1 + 1
        ≡ owner_count env input.scope a.invitation.folder_id s
  unfolding owner_count
  accept_invitation-demotes input s a m e f g own role =
      let done = accept_invitation-IsAccepted input s a e f in
      let prefix = member_prefix env input.scope a.invitation.folder_id in
      let counted =
        owner_count-set_membership env input.scope a.invitation.folder_id input.principal_id m
          a.membership s g in
      omega (
        arith,
        counted,
        ap (λ ms. length (filter (is_owner_entry prefix) ms)) (done.memberships ∙ moved done),
        ap bit own,
        ap (λ b. bit (is_active a.membership.status && b))
            (ap is_owner (done.has_role ∙ sym done.same_role) ∙ role),
        and_false (is_active a.membership.status),
      )
    where
      moved :
          (d : IsAccepted input s a (accept_invitation env input s).1)
          → set
              (member_key env input.scope d.before.folder_id input.principal_id)
              a.membership
              s.memberships
            ≡ set
                (member_key env input.scope a.invitation.folder_id input.principal_id)
                a.membership
                s.memberships
      moved d =
          ap (λ f. set (member_key env input.scope f input.principal_id) a.membership s.memberships)
            (sym d.same_folder)

      and_false : (b : Bool) → bit (b && false) ≡ 0
      and_false true = refl
      and_false false = refl
