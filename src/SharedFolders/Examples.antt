-- ===== src/SharedFolders/Examples.antt =====
-- The theorems on shared folders at a small core: identifiers that are tallies, texts that are hashed
-- to themselves, and one folder whose owner invites herself as a viewer.
use Prim.Native.Char.{code}
use Prim.Native.String.{[], ◌∷◌}
use text.Mathlib.TextLemmas.{cons-append, append_cancel_left}
use perseverance.Prelude.{
  ℕ, zero, suc, String, ◌≡◌, refl, sym, ap, ◌∙◌, true, false, none, some, List, arith, ◌+◌,
}
use perseverance.Prelude.Map.{get, set}
use perseverance.Prelude.Text.{is_space, trim_start, trim_end, trim, utf16_length}
use perseverance.Prelude.Exec.{ok, err, pure, throw, gets, or_throw, modify, require, ◌>>=◌}
use perseverance.SharedFolders.Types.{
  FolderIdentity, owner, viewer, editor, manage, read, accepted, active, completed, Core,
  Environment, folder_role_allows, last_owner_protected, TaskReservation, StoredInvitation,
  FolderMembership,
}
use perseverance.SharedFolders.Keys.{folder_key, member_key, task_key}
use perseverance.SharedFolders.Store.{
  random_uuid, random_bytes, last_record_hash, find_folder, role, get_folder, owner_count, bump,
  append_audit,
}
use perseverance.SharedFolders.Folders.{CreateFolder, new_folder, owner_membership, create_folder}
use perseverance.SharedFolders.Invitations.{
  new_invitation, CreateInvitation, AcceptInvitation, Acceptance, create_invitation, accept_write,
  settle_acceptance, accept_invitation,
}
use perseverance.SharedFolders.Members.{
  ChangeRole, RevokeMembership, TransferOwnership, change_role, revoke_membership,
  transfer_ownership,
}
use perseverance.SharedFolders.Tasks.{
  ReserveTask, SettleTask, Reservation, Resolution, new_task, reserve_new, reserve_task,
  settle_task, reserve_approval_resolution,
}
use perseverance.SharedFolders.Reservations.{reserve_task_idempotent}
use perseverance.SharedFolders.Settlements.{
  settle_all, settlement_of_one_task, approval_resolved_once,
}
use perseverance.SharedFolders.Run.{
  Call, creates_folder, gets_folder, creates_invitation, empty_core, step, run,
}
use perseverance.SharedFolders.Cache.{SelfDelimiting, FreshIds}
use perseverance.SharedFolders.Cache.Reads.{real_role}
use perseverance.SharedFolders.Cache.Access.{run-role, run-get_folder, folder_for}
use perseverance.SharedFolders.Owners.{HasOwner, change_role-HasOwner, revoke_membership-HasOwner}
use perseverance.SharedFolders.Owners.Transfer.{transfer_ownership-HasOwner}
use perseverance.SharedFolders.Acceptance.Succeeds.{accept_invitation_succeeds}
use perseverance.SharedFolders.Acceptance.{
  IsAccepted, accept_invitation-IsAccepted, accept_invitation-demotes,
}

abbrev tally : ℕ → String
tally zero = "y" ∷ []
tally (suc n) = "x" ∷ tally n

abbrev env : Environment
env = record {
  uuid = tally;
  random_token = λ _. "token";
  sha256 = λ s. s;
  scope_json = λ _. "[]";
  record_json = λ _. "record";
  decimal = λ _. "1";
}

self_delimiting : SelfDelimiting env
self_delimiting a b s t e = append_cancel_left "[]" s t e

abbrev first_code : String → ℕ
first_code [] = 0
first_code (c ∷ s) = code c

abbrev of_cons : String → String
of_cons [] = []
of_cons (c ∷ s) = s

tallies_apart : FreshIds env
tallies_apart zero zero s t e = refl
tallies_apart zero (suc n) s t e =
    let apart : 121 ≡ 120 =
      ap first_code (sym (cons-append "y" [] s) ∙ e ∙ cons-append "x" (tally n) t) in
    omega (arith, apart)
tallies_apart (suc m) zero s t e =
    let apart : 120 ≡ 121 =
      ap first_code (sym (cons-append "x" (tally m) s) ∙ e ∙ cons-append "y" [] t) in
    omega (arith, apart)
tallies_apart (suc m) (suc n) s t e = ap suc (
    tallies_apart m n s t
      (ap of_cons (sym (cons-append "x" (tally m) s) ∙ e ∙ cons-append "x" (tally n) t)))

abbrev alice : FolderIdentity
alice = record {
  scope = record { tenant_id = "t"; organization_id = "o"; workspace_id = "w" };
  principal_id = "alice";
}

abbrev creation : CreateFolder
creation = record { identity = alice; name = "plans"; now = 1 }

abbrev invitation : CreateInvitation
invitation = record {
  identity = alice;
  folder_id = "fld_y";
  role = viewer;
  expires_in_seconds = 60;
  now = 2;
}

abbrev acceptance : AcceptInvitation
acceptance = record { identity = alice; token = "token"; now = 3 }

abbrev two_calls : List Call
two_calls = List.◌∷◌ (creates_folder creation) (List.◌∷◌ (gets_folder alice "fld_y" manage) List.[])

abbrev all_calls : List Call
all_calls = List.◌∷◌ (creates_folder creation) (List.◌∷◌ (creates_invitation invitation) List.[])

abbrev owned : Core
owned = run env empty_core all_calls

-- The folder's role and access after the calls.
unfoldable machine : Unit {0}
unfolding run step create_folder create_invitation accept_invitation settle_acceptance accept_write
    get_folder find_folder role bump append_audit random_uuid random_bytes last_record_hash
    owner_count folder_key member_key get set trim trim_start trim_end is_space utf16_length ◌>>=◌
    pure throw gets or_throw modify require folder_role_allows change_role reserve_new reserve_task
    settle_task settle_all task_key
machine = tt

run-role_example :
    (role env alice "fld_y" (run env empty_core two_calls)).0
    ≡ ok (real_role env alice "fld_y" (run env empty_core two_calls))
run-role_example = run-role env self_delimiting tallies_apart two_calls alice "fld_y"

role_after_calls : real_role env alice "fld_y" (run env empty_core two_calls) ≡ some owner
unfolding machine
role_after_calls = refl

run-get_folder_example :
    (get_folder env alice "fld_y" read (run env empty_core two_calls)).0
    ≡ folder_for
        (get (folder_key env alice.scope "fld_y") (run env empty_core two_calls).folders)
        (real_role env alice "fld_y" (run env empty_core two_calls))
        read
run-get_folder_example =
    run-get_folder env self_delimiting tallies_apart two_calls alice "fld_y" read

one_owner : owner_count env alice.scope "fld_y" owned ≡ 1
unfolding machine
one_owner = refl

abbrev demotion : ChangeRole
demotion = record {
  identity = alice;
  folder_id = "fld_y";
  target_principal_id = "alice";
  role = editor;
  expected_version = 1;
  now = 4;
}

-- The guard refuses this call.
demotion_refused : (change_role env demotion owned).0 ≡ err last_owner_protected
unfolding machine
demotion_refused = refl

change_role-HasOwner_example : HasOwner env alice.scope "fld_y" (change_role env demotion owned).1
change_role-HasOwner_example = change_role-HasOwner env demotion owned (omega (arith, one_owner))

abbrev removal : RevokeMembership
removal = record {
  identity = alice;
  folder_id = "fld_y";
  target_principal_id = "alice";
  expected_version = 1;
  now = 4;
}

revoke_membership-HasOwner_example :
    HasOwner env alice.scope "fld_y" (revoke_membership env removal owned).1
revoke_membership-HasOwner_example =
    revoke_membership-HasOwner env removal owned (omega (arith, one_owner))

abbrev transfer : TransferOwnership
transfer = record {
  identity = alice;
  folder_id = "fld_y";
  target_principal_id = "alice";
  expected_version = 1;
  steps_down = true;
  now = 4;
}

transfer_ownership-HasOwner_example :
    HasOwner env alice.scope "fld_y" (transfer_ownership env transfer owned).1
transfer_ownership-HasOwner_example =
    transfer_ownership-HasOwner env transfer owned (omega (arith, one_owner))

abbrev taken : Acceptance
taken = record {
  invitation = record {
    scope = alice.scope;
    folder_id = "fld_y";
    invitation_id = "inv_xxy";
    invited_by_principal_id = "alice";
    accepted_by_principal_id = some "alice";
    role = viewer;
    status = accepted;
    expires_at = 60_002;
    accepted_at = some 3;
    revoked_at = none;
    version = 2;
    created_at = 2;
    updated_at = 3;
  };
  membership = record {
    scope = alice.scope;
    folder_id = "fld_y";
    principal_id = "alice";
    role = viewer;
    status = active;
    version = 2;
    accepted_invitation_id = some "inv_xxy";
    created_at = 1;
    updated_at = 3;
    revoked_at = none;
  };
  idempotent = false;
}

accepts : (accept_invitation env acceptance owned).0 ≡ ok taken
unfolding machine
accepts = refl

accept_invitation-IsAccepted_example :
    IsAccepted env acceptance owned taken (accept_invitation env acceptance owned).1
accept_invitation-IsAccepted_example =
    accept_invitation-IsAccepted env acceptance owned taken accepts refl

abbrev alice_owns : FolderMembership
alice_owns = owner_membership creation "fld_y"

stored_owner : get (member_key env alice.scope "fld_y" "alice") owned.memberships ≡ some alice_owns
unfolding machine
stored_owner = refl

accept_invitation-demotes_example :
    owner_count env alice.scope "fld_y" (accept_invitation env acceptance owned).1 + 1
    ≡ owner_count env alice.scope "fld_y" owned
accept_invitation-demotes_example =
    accept_invitation-demotes env acceptance owned taken alice_owns accepts refl stored_owner refl
      refl

-- A task of the folder, and two settlements of it.
abbrev request : ReserveTask
request = record {
  identity = alice;
  folder_id = "fld_y";
  session_id = "session";
  idempotency_key = "key";
  request_hash = "hash";
}

abbrev with_task : Core
with_task = (reserve_task env request owned).1

abbrev settling : SettleTask
settling = record {
  task_id = "tsk_xxxxy";
  status = completed;
  usage_dedupe_key = none;
  credit_reservation_id = none;
  billing_settlement_id = some "bill";
}

abbrev settled : TaskReservation
settled = record (new_task request "[]:key" "xxxxy") {
  billing_settlement_id = some "bill";
  status = completed;
}

first_settled : (settle_task env settling with_task).0 ≡ ok settled
unfolding machine
first_settled = refl

second_settled :
    (settle_task env settling (settle_all env List.[] (settle_task env settling with_task).1)).0
    ≡ ok settled
unfolding machine
second_settled = refl

settlement_of_one_task_example : settled.task_id ≡ settled.task_id
settlement_of_one_task_example =
    settlement_of_one_task env settling settling List.[] "bill" with_task settled settled refl refl
      refl refl first_settled second_settled

approval_resolved_once_example :
    (r : Resolution) × ((reserve_approval_resolution env "approval" 1 "event" empty_core).0 ≡ ok r)
    × (reserve_approval_resolution env "approval" 1 "other"
          (reserve_approval_resolution env "approval" 1 "event" empty_core).1
        ≡ (
          ok (record { resolution_id = r.resolution_id; created = false }),
          (reserve_approval_resolution env "approval" 1 "event" empty_core).1,
        ))
approval_resolved_once_example =
    approval_resolved_once env "approval" 1 "event" "other" empty_core refl

by_token : get "token" owned.invitation_by_digest ≡ some "inv_xxy"
unfolding machine
by_token = refl

abbrev invited : StoredInvitation
invited = new_invitation invitation "inv_xxy" "token"

stored_invitation : get "inv_xxy" owned.invitations ≡ some invited
unfolding machine
stored_invitation = refl

stored_folder :
    get (folder_key env alice.scope "fld_y") owned.folders ≡ some (new_folder creation "fld_y")
unfolding machine
stored_folder = refl

accept_invitation_succeeds_example :
    (a : Acceptance) × ((accept_invitation env acceptance owned).0 ≡ ok a) × (a.idempotent ≡ false)
accept_invitation_succeeds_example =
    accept_invitation_succeeds env acceptance owned "inv_xxy" invited (new_folder creation "fld_y")
      by_token refl stored_invitation refl refl refl stored_folder

abbrev reserved_first : Reservation
reserved_first = record { reservation = new_task request "[]:key" "xxxxy"; created = true }

abbrev reserved_again : Reservation
reserved_again = record { reservation = new_task request "[]:key" "xxxxy"; created = false }

reserves_first : (reserve_task env request owned).0 ≡ ok reserved_first
unfolding machine
reserves_first = refl

reserves_again : (reserve_task env request with_task).0 ≡ ok reserved_again
unfolding machine
reserves_again = refl

reserve_task_idempotent_example :
    reserved_again ≡ record { reservation = reserved_first.reservation; created = false }
reserve_task_idempotent_example =
    reserve_task_idempotent env request owned reserved_first reserved_again reserves_first
      reserves_again
