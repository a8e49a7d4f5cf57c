-- ===== src/SharedFolders/Tasks.antt =====
-- The methods of `InMemorySharedFolderCore` on task reservations and on the resolution of approvals,
-- and those of `InMemorySharedFolderRepository` that do more than pass a call on.
use Prim.Native.String.{◌++◌ as str_append}
use text.Mathlib.Text.{starts_with}
use perseverance.Prelude.{
  ℕ, String, Bool, true, false, not, ◌&&◌, ◌||◌, Option, none, some, str_eq, opt_eq, if◌then◌else◌,
  find, update_first,
}
use perseverance.Prelude.Text.{truthy}
use perseverance.Prelude.Map.{Map, get, set, values}
use perseverance.Prelude.Exec.{pure, gets, modify, require, or_throw, ◌>>=◌, ◌>>◌}
use perseverance.SharedFolders.Types.{
  FolderScope, FolderIdentity, read, turn, approval, reserved, running, TaskStatus, TaskReservation,
  Core, Environment, task_idempotency_conflict, task_not_found, billing_settlement_conflict,
  FolderMethod,
}
use perseverance.SharedFolders.Keys.{task_key, approval_key}
use perseverance.SharedFolders.Store.{random_uuid, get_folder}

pub record ReserveTask : Type 0 where
  pub identity : FolderIdentity
  pub open identity use *
  pub folder_id : String
  pub session_id : String
  pub idempotency_key : String
  pub request_hash : String

pub record BindTaskRuntime : Type 0 where
  pub task_id : String
  pub run_id : String
  pub codex_turn_id : String
  pub upstream_work_id : String
  pub admission_decision_id : Option String
  pub credit_reservation_id : Option String

-- An optional field that is missing is null here.
pub record SettleTask : Type 0 where
  pub task_id : String
  pub status : TaskStatus
  pub usage_dedupe_key : Option String
  pub credit_reservation_id : Option String
  pub billing_settlement_id : Option String

pub record Reservation : Type 0 where
  pub reservation : TaskReservation
  pub created : Bool

pub record Resolution : Type 0 where
  pub resolution_id : String
  pub created : Bool

pub record TaskOfTurn : Type 0 where
  pub identity : FolderIdentity
  pub task_id : String

pub record ResolveApproval : Type 0 where
  pub identity : FolderIdentity
  pub folder_id : String
  pub approval_id : String
  pub expected_version : ℕ
  pub durable_event_id : String

abbrev pub set_task : String → TaskReservation → Core → Core
set_task key t s = record s { tasks = set key t s.tasks }

abbrev pub new_task : ReserveTask → String → String → TaskReservation
new_task input key uuid = record {
  key = key;
  folder_id = input.folder_id;
  principal_id = input.principal_id;
  session_id = input.session_id;
  request_hash = input.request_hash;
  task_id = str_append "tsk_" uuid;
  run_id = none;
  codex_turn_id = none;
  upstream_work_id = none;
  admission_decision_id = none;
  usage_dedupe_key = none;
  credit_reservation_id = none;
  billing_settlement_id = none;
  status = reserved;
}

abbrev pub is_same_request : ReserveTask → TaskReservation → Bool
is_same_request input t =
    str_eq t.folder_id input.folder_id
    && str_eq t.session_id input.session_id
    && str_eq t.request_hash input.request_hash

-- `field ??= value`.
abbrev pub if_null : Option String → Option String → Option String
if_null none value = value
if_null (some old) value = some old

abbrev pub bound_task : BindTaskRuntime → TaskReservation → TaskReservation
bound_task input t = record t {
  run_id = if_null t.run_id (some input.run_id);
  codex_turn_id = if_null t.codex_turn_id (some input.codex_turn_id);
  upstream_work_id = if_null t.upstream_work_id (some input.upstream_work_id);
  admission_decision_id = if_null t.admission_decision_id input.admission_decision_id;
  credit_reservation_id = if_null t.credit_reservation_id input.credit_reservation_id;
  status = running;
}

abbrev pub settled_task : SettleTask → TaskReservation → TaskReservation
settled_task input t = record t {
  usage_dedupe_key = if_null t.usage_dedupe_key input.usage_dedupe_key;
  credit_reservation_id = if_null t.credit_reservation_id input.credit_reservation_id;
  billing_settlement_id = if_null t.billing_settlement_id input.billing_settlement_id;
  status = input.status;
}

abbrev pub is_task : String → TaskReservation → Bool
is_task id t = str_eq t.task_id id

-- The first task with the identifier is changed in place.
abbrev pub change_task : String → (TaskReservation → TaskReservation) → Core → Core
change_task id f s = record s {
  tasks =
      update_first (λ (e : String × TaskReservation). is_task id e.1)
        (λ (e : String × TaskReservation). (e.0, f e.1)) s.tasks;
}

abbrev pub id_text : Option String → String
id_text none = ""
id_text (some s) = s

-- `existing` of `settleTask`.
abbrev pub settled_for : Option String → Map String → Option String
settled_for settlement_id settlements =
    if truthy settlement_id then get (id_text settlement_id) settlements else none

abbrev pub note_settlement : Option String → String → Option String → Core → Core
note_settlement settlement_id task_id existing s =
    if truthy settlement_id && not (truthy existing)
    then record s {
      billing_settlements = set (id_text settlement_id) task_id s.billing_settlements;
    }
    else s

module _ (env : Environment) where
  unfoldable pub reserve_new : ReserveTask → FolderMethod Reservation
  reserve_new input = do
    uuid ← random_uuid env
    let key = task_key env input.scope input.idempotency_key
    let task = new_task input key uuid
    modify (set_task key task)
    pure (record { reservation = task; created = true })

  -- `reserveTask`.
  unfoldable pub reserve_task : ReserveTask → FolderMethod Reservation
  reserve_task input = do
    get_folder env input.identity input.folder_id turn
    current ← gets (λ s. get (task_key env input.scope input.idempotency_key) s.tasks)
    elim current [
      | none ↦ reserve_new input
      | some task ↦ do
        require (is_same_request input task) task_idempotency_conflict
        pure (record { reservation = task; created = false })
    ]

  abbrev pub of_session : String → Option TaskReservation → Option TaskReservation
  of_session session_id none = none
  of_session session_id (some t) = if str_eq t.session_id session_id then some t else none

  -- `getTask`.
  unfoldable pub get_task : FolderIdentity → String → String → FolderMethod TaskReservation
  get_task identity session_id idempotency_key = do
    found ← gets (λ s. get (task_key env identity.scope idempotency_key) s.tasks)
    task ← or_throw (of_session session_id found) task_not_found
    get_folder env identity task.folder_id read
    pure task

  abbrev pub task_of_turn : FolderScope → Option TaskReservation → Option TaskOfTurn
  task_of_turn scope none = none
  task_of_turn scope (some t) = some (record {
    identity = record { scope = scope; principal_id = t.principal_id };
    task_id = t.task_id;
  })

  -- `findTaskByTurn`.
  unfoldable pub find_task_by_turn : FolderScope → String → FolderMethod (Option TaskOfTurn)
  find_task_by_turn scope codex_turn_id = gets (λ s.
      task_of_turn scope (find (λ t. opt_eq t.codex_turn_id (some codex_turn_id)) (values s.tasks)))

  -- `bindTaskRuntime`; it reads nothing of the identity.
  unfoldable pub bind_task_runtime : BindTaskRuntime → FolderMethod TaskReservation
  bind_task_runtime input = do
    found ← gets (λ s. find (is_task input.task_id) (values s.tasks))
    task ← or_throw found task_not_found
    modify (change_task input.task_id (bound_task input))
    pure (bound_task input task)

  -- `settleTask`; it reads nothing of the identity.
  unfoldable pub settle_task : SettleTask → FolderMethod TaskReservation
  settle_task input = do
    found ← gets (λ s. find (is_task input.task_id) (values s.tasks))
    task ← or_throw found task_not_found
    existing ← gets (λ s. settled_for input.billing_settlement_id s.billing_settlements)
    require (not (truthy existing) || opt_eq existing (some task.task_id))
        billing_settlement_conflict
    modify (note_settlement input.billing_settlement_id task.task_id existing)
    modify (change_task input.task_id (settled_task input))
    pure (settled_task input task)

  -- `reserveApprovalResolution` of the core.
  unfoldable pub reserve_approval_resolution : String → ℕ → String → FolderMethod Resolution
  reserve_approval_resolution approval_id expected_version durable_event_id = do
    let key = approval_key env approval_id expected_version
    current ← gets (λ s. get key s.approval_settlements)
    let reserve : FolderMethod Resolution = do
      modify
          (λ s. record s { approval_settlements = set key durable_event_id s.approval_settlements })
      pure (record { resolution_id = durable_event_id; created = true })
    if truthy current
        then pure (record { resolution_id = id_text current; created = false })
        else reserve

  -- `reserveApprovalResolution` of the repository.
  unfoldable pub resolve_approval : ResolveApproval → FolderMethod Resolution
  resolve_approval input = do
    get_folder env input.identity input.folder_id approval
    reserve_approval_resolution input.approval_id input.expected_version input.durable_event_id

  -- `getApprovalResolution`.
  unfoldable pub get_approval_resolution : String → FolderMethod (Option String)
  get_approval_resolution approval_id = gets (λ s.
      elim (find (λ (e : String × String). starts_with e.0 (str_append approval_id ":"))
        s.approval_settlements) [ none ↦ none | some e ↦ some e.1 ])
