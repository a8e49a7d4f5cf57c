-- ===== src/SharedFolders/Cache/Resources.antt =====
-- The methods on resources and tasks, for the cached roles.
use perseverance.Prelude.{String, not, ◌&&◌, Option, none, inl, inr, Bool-cases}
use perseverance.Prelude.Text.{truthy}
use perseverance.Prelude.Exec.Triple.{
  bind-Triple, modify-Triple, pure-Triple, if-Triple, elim-Triple, skip_gets, skip_require,
  skip_or_throw,
}
use perseverance.SharedFolders.Types.{
  FolderScope, FolderIdentity, Capability, ResourceType, mutate, read, turn, approval, Core,
  Environment,
}
use perseverance.SharedFolders.Store.{random_uuid}
use perseverance.SharedFolders.Resources.{
  BindResource, bind_resource, authorize_resource, authorize_workload_resource,
}
use perseverance.SharedFolders.Tasks.{
  ReserveTask, BindTaskRuntime, SettleTask, ResolveApproval, reserve_new, reserve_task, get_task,
  note_settlement, bind_task_runtime, settle_task, reserve_approval_resolution, resolve_approval,
}
use perseverance.SharedFolders.Cache.{IsCoherent, Coherent-draw}
use perseverance.SharedFolders.Cache.Writes.{KeepsCoherent, get_folder-IsCoherent}

module _ (env : Environment) where
  pub bind_resource-Triple : (input : BindResource) → KeepsCoherent env (bind_resource env input)
  unfolding bind_resource
  bind_resource-Triple input =
      bind-Triple (get_folder-IsCoherent env input.identity input.folder_id mutate) (λ _.
        bind-Triple (skip_gets _) (λ _. bind-Triple (skip_require _ _ (λ s c. c)) (λ _.
          bind-Triple (modify-Triple {Q = IsCoherent env none} _ (λ s c. c))
            (λ _. pure-Triple _ (λ s c. c)))))

  pub authorize_resource-Triple :
      (identity : FolderIdentity) (type : ResourceType) (id : String) (capability : Capability)
      → KeepsCoherent env (authorize_resource env identity type id capability)
  unfolding authorize_resource
  authorize_resource-Triple identity type id capability = bind-Triple (skip_gets _) (λ _.
      bind-Triple (skip_or_throw _ _ (λ s c. c)) (λ binding.
        bind-Triple (get_folder-IsCoherent env identity binding.folder_id capability)
          (λ _. pure-Triple _ (λ s c. c))))

  pub authorize_workload_resource-Triple :
      (scope : FolderScope) (type : ResourceType) (id : String)
      → KeepsCoherent env (authorize_workload_resource env scope type id)
  unfolding authorize_workload_resource
  authorize_workload_resource-Triple scope type id = bind-Triple (skip_gets _) (λ _.
      bind-Triple (skip_or_throw _ _ (λ s c. c)) (λ _.
        bind-Triple (skip_gets _)
          (λ _. bind-Triple (skip_or_throw _ _ (λ s c. c)) (λ _. pure-Triple _ (λ s c. c)))))

  reserve_new-Triple : (input : ReserveTask) → KeepsCoherent env (reserve_new env input)
  unfolding reserve_new random_uuid
  reserve_new-Triple input = bind-Triple draw (λ _.
      bind-Triple (modify-Triple {Q = IsCoherent env none} _ (λ s c. c))
        (λ _. pure-Triple _ (λ s c. c)))
    where
      draw : KeepsCoherent env (random_uuid env)
      draw = record { at = λ s c. Coherent-draw env c }

  pub reserve_task-Triple : (input : ReserveTask) → KeepsCoherent env (reserve_task env input)
  unfolding reserve_task
  reserve_task-Triple input =
      bind-Triple (get_folder-IsCoherent env input.identity input.folder_id turn) (λ _.
        bind-Triple (skip_gets _) (λ current.
          elim-Triple current (λ _. reserve_new-Triple input)
            (λ task _. bind-Triple (skip_require _ _ (λ s c. c)) (λ _. pure-Triple _ (λ s c. c)))))

  pub get_task-Triple :
      (identity : FolderIdentity) (session_id key : String)
      → KeepsCoherent env (get_task env identity session_id key)
  unfolding get_task
  get_task-Triple identity session_id key = bind-Triple (skip_gets _) (λ _.
      bind-Triple (skip_or_throw _ _ (λ s c. c)) (λ task.
        bind-Triple (get_folder-IsCoherent env identity task.folder_id read)
          (λ _. pure-Triple _ (λ s c. c))))

  pub bind_task_runtime-Triple :
      (input : BindTaskRuntime) → KeepsCoherent env (bind_task_runtime env input)
  unfolding bind_task_runtime
  bind_task_runtime-Triple input = bind-Triple (skip_gets _) (λ _.
      bind-Triple (skip_or_throw _ _ (λ s c. c)) (λ _.
        bind-Triple (modify-Triple {Q = IsCoherent env none} _ (λ s c. c))
          (λ _. pure-Triple _ (λ s c. c))))

  note_settlement-IsCoherent :
      (id : Option String) (task : String) (existing : Option String) (s : Core)
      → IsCoherent env none s
      → IsCoherent env none (note_settlement id task existing s)
  note_settlement-IsCoherent id task existing s c =
      elim (Bool-cases (truthy id && not (truthy existing))) [ inl b ↦ rw b c | inr b ↦ rw b c ]

  pub settle_task-Triple : (input : SettleTask) → KeepsCoherent env (settle_task env input)
  unfolding settle_task
  settle_task-Triple input = bind-Triple (skip_gets _) (λ _.
      bind-Triple (skip_or_throw _ _ (λ s c. c)) (λ task. bind-Triple (skip_gets _) (λ existing.
        bind-Triple (skip_require _ _ (λ s c. c)) (λ _.
          bind-Triple
            (modify-Triple {Q = IsCoherent env none} _
              (λ s c. note_settlement-IsCoherent _ task.task_id existing s c))
            (λ _.
              bind-Triple (modify-Triple {Q = IsCoherent env none} _ (λ s c. c))
                (λ _. pure-Triple _ (λ s c. c)))))))

  pub resolve_approval-Triple :
      (input : ResolveApproval) → KeepsCoherent env (resolve_approval env input)
  unfolding resolve_approval reserve_approval_resolution
  resolve_approval-Triple input =
      bind-Triple (get_folder-IsCoherent env input.identity input.folder_id approval) (λ _.
        bind-Triple (skip_gets _) (λ current. if-Triple _ (pure-Triple _ (λ s c. c)) (
          bind-Triple (modify-Triple {Q = IsCoherent env none} _ (λ s c. c))
            (λ _. pure-Triple _ (λ s c. c)))))
