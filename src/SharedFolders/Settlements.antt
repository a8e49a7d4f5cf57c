-- ===== src/SharedFolders/Settlements.antt =====
-- What is settled once: the task of a billing settlement and the resolution of an approval.
use perseverance.Prelude.{
  ℕ, String, ◌≡◌, refl, sym, ap, ◌∙◌, subst, Bool, true, false, not, ◌&&◌, ◌||◌, Option, none, some,
  inl, inr, arith, eq_iff, str_eq, opt_eq, List, [], ◌∷◌, Bool-cases, of_some,
}
use perseverance.Prelude.Text.{truthy}
use perseverance.Prelude.Map.{Map, get, get-set_self, get-set_other}
use perseverance.Prelude.Exec.{ok, ◌>>=◌}
use perseverance.Prelude.Exec.Triple.{
  Triple, bind-Triple, require-Triple, gets-Triple, modify-Triple, pure-Triple, skip_gets,
  skip_or_throw, skip_require, same_outcome, returned,
}
use perseverance.SharedFolders.Types.{TaskReservation, Core, Environment}
use perseverance.SharedFolders.Keys.{approval_key}
use perseverance.SharedFolders.Tasks.{
  SettleTask, Resolution, id_text, settled_for, note_settlement, settle_task,
  reserve_approval_resolution,
}

truthy-id_text : (o : Option String) → truthy o ≡ true → o ≡ some (id_text o)
truthy-id_text none h = cc
truthy-id_text (some s) h = refl

module _ (env : Environment) where
  -- An approval at a version is resolved once: a second call of the core's
  -- `reserveApprovalResolution` for it, with whatever event identifier, returns the identifier of the
  -- first call, says that it created nothing and changes nothing, if that identifier is not empty.
  pub approval_resolved_once :
      (approval_id : String) (version : ℕ) (first second : String) (s : Core)
      → truthy (some first) ≡ true
      → (r : Resolution) × ((reserve_approval_resolution env approval_id version first s).0 ≡ ok r)
        × (reserve_approval_resolution env approval_id version second
              (reserve_approval_resolution env approval_id version first s).1
            ≡ (
              ok (record { resolution_id = r.resolution_id; created = false }),
              (reserve_approval_resolution env approval_id version first s).1,
            ))
  unfolding reserve_approval_resolution ◌>>=◌
  approval_resolved_once approval_id version first second s h =
      let key = approval_key env approval_id version in
      let old = get key s.approval_settlements in
      elim (Bool-cases (truthy old)) [
        | inl b ↦
            (record { resolution_id = id_text old; created = false }, rw b refl, rw b (rw b refl))
        | inr b ↦ (
          record { resolution_id = first; created = true },
          rw b refl,
          rw b (rw (get-set_self key first s.approval_settlements) (rw h refl)),
        )
      ]

-- The task of the settlement, read from the map.
settled_for-truthy :
    (id : String) (settlements : Map String)
    → truthy (some id) ≡ true
    → settled_for (some id) settlements ≡ get id settlements
settled_for-truthy id settlements t = rw t refl

-- A binding that is not empty stays when another call notes its own.
note_keeps :
    (settlement : Option String) (task : String) (existing : Option String) (s : Core)
    (id bound : String)
    → truthy (some bound) ≡ true
    → get id s.billing_settlements ≡ some bound
    → existing ≡ settled_for settlement s.billing_settlements
    → get id (note_settlement settlement task existing s).billing_settlements ≡ some bound
note_keeps none task existing s id bound t h e = h
note_keeps (some x) task existing s id bound t h e =
    elim (Bool-cases (truthy (some x) && not (truthy existing))) [
      | inr off ↦ rw off h
      | inl on ↦
          let fresh : str_eq x id ≡ false = elim (Bool-cases (str_eq x id)) [
            | inr apart ↦ apart
            | inl same ↦
                let full : existing ≡ some bound =
                  e
                  ∙ settled_for-truthy x s.billing_settlements (first_of _ (truthy existing) on).0
                  ∙ ap (λ k. get k s.billing_settlements) ((eq_iff x id).0 same)
                  ∙ h in
                cc ((first_of (truthy (some x)) _ on).1, ap truthy full ∙ t)
          ] in
          rw on (get-set_other x id task s.billing_settlements fresh ∙ h)
    ]
  where
    first_of : (a b : Bool) → (a && not b) ≡ true → (a ≡ true) × (b ≡ false)
    first_of a b h = ground arith

-- After a call has noted its settlement, the settlement is bound to its task, if the test passed.
note_binds :
    (id task : String) (existing : Option String) (s : Core)
    → truthy (some id) ≡ true
    → existing ≡ settled_for (some id) s.billing_settlements
    → (not (truthy existing) || opt_eq existing (some task)) ≡ true
    → get id (note_settlement (some id) task existing s).billing_settlements ≡ some task
note_binds id task existing s t e g = elim (Bool-cases (truthy existing)) [
  | inr off ↦ rw t (rw off (get-set_self id task s.billing_settlements))
  | inl on ↦
      rw t
        (rw on (sym (settled_for-truthy id s.billing_settlements t) ∙ sym e ∙ bound existing on g))
]
  where
    bound :
        (o : Option String)
        → truthy o ≡ true
        → (not (truthy o) || opt_eq o (some task)) ≡ true
        → o ≡ some task
    bound none a b = cc
    bound (some x) a b =
        let same : str_eq x task ≡ true = subst (λ c. (not c || str_eq x task) ≡ true) a b in
        ap (λ y. some y) ((eq_iff x task).0 same)

module _ (env : Environment) where
  -- The settlement is bound to the task.
  abbrev IsBound : String → String → Core → Type 0
  IsBound id task s = get id s.billing_settlements ≡ some task

  settle_first :
      (input : SettleTask) (id : String)
      → truthy (some id) ≡ true
      → input.billing_settlement_id ≡ some id
      → Triple (λ _. Unit) (settle_task env input) (λ r. IsBound id r.task_id) (λ _. Unit)
  unfolding settle_task
  settle_first input id t e = bind-Triple (skip_gets _) (λ _.
      bind-Triple (skip_or_throw _ _ (λ _ _. tt)) (λ task. bind-Triple (gets-Triple _) (λ existing.
        bind-Triple (require-Triple _ _ (λ _ _. tt)) (λ _.
          bind-Triple
            (modify-Triple {Q = IsBound id task.task_id} _
              (λ s ((_, x), g). noted task existing s x g))
            (λ _.
              bind-Triple (modify-Triple {Q = IsBound id task.task_id} _ (λ s p. p))
                (λ _. pure-Triple _ (λ s p. p)))))))
    where
      noted :
          (task : TaskReservation) (existing : Option String) (s : Core)
          → existing ≡ settled_for input.billing_settlement_id s.billing_settlements
          → (not (truthy existing) || opt_eq existing (some task.task_id)) ≡ true
          → IsBound id task.task_id
              (note_settlement input.billing_settlement_id task.task_id existing s)
      noted task existing s x g = rw e (
          note_binds id task.task_id existing s t
            (x ∙ ap (λ o. settled_for o s.billing_settlements) e) g)

  settle_keeps :
      (input : SettleTask) (id bound : String)
      → truthy (some bound) ≡ true
      → Triple (IsBound id bound) (settle_task env input) (λ _. IsBound id bound) (IsBound id bound)
  unfolding settle_task
  settle_keeps input id bound t = bind-Triple (skip_gets _) (λ _.
      bind-Triple (skip_or_throw _ _ (λ _ p. p)) (λ task. bind-Triple (gets-Triple _) (λ existing.
        bind-Triple (skip_require _ _ (λ _ p. p.0)) (λ _.
          bind-Triple
            (modify-Triple {Q = IsBound id bound} _ (λ s (h, x).
              note_keeps input.billing_settlement_id task.task_id existing s id bound t h x))
            (λ _.
              bind-Triple (modify-Triple {Q = IsBound id bound} _ (λ s p. p))
                (λ _. pure-Triple _ (λ s p. p)))))))

  -- Calls of `settleTask` one after another; one that threw is passed over.
  unfoldable pub settle_all : List SettleTask → Core → Core
  settle_all [] s = s
  settle_all (input ∷ inputs) s = settle_all inputs (settle_task env input s).1

  settle_all_keeps :
      (inputs : List SettleTask) (id bound : String) (s : Core)
      → truthy (some bound) ≡ true
      → IsBound id bound s
      → IsBound id bound (settle_all inputs s)
  unfolding settle_all
  settle_all_keeps [] id bound s t h = h
  settle_all_keeps (input ∷ inputs) id bound s t h = settle_all_keeps inputs id bound _ t (
      same_outcome (IsBound id bound) (settle_task env input s).0 (settle_task env input s).1
        ((settle_keeps input id bound t).at s h))

  -- A billing settlement is charged for one task: where `settleTask` returned for a settlement, and
  -- after any further calls of it returns for the same settlement again, both have returned the same
  -- task. The identifiers of the settlement and of the first task are not empty.
  pub settlement_of_one_task :
      (first last : SettleTask) (between : List SettleTask) (id : String) (s : Core)
      (r q : TaskReservation)
      → truthy (some id) ≡ true
      → truthy (some r.task_id) ≡ true
      → first.billing_settlement_id ≡ some id
      → last.billing_settlement_id ≡ some id
      → (settle_task env first s).0 ≡ ok r
      → (settle_task env last (settle_all between (settle_task env first s).1)).0 ≡ ok q
      → q.task_id ≡ r.task_id
  settlement_of_one_task first last between id s r q t n a b e f =
      let start =
        returned (λ r. IsBound id r.task_id) (λ _. Unit) (settle_task env first s) r
          ((settle_first first id t a).at s tt) e in
      let middle = settle_all between (settle_task env first s).1 in
      let held = settle_all_keeps between id r.task_id _ n start in
      let end =
        returned (λ r. IsBound id r.task_id) (λ _. Unit) (settle_task env last middle) q
          ((settle_first last id t b).at middle tt) f in
      let kept =
        same_outcome (IsBound id r.task_id) (settle_task env last middle).0
          (settle_task env last middle).1 ((settle_keeps last id r.task_id n).at middle held) in
      of_some (sym end ∙ kept)
