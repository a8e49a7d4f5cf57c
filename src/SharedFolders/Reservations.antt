-- ===== src/SharedFolders/Reservations.antt =====
-- The reservation of a task, called twice with one idempotency key.
use perseverance.Prelude.{
  String, ◌≡◌, refl, sym, ap, ◌∙◌, true, false, some, str_eq, eq_iff, of_some,
}
use perseverance.Prelude.Map.{get, get-set_self}
use perseverance.Prelude.Exec.{ok}
use perseverance.Prelude.Exec.Triple.{
  Triple, bind-Triple, gets-Triple, modify-Triple, pure-Triple, require-Triple, elim-Triple,
  weaken-Triple, relax-Triple, returned,
}
use perseverance.SharedFolders.Types.{TaskReservation, turn, Core, Environment}
use perseverance.SharedFolders.Keys.{task_key}
use perseverance.SharedFolders.Store.{random_uuid}
use perseverance.SharedFolders.Tasks.{
  ReserveTask, Reservation, is_same_request, new_task, reserve_new, reserve_task,
}
use perseverance.SharedFolders.Cache.Reads.{get_folder_frame}

str_eq_self : (a : String) → str_eq a a ≡ true
str_eq_self a = (eq_iff a a).1 refl

module _ (env : Environment) (input : ReserveTask) where
  abbrev key : String
  key = task_key env input.scope input.idempotency_key

  -- The task is stored under the key, and is of the same request.
  abbrev IsReserved : TaskReservation → Core → Type 0
  IsReserved t s = (get key s.tasks ≡ some t) × (is_same_request input t ≡ true)

  new_task_same : (k uuid : String) → is_same_request input (new_task input k uuid) ≡ true
  new_task_same k uuid =
      rw (str_eq_self input.folder_id)
        (rw (str_eq_self input.session_id) (str_eq_self input.request_hash))

  reserve_new-IsReserved :
      Triple (λ _. Unit) (reserve_new env input) (λ r. IsReserved r.reservation) (λ _. Unit)
  unfolding reserve_new random_uuid
  reserve_new-IsReserved =
      bind-Triple {Q = λ _ _. Unit} (record { at = λ s p. tt })
        (λ uuid.
          bind-Triple
            (modify-Triple {Q = IsReserved (new_task input key uuid)} _
              (λ s p. (get-set_self key _ s.tasks, new_task_same key uuid)))
            (λ _. pure-Triple _ (λ s p. p)))

  reserve_task-IsReserved :
      Triple (λ _. Unit) (reserve_task env input) (λ r. IsReserved r.reservation) (λ _. Unit)
  unfolding reserve_task
  reserve_task-IsReserved =
      bind-Triple (get_folder_frame env (λ s cache p. p) input.identity input.folder_id turn) (λ _.
        bind-Triple (gets-Triple _) (λ current.
          elim-Triple current (λ _. weaken-Triple (λ s p. tt) reserve_new-IsReserved)
            (λ task e.
              bind-Triple (require-Triple _ _ (λ s p. tt))
                (λ _. pure-Triple _ (λ s ((_, c), b). (sym c ∙ e, b))))))

  reserve_task_again :
      (t : TaskReservation)
      → Triple
          (IsReserved t)
          (reserve_task env input)
          (λ r _. r ≡ record { reservation = t; created = false })
          (λ _. Unit)
  unfolding reserve_task
  reserve_task_again t =
      bind-Triple
        (relax-Triple (λ s p. tt)
          (get_folder_frame env {F = IsReserved t} (λ s cache p. p) input.identity input.folder_id
            turn))
        (λ _. bind-Triple (gets-Triple _) (λ current.
          elim-Triple current (λ e. record { at = λ s ((g, _), c). cc (sym c ∙ e, g) })
            (λ task e. bind-Triple (require-Triple _ _ (λ s p. tt)) (λ _.
              pure-Triple _ (λ s (((g, _), c), _).
                ap (λ (x : TaskReservation). the_reservation x) (of_some (sym e ∙ c ∙ g)))))))
    where
      the_reservation : TaskReservation → Reservation
      the_reservation x = record { reservation = x; created = false }

  -- A reservation is idempotent: where `reserveTask` has returned, and called again with the same input
  -- returns, the second call returns the reservation of the first, and says that it created nothing.
  pub reserve_task_idempotent :
      (s : Core) (first second : Reservation)
      → (reserve_task env input s).0 ≡ ok first
      → (reserve_task env input (reserve_task env input s).1).0 ≡ ok second
      → second ≡ record { reservation = first.reservation; created = false }
  reserve_task_idempotent s first second e f =
      let t = (reserve_task env input s).1 in
      let held =
        returned (λ r. IsReserved r.reservation) (λ _. Unit) (reserve_task env input s) first
          (reserve_task-IsReserved.at s tt) e in
      returned (λ r _. r ≡ record { reservation = first.reservation; created = false }) (λ _. Unit)
        (reserve_task env input t) second ((reserve_task_again first.reservation).at t held) f
