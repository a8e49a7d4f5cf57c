-- ===== src/Push/Once.antt =====
-- That `enqueue` of one notification twice adds nothing the second time.
use perseverance.Prelude.{
  suc, String, ◌≡◌, refl, sym, ap, ◌∙◌, subst, Bool, true, ◌&&◌, List, [], ◌∷◌, inl, inr, arith,
  is_some, Bool-cases,
}
use perseverance.Prelude.Map.{get, get-set, get-set_self, values}
use perseverance.Prelude.Exec.{Result, ok, err, ◌>>=◌}
use perseverance.Prelude.Exec.Triple.{
  Outcome, Triple, bind-Triple, gets-Triple, modify-Triple, pure-Triple, cases-Triple, both-Triple,
  relax-Triple, weaken-Triple, strengthen-Triple, if-Triple, skip_gets,
}
use perseverance.Push.Types.{
  WorkspaceScope, StoredSubscription, PushOutboxRecord, Repository, Environment, PushError,
  is_active, in_workspace,
}
use perseverance.Push.Subscriptions.{read_clock}
use perseverance.Push.Outbox.{
  Notification, outbox_id_of, set_record, enqueue_row, enqueue_rows, enqueue,
}

no_error :
    {A : Type 0} (Q : Repository → Type 0) (r : Result PushError A) (s : Repository)
    → Outcome (λ _. Q) (λ _. ⊥) r s
    → Q s
no_error Q (ok a) s q = q
no_error Q (err e) s q = absurd q

module _ (env : Environment) (scope : WorkspaceScope) (input : Notification) where
  abbrev IsKnown : String → Repository → Type 0
  IsKnown id s = is_some (get id s.outbox) ≡ true

  abbrev is_notified : StoredSubscription → Bool
  is_notified row = is_active row.status && in_workspace scope row

  -- Every row that is notified has its record.
  abbrev AreKnown : List StoredSubscription → Repository → Type 0
  AreKnown [] s = Unit
  AreKnown (row ∷ rows) s =
      (is_notified row ≡ true → IsKnown (outbox_id_of env input row) s) × AreKnown rows s

  set_record-IsKnown :
      (id k : String) (v : PushOutboxRecord) (s : Repository)
      → IsKnown id s
      → IsKnown id (set_record k v s)
  set_record-IsKnown id k v s h = ground (arith, get-set k id v s.outbox)

  -- What `enqueue` keeps: what stays when a record is stored and when the clock is read.
  record IsFrame (F : Repository → Type 0) : Type 0 where
    pub on_set : (k : String) (v : PushOutboxRecord) (s : Repository) → F s → F (set_record k v s)
    pub on_read : (s : Repository) → F s → F (record s { reads = suc s.reads })

  enqueue_row_frame :
      {F : Repository → Type 0} (row : StoredSubscription)
      → IsFrame F
      → Triple F (enqueue_row env scope input row) (λ _. F) (λ _. ⊥)
  unfolding enqueue_row read_clock
  enqueue_row_frame {F} row keep = bind-Triple (skip_gets _) (λ known.
      if-Triple known (pure-Triple 0 (λ s p. p)) (
        bind-Triple {Q = λ _. F} (record { at = λ s p. keep.on_read s p })
          (λ now.
            bind-Triple (modify-Triple {Q = F} _ (λ s p. keep.on_set _ _ s p))
              (λ _. pure-Triple 1 (λ s p. p)))))

  enqueue_rows_frame :
      {F : Repository → Type 0} (rows : List StoredSubscription)
      → IsFrame F
      → Triple F (enqueue_rows env scope input rows) (λ _. F) (λ _. ⊥)
  unfolding enqueue_rows
  enqueue_rows_frame [] keep = pure-Triple 0 (λ s p. p)
  enqueue_rows_frame (row ∷ rows) keep =
      if-Triple _
        (bind-Triple (enqueue_row_frame row keep)
          (λ _. bind-Triple (enqueue_rows_frame rows keep) (λ _. pure-Triple _ (λ s p. p))))
        (enqueue_rows_frame rows keep)

  IsKnown-IsFrame : (id : String) → IsFrame (IsKnown id)
  IsKnown-IsFrame id = record {
    on_set = λ k v s p. set_record-IsKnown id k v s p;
    on_read = λ s p. p;
  }

  enqueue_row_adds :
      (row : StoredSubscription)
      → Triple
          (λ _. Unit)
          (enqueue_row env scope input row)
          (λ _. IsKnown (outbox_id_of env input row))
          (λ _. ⊥)
  unfolding enqueue_row read_clock
  enqueue_row_adds row = bind-Triple (gets-Triple _) (λ known.
      cases-Triple known (λ b. pure-Triple 0 (λ s (_, e). sym e ∙ b))
        (λ _. bind-Triple {Q = λ _ _. Unit} (clock known) (λ now.
          bind-Triple
            (modify-Triple {Q = IsKnown (outbox_id_of env input row)} _
              (λ s _. ap (λ o. is_some o) (get-set_self _ _ s.outbox)))
            (λ _. pure-Triple 1 (λ s p. p)))))
    where
      clock :
          (known : Bool)
          → Triple
              (λ s. Unit × (known ≡ is_some (get (outbox_id_of env input row) s.outbox)))
              (read_clock env)
              (λ _ _. Unit)
              (λ _. ⊥)
      clock known = record { at = λ s p. tt }

  enqueue_rows_adds :
      (rows : List StoredSubscription)
      → Triple (λ _. Unit) (enqueue_rows env scope input rows) (λ _. AreKnown rows) (λ _. ⊥)
  unfolding enqueue_rows
  enqueue_rows_adds [] = pure-Triple 0 (λ s p. tt)
  enqueue_rows_adds (row ∷ rows) =
      let id = outbox_id_of env input row in
      cases-Triple (is_notified row)
        (λ on. bind-Triple (enqueue_row_adds row) (λ _.
          bind-Triple
            (relax-Triple (λ s p. p.0)
              (weaken-Triple (λ s p. (p, tt))
                (both-Triple (enqueue_rows_frame rows (IsKnown-IsFrame id))
                  (enqueue_rows_adds rows))))
            (λ _. pure-Triple _ (λ s (p, q). (λ _. p, q)))))
        (λ off. strengthen-Triple (λ _ s q. (λ on. cc (on, off), q)) (enqueue_rows_adds rows))

  -- With all records known, the loop adds nothing.
  enqueue_known :
      (row : StoredSubscription) (s : Repository)
      → IsKnown (outbox_id_of env input row) s
      → enqueue_row env scope input row s ≡ (ok 0, s)
  unfolding enqueue_row ◌>>=◌
  enqueue_known row s h = rw h refl

  enqueue_all_known :
      (rows : List StoredSubscription) (s : Repository)
      → AreKnown rows s
      → enqueue_rows env scope input rows s ≡ (ok 0, s)
  unfolding enqueue_rows ◌>>=◌
  enqueue_all_known [] s h = refl
  enqueue_all_known (row ∷ rows) s (h, hs) = elim (Bool-cases (is_notified row)) [
    | inl on ↦ rw on (rw (enqueue_known row s (h on)) (rw (enqueue_all_known rows s hs) refl))
    | inr off ↦ rw off (enqueue_all_known rows s hs)
  ]

  enqueue_of_rows :
      (s : Repository) → enqueue env scope input s ≡ enqueue_rows env scope input (values s.rows) s
  unfolding enqueue ◌>>=◌
  enqueue_of_rows s = refl

  -- A notification is queued once: `enqueue` with the same scope and the same notification, right after
  -- a first call in any state, returns that it has added nothing and changes nothing.
  pub enqueue_once :
      (s : Repository)
      → enqueue env scope input (enqueue env scope input s).1
        ≡ (ok 0, (enqueue env scope input s).1)
  enqueue_once s =
      let rows = values s.rows in
      let first = enqueue_rows env scope input rows s in
      let known : AreKnown rows first.1 =
        no_error (AreKnown rows) first.0 first.1 ((enqueue_rows_adds rows).at s tt) in
      let same : first.1.rows ≡ s.rows =
        no_error (λ t. t.rows ≡ s.rows) first.0 first.1
          ((enqueue_rows_frame rows (record { on_set = λ k v t p. p; on_read = λ t p. p })).at s
            refl) in
      let again : enqueue env scope input first.1 ≡ (ok 0, first.1) =
        enqueue_of_rows first.1
        ∙ ap (λ rs. enqueue_rows env scope input (values rs) first.1) same
        ∙ enqueue_all_known rows first.1 known in
      subst (λ x. enqueue env scope input x.1 ≡ (ok 0, x.1)) (sym (enqueue_of_rows s)) again
