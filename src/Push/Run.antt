-- ===== src/Push/Run.antt =====
-- `InMemoryPushRepository` under any sequence of calls of its methods that do not overlap; a call that
-- threw leaves what it wrote before.
use perseverance.Prelude.{ℕ, String, List, [], ◌∷◌}
use perseverance.Prelude.Exec.{Result}
use perseverance.Prelude.Exec.Triple.{same_outcome}
use perseverance.Push.Types.{
  PushScope, WorkspaceScope, PushSubscriptionRequest, PushOutboxRecord, Repository, Environment,
  PushError,
}
use perseverance.Push.Subscriptions.{expire, upsert, revoke, revoke_device}
use perseverance.Push.Outbox.{Notification, enqueue, drain}
use perseverance.Push.Waiting.{
  IsSettled, Keeps, expire-Keeps, upsert-Keeps, revoke-Keeps, revoke_device-Keeps,
}
use perseverance.Push.Waiting.Deliveries.{enqueue-Keeps, drain-Keeps}

-- The methods that change the repository.
pub data Call : Type 0 where
  upserts : PushScope → PushSubscriptionRequest → Call
  revokes : PushScope → String → ℕ → Call
  revokes_device : PushScope → String → Call
  expires : ℕ → Call
  enqueues : WorkspaceScope → Notification → Call
  drains : ℕ → ℕ → Call

module _ (env : Environment) where
  unfoldable pub step : Repository → Call → Repository
  step s (upserts scope request) = (upsert env scope request s).1
  step s (revokes scope id version) = (revoke env scope id version s).1
  step s (revokes_device scope device_id) = (revoke_device env scope device_id s).1
  step s (expires now) = (expire now s).1
  step s (enqueues scope input) = (enqueue env scope input s).1
  step s (drains now limit) = (drain env now limit s).1

  unfoldable pub run : Repository → List Call → Repository
  run s [] = s
  run s (c ∷ cs) = run (step s c) cs

  kept :
      {A : Type 0} (k : String) (r : PushOutboxRecord)
      (m : Repository → Result PushError A × Repository) (s : Repository)
      → Keeps k r m
      → IsSettled k r s
      → IsSettled k r (m s).1
  kept k r m s t p = same_outcome (IsSettled k r) (m s).0 (m s).1 (t.at s p)

  step-IsSettled :
      (k : String) (r : PushOutboxRecord) (s : Repository) (c : Call)
      → IsSettled k r s
      → IsSettled k r (step s c)
  unfolding step
  step-IsSettled k r s (upserts scope request) = kept k r _ s (upsert-Keeps k r env scope request)
  step-IsSettled k r s (revokes scope id v) = kept k r _ s (revoke-Keeps k r env scope id v)
  step-IsSettled k r s (revokes_device scope id) =
      kept k r _ s (revoke_device-Keeps k r env scope id)
  step-IsSettled k r s (expires now) = kept k r _ s (expire-Keeps k r now)
  step-IsSettled k r s (enqueues scope input) = kept k r _ s (enqueue-Keeps k r env scope input)
  step-IsSettled k r s (drains now limit) = kept k r _ s (drain-Keeps k r env now limit)

  -- A record that is stored under its key, where nothing under the key waits, stays as it is under any
  -- calls that do not overlap, failing ones included.
  pub finished_stays :
      (k : String) (r : PushOutboxRecord) (calls : List Call) (s : Repository)
      → IsSettled k r s
      → IsSettled k r (run s calls)
  unfolding run
  finished_stays k r [] s p = p
  finished_stays k r (c ∷ cs) s p = finished_stays k r cs (step s c) (step-IsSettled k r s c p)
