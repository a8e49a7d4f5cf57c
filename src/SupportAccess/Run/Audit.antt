-- ===== src/SupportAccess/Run/Audit.antt =====
-- The audit log under sequences of calls.
use mathlib.Core.List.{append_assoc, append-nil}
use perseverance.Prelude.{
  ℕ, suc, ◌+◌, String, ◌≡◌, refl, sym, ◌∙◌, Bool, true, ◌&&◌, List, [], ◌∷◌, ◌++◌, arith, length,
  eq_iff, ◌==◌,
}
use perseverance.SupportAccess.Types.{Audit, Service, Runtime}
use perseverance.SupportAccess.Store.{of_grant, of_break_glass, last_hash}
use perseverance.SupportAccess.Outbox.{chain_from, verify_audit_chain}
use perseverance.SupportAccess.Protocol.{Change, Reach, here, next, logged}
use perseverance.SupportAccess.Run.{Call, run, run-Reach}

-- The records are numbered from `n` on.
abbrev pub numbered : ℕ → List Audit → Bool
numbered n [] = true
numbered n (r ∷ rs) = r.sequence == n && numbered (suc n) rs

numbered-snoc :
    (n : ℕ) (log : List Audit) (r : Audit)
    → numbered n log ≡ true
    → r.sequence ≡ n + length log
    → numbered n (log ++ r ∷ []) ≡ true
numbered-snoc n [] r h e = ground arith
numbered-snoc n (x ∷ log) r h e = ground (arith, numbered-snoc (suc n) log r)

chain_from-snoc :
    (rt : Runtime) (previous : String) (log : List Audit) (r : Audit)
    → chain_from rt previous log ≡ true
    → r.previous_hash ≡ last_hash previous log
    → r.record_hash ≡ rt.sha256 (rt.audit_json r.body)
    → chain_from rt previous (log ++ r ∷ []) ≡ true
unfolding chain_from last_hash
chain_from-snoc rt previous [] r h p e = ground (
  arith,
  eq_iff r.previous_hash previous,
  eq_iff (rt.sha256 (rt.audit_json r.body)) r.record_hash,
)
chain_from-snoc rt previous (x ∷ log) r h p e =
    ground (arith, chain_from-snoc rt x.record_hash log r)

abbrev pub IsChained : Runtime → Service → Type 0
IsChained rt s = (verify_audit_chain rt s.audit ≡ true) × (numbered 1 s.audit ≡ true)

-- One record is appended, or none.
data Grown (rt : Runtime) (s t : Service) : Type 0 where
  same : t.audit ≡ s.audit → Grown rt s t
  more :
      (r : Audit)
      → t.audit ≡ s.audit ++ r ∷ []
      → r.sequence ≡ length s.audit + 1
      → r.previous_hash ≡ last_hash "GENESIS" s.audit
      → r.record_hash ≡ rt.sha256 (rt.audit_json r.body)
      → Grown rt s t

Change-Grown : {rt : Runtime} {s t : Service} → Change rt s t → Grown rt s t
Change-Grown (logged s (of_grant g) _ _ _ _ _ _) = more _ refl refl refl refl
Change-Grown (logged s (of_break_glass b) _ _ _ _ _ _) = more _ refl refl refl refl
Change-Grown _ = same refl

Grown-IsChained : {rt : Runtime} {s t : Service} → Grown rt s t → IsChained rt s → IsChained rt t
unfolding verify_audit_chain
Grown-IsChained (same e) h = rw e h
Grown-IsChained {rt = rt} {s = s} (more r e at before signed) h = rw e (
  chain_from-snoc rt "GENESIS" s.audit r h.0 before signed,
  numbered-snoc 1 s.audit r h.1 (omega (arith, at)),
)

Reach-IsChained : {rt : Runtime} {s t : Service} → Reach rt s t → IsChained rt s → IsChained rt t
Reach-IsChained here h = h
Reach-IsChained (next r c) h = Grown-IsChained (Change-Grown c) (Reach-IsChained r h)

-- What was in the log stays there, and new records come behind it.
abbrev pub Extends : List Audit → List Audit → Type 0
Extends old log = (added : List Audit) × (log ≡ old ++ added)

Grown-Extends :
    {rt : Runtime} {s t : Service} (old : List Audit)
    → Grown rt s t
    → Extends old s.audit
    → Extends old t.audit
Grown-Extends old (same e) (added, h) = (added, e ∙ h)
Grown-Extends old (more r e _ _ _) (added, h) =
    (added ++ r ∷ [], e ∙ rw h (append_assoc old added (r ∷ [])))

Reach-Extends : {rt : Runtime} {s t : Service} → Reach rt s t → Extends s.audit t.audit
Reach-Extends {s = s} here = ([], sym (append-nil s.audit))
Reach-Extends {s = s} (next r c) = Grown-Extends s.audit (Change-Grown c) (Reach-Extends r)

-- From any service whose audit log is numbered from 1 and passes `verifyAuditChain`, every sequence
-- of calls, failing ones included, leaves a log that is numbered from 1 and passes it.
pub run-IsChained :
    (rt : Runtime) (s : Service) (cs : List Call) → IsChained rt s → IsChained rt (run rt s cs)
run-IsChained rt s cs h = Reach-IsChained (run-Reach rt s cs) h

-- No sequence of calls removes, changes or reorders a record of the audit log: the log before the
-- calls is a prefix of the log after them.
pub audit_append_only :
    (rt : Runtime) (s : Service) (cs : List Call) → Extends s.audit (run rt s cs).audit
audit_append_only rt s cs = Reach-Extends (run-Reach rt s cs)
