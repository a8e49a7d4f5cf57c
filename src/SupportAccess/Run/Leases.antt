-- ===== src/SupportAccess/Run/Leases.antt =====
-- The life of a lease under sequences of calls.
use Prim.Native.String.{◌++◌ as str_append}
use text.Mathlib.TextLemmas.{append_cancel_left}
use perseverance.Prelude.{
  ℕ, suc, ◌<◌, String, ◌≡◌, refl, sym, ap, ◌∙◌, subst, Bool, true, false, ◌||◌, List, [], ◌∷◌,
  Option, none, some, inl, inr, arith, str_eq, eq_iff, if◌then◌else◌, Bool-cases, is_some, of_some,
}
use perseverance.Prelude.Map.{Map, get, set, get-set, get-set_cases}
use perseverance.Prelude.Exec.{ok}
use perseverance.SupportAccess.Types.{Lease, Service, Runtime}
use perseverance.SupportAccess.Store.{is_live_lease_of, revoke_loop}
use perseverance.SupportAccess.Leases.{ConsumeLease, expire, consume_lease}
use perseverance.SupportAccess.Consume.{consume_lease-IsGranted}
use perseverance.SupportAccess.Protocol.{
  Change, Reach, here, next, ticked, grant_opened, break_glass_opened, leases_revoked, lease_issued,
  lease_spent, spent,
}
use perseverance.SupportAccess.Protocol.Leases.{expire-Reach, consume_lease-Reach}
use perseverance.SupportAccess.Run.{Call, run, run-Reach}
use perseverance.SupportAccess.Run.FourEyes.{Fresh}

-- Consumed or revoked.
abbrev pub is_dead : Lease → Bool
is_dead l = is_some l.consumed_at || is_some l.revoked_at

-- The identifier names a lease that is consumed or revoked.
abbrev pub IsDead : String → Service → Type 0
IsDead id s = (l : Lease) × (get id s.leases ≡ some l) × (is_dead l ≡ true)

-- The identifiers of the leases have been drawn from `randomUUID`.
abbrev pub AreDrawn : Runtime → Service → Type 0
AreDrawn rt s =
    (id : String) (l : Lease)
    → get id s.leases ≡ some l
    → (n : ℕ) × (n < s.uuids) × (id ≡ str_append "jit_" (rt.uuid n))

abbrev revoked_at : Lease → ℕ → Lease
revoked_at x at = record x { public = record x.public { revoked_at = some at } }

revoked_at-dead :
    (x : Lease) (hit : Bool) (at : ℕ)
    → is_dead x ≡ true
    → is_dead (if hit then revoked_at x at else x) ≡ true
revoked_at-dead x true at h = ground arith
revoked_at-dead x false at h = h

module _ (rt : Runtime) (gid bid : Option String) where
  revoke_loop-dead :
      (reads : ℕ) (id : String) (m : Map Lease) (l : Lease)
      → get id m ≡ some l
      → is_dead l ≡ true
      → (l' : Lease) × (get id (revoke_loop rt gid bid reads m).0 ≡ some l') × (is_dead l' ≡ true)
  unfolding get revoke_loop
  revoke_loop-dead reads id [] l e d = cc
  revoke_loop-dead reads id ((j, x) ∷ m) l e d =
      let hit = is_live_lease_of gid bid x in
      elim (Bool-cases (str_eq j id)) [
        | inl here' ↦
            let same : x ≡ l = of_some (rw here' at e) in
            (
              if hit then revoked_at x (rt.now reads) else x,
              rw here' refl,
              revoked_at-dead x hit (rt.now reads) (ap is_dead same ∙ d),
            )
        | inr there ↦
            rw there (revoke_loop-dead (if hit then suc reads else reads) id m l (rw there at e) d)
      ]

  revoke_loop-absent :
      (reads : ℕ) (id : String) (m : Map Lease) (l' : Lease)
      → get id (revoke_loop rt gid bid reads m).0 ≡ some l'
      → (l : Lease) × (get id m ≡ some l)
  unfolding get revoke_loop
  revoke_loop-absent reads id [] l' e = cc
  revoke_loop-absent reads id ((j, x) ∷ m) l' e =
      let hit = is_live_lease_of gid bid x in
      elim (Bool-cases (str_eq j id)) [
        | inl here' ↦ (x, rw here' refl)
        | inr there ↦
            rw there (revoke_loop-absent (if hit then suc reads else reads) id m l' (rw there at e))
      ]

-- A lease under another key than the one that is set.
other_key :
    (id k : String) (v : Lease) (s : Service)
    → str_eq k id ≡ false
    → (d : IsDead id s) → get id (set k v s.leases) ≡ some d.0
other_key id k v s e d = rw (get-set k id v s.leases, e) d.1

module _ {rt : Runtime} where
  Change-AreDrawn : {s t : Service} → Change rt s t → AreDrawn rt s → AreDrawn rt t
  Change-AreDrawn (ticked s c u r later) h id l e =
      let (n, below, drawn) = h id l e in (n, omega arith, drawn)
  Change-AreDrawn (grant_opened s input at) h id l e =
      let (n, below, drawn) = h id l e in (n, omega arith, drawn)
  Change-AreDrawn (break_glass_opened s input at) h id l e =
      let (n, below, drawn) = h id l e in (n, omega arith, drawn)
  Change-AreDrawn (leases_revoked s gid bid reads) h id l e =
      let (x, before) = revoke_loop-absent rt gid bid reads id s.leases l e in h id x before
  Change-AreDrawn (lease_issued s aggregate x named issued) h id l e =
      elim (get-set_cases x.lease_id id x l s.leases e) [
        | inl (p, q) ↦ (s.uuids, omega arith, sym p ∙ named)
        | inr (p, q) ↦ let (n, below, drawn) = h id l q in (n, omega arith, drawn)
      ]
  Change-AreDrawn (lease_spent s id' x at found unused unrevoked) h id l e =
      elim (get-set_cases id' id (spent x at) l s.leases e) [
        | inl (p, q) ↦ let (n, below, drawn) = h id' x found in (n, below, sym p ∙ drawn)
        | inr (p, q) ↦ h id l q
      ]
  Change-AreDrawn _ h id l e = h id l e

  Change-IsDead :
      {s t : Service} (id : String)
      → Fresh rt
      → AreDrawn rt s
      → Change rt s t
      → IsDead id s
      → IsDead id t
  Change-IsDead id fresh drawn (leases_revoked s gid bid reads) (l, e, d) =
      revoke_loop-dead rt gid bid reads id s.leases l e d
  Change-IsDead id fresh drawn (lease_issued s aggregate x named issued) (l, e, d) =
      elim (Bool-cases (str_eq x.lease_id id)) [
        | inr other ↦ (l, other_key id x.lease_id x s other (l, e, d), d)
        | inl same ↦
            let (n, below, old) = drawn id l e in
            let clash : s.uuids ≡ n =
              fresh _ _
                (append_cancel_left "jit_" _ _ (sym named ∙ (eq_iff x.lease_id id).0 same ∙ old)) in
            absurd (omega arith)
      ]
  Change-IsDead id fresh drawn (lease_spent s id' x at found unused unrevoked) (l, e, d) =
      elim (Bool-cases (str_eq id' id)) [
        | inr other ↦ (l, other_key id id' (spent x at) s other (l, e, d), d)
        | inl same ↦ (spent x at, rw (get-set id' id (spent x at) s.leases, same), refl)
      ]
  Change-IsDead id fresh drawn _ d = d

  pub Reach-AreDrawn : {s t : Service} → Reach rt s t → AreDrawn rt s → AreDrawn rt t
  Reach-AreDrawn here h = h
  Reach-AreDrawn (next r c) h = Change-AreDrawn c (Reach-AreDrawn r h)

  Reach-IsDead :
      {s t : Service} (id : String)
      → Fresh rt
      → AreDrawn rt s
      → Reach rt s t
      → IsDead id s
      → IsDead id t
  Reach-IsDead id fresh h here d = d
  Reach-IsDead id fresh h (next r c) d =
      Change-IsDead id fresh (Reach-AreDrawn r h) c (Reach-IsDead id fresh h r d)

unused-live : (l : Lease) → l.consumed_at ≡ none → l.revoked_at ≡ none → is_dead l ≡ false
unused-live l c r = rw (c, r) refl

-- If `randomUUID` never repeats a text and the leases of the service have their identifiers from it:
-- a lease that is consumed or revoked at some moment is refused
-- by `consumeLease` after every further sequence of calls.
pub dead_lease_refused :
    (rt : Runtime) (s : Service) (cs : List Call) (input : ConsumeLease) (b : Bool) (t : Service)
    → Fresh rt
    → AreDrawn rt s
    → IsDead input.lease_id s
    → ¬ (consume_lease rt input (run rt s cs) ≡ (ok b, t))
dead_lease_refused rt s cs input b t fresh drawn dead h =
    let r = expire-Reach rt (run rt s cs) (run-Reach rt s cs) in
    let (l, e, d) = Reach-IsDead input.lease_id fresh drawn r dead in
    let granted = consume_lease-IsGranted rt input (run rt s cs) b t h in
    let same : granted.lease ≡ l = of_some (sym granted.presented ∙ e) in
    cc (unused-live granted.lease granted.unused granted.unrevoked, ap is_dead same, d)

-- If `randomUUID` never repeats a text and the leases of the service have their identifiers from it,
-- a lease is consumed at most once: after `consumeLease` has
-- answered for an identifier, it never answers for that identifier again, whatever calls are made
-- between and whatever else the second call presents.
pub lease_consumed_once :
    (rt : Runtime) (s : Service) (input again : ConsumeLease) (cs : List Call) (b b' : Bool)
    (t t' : Service)
    → Fresh rt
    → AreDrawn rt s
    → consume_lease rt input s ≡ (ok b, t)
    → again.lease_id ≡ input.lease_id
    → ¬ (consume_lease rt again (run rt t cs) ≡ (ok b', t'))
lease_consumed_once rt s input again cs b b' t t' fresh drawn h same =
    let granted = consume_lease-IsGranted rt input s b t h in
    let r : Reach rt s t =
      subst (Reach rt s) (ap (λ p. p.1) h) (consume_lease-Reach rt input s here) in
    dead_lease_refused rt t cs again b' t' fresh (Reach-AreDrawn r drawn)
      (spent granted.lease (rt.now (suc (expire rt s).1.clock_reads)), rw same granted.marked, refl)
