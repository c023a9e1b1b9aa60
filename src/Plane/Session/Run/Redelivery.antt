-- ===== src/Plane/Session/Run/Redelivery.antt =====
-- A delta that arrives again has no further effect.
use axor_wrap.Base.{ℤ, ◌≤ℤ◌, ◌≡◌, ◌∙◌, true, none, List, arith, leb_ℤ}
use axor_wrap.Plane.Kernel.{Kernel}
use axor_wrap.Plane.Session.State.{PlaneSession}
use axor_wrap.Plane.Session.Narrows.{Narrows-trans}
use axor_wrap.Plane.Session.Apply.Lattice.{apply-version, apply-stale}
use axor_wrap.Plane.Session.Verify.{Command, verify, apply_delta}
use axor_wrap.Plane.Session.Snapshot.Lattice.{apply_delta-Narrows}
use axor_wrap.Plane.Session.Snapshot.Deltas.{verify-Narrows, apply_delta-verified}
use axor_wrap.Plane.Session.Run.{Call, run}
use axor_wrap.Plane.Session.Run.Monotone.{run-Narrows}

leb_of_le : (a b : ℤ) → a ≤ℤ b → leb_ℤ a b ≡ true
leb_of_le a b h = ground arith

module _ (kernel : Kernel) (c : Command) (s : PlaneSession) (good : verify kernel s c ≡ none) where
  delivered_version : c.version ≤ℤ (apply_delta kernel c s).1.applied_version
  delivered_version = rw (apply_delta-verified kernel c s good) (apply-version c.version c.delta s)

  -- A command whose signature verifies, delivered as a delta, then any calls, then the same command
  -- again: the second delivery leaves the session as it was.
  pub redelivered_delta :
      (calls : List Call)
      → let t = run kernel calls (apply_delta kernel c s).1 in (apply_delta kernel c t).1 ≡ t
  redelivered_delta calls =
      let u = (apply_delta kernel c s).1 in
      let t = run kernel calls u in
      let later = run-Narrows kernel calls u in
      let narrows = Narrows-trans s u t (apply_delta-Narrows kernel c s) later in
      let version = later.version in
      let delivered = delivered_version in
      rw (
        apply_delta-verified kernel c t (verify-Narrows kernel s t c narrows ∙ good),
        apply-stale c.version c.delta t (leb_of_le c.version t.applied_version (omega arith)),
      )
