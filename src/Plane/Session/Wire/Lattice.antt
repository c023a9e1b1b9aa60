-- ===== src/Plane/Session/Wire/Lattice.antt =====
-- Whatever a message holds, the session has only narrowed.
use axor_wrap.Base.{
  ℤ, Option, none, some, Bool-cases, inl, inr, List, [], ◌||◌, ◌≡◌, false, leb_ℤ, arith,
}
use axor_wrap.Errors.{Result, ok, err}
use axor_wrap.Value.{Value, null, bool, int, str, arr, obj, entries, iterate}
use axor_wrap.Plane.Kernel.{Kernel}
use axor_wrap.Plane.Session.State.{PlaneSession, AppliedEffect}
use axor_wrap.Plane.Session.Narrows.{Narrows, Narrows-refl}
use axor_wrap.Plane.Session.Apply.Lattice.{apply-Narrows, report-Narrows, take_version-Narrows}
use axor_wrap.Plane.Session.Verify.{Command, refuse}
use axor_wrap.Plane.Session.Snapshot.{Checked, refused, passed, check_commands, check_state}
use axor_wrap.Plane.Session.Snapshot.Lattice.{conclude-Narrows}
use axor_wrap.Plane.Session.Wire.{
  Delivery, misapply, apply_value, verified, verify_delivery, apply_delivery, conclude_value,
  check_listed, apply_snapshot_values,
}

fresh_of :
    (v : ℤ) (s : PlaneSession)
    → (leb_ℤ v s.applied_version || s.stopped) ≡ false
    → leb_ℤ v s.applied_version ≡ false
fresh_of v s h = ground arith

misapply-Narrows : (v : ℤ) (d : Value) (s : PlaneSession) → Narrows s (misapply v d s).1
unfolding misapply
misapply-Narrows v d s = elim (Bool-cases (leb_ℤ v s.applied_version || s.stopped)) [
  | inl p ↦ rw (p) (apply-Narrows v [] s)
  | inr p ↦ rw (p) (take_version-Narrows v s (fresh_of v s p))
]

apply_value-Narrows : (v : ℤ) (d : Value) (s : PlaneSession) → Narrows s (apply_value v d s).1
unfolding apply_value
apply_value-Narrows v (obj fs) s = apply-Narrows v (entries fs) s
apply_value-Narrows v (arr vs) s = misapply-Narrows v (arr vs) s
apply_value-Narrows v (str t) s = misapply-Narrows v (str t) s
apply_value-Narrows v (int n) s = misapply-Narrows v (int n) s
apply_value-Narrows v (bool b) s = misapply-Narrows v (bool b) s
apply_value-Narrows v null s = misapply-Narrows v null s

module _ (kernel : Kernel) where
  refuse-Narrows :
      (e : AppliedEffect) (v : ℤ) (s : PlaneSession) → Narrows s (refuse kernel e v s).1
  unfolding refuse
  refuse-Narrows e v s = report-Narrows e v s

  verified-Narrows :
      (d : Delivery) (r : Result (Option AppliedEffect)) (s : PlaneSession)
      → Narrows s (verified kernel d r s).1
  unfolding verified
  verified-Narrows d (err e) s = Narrows-refl s
  verified-Narrows d (ok none) s = apply_value-Narrows d.version d.delta s
  verified-Narrows d (ok (some rejected)) s = refuse-Narrows rejected d.version s

  pub apply_delivery-Narrows :
      (d : Delivery) (s : PlaneSession) → Narrows s (apply_delivery kernel d s).1
  unfolding apply_delivery
  apply_delivery-Narrows d s = verified-Narrows d (verify_delivery kernel s d) s

  conclude_value-Narrows :
      (v : ℤ) (state : Value) (r : Checked (List Command)) (s : PlaneSession)
      → Narrows s (conclude_value kernel v state r s).1
  unfolding conclude_value
  conclude_value-Narrows v (obj fs) r s =
      conclude-Narrows kernel v (check_state kernel (entries fs) r) s
  conclude_value-Narrows v (arr vs) (refused e) s = refuse-Narrows e v s
  conclude_value-Narrows v (str t) (refused e) s = refuse-Narrows e v s
  conclude_value-Narrows v (int n) (refused e) s = refuse-Narrows e v s
  conclude_value-Narrows v (bool b) (refused e) s = refuse-Narrows e v s
  conclude_value-Narrows v null (refused e) s = refuse-Narrows e v s
  conclude_value-Narrows v (arr vs) (passed cs) s = Narrows-refl s
  conclude_value-Narrows v (str t) (passed cs) s = Narrows-refl s
  conclude_value-Narrows v (int n) (passed cs) s = Narrows-refl s
  conclude_value-Narrows v (bool b) (passed cs) s = Narrows-refl s
  conclude_value-Narrows v null (passed cs) s = Narrows-refl s

  check_listed-Narrows :
      (v : ℤ) (state : Value) (o : Option (List Value)) (s : PlaneSession)
      → Narrows s (check_listed kernel v state o s).1
  unfolding check_listed
  check_listed-Narrows v state none s = Narrows-refl s
  check_listed-Narrows v state (some vs) s =
      conclude_value-Narrows v state (check_commands kernel s vs) s

  pub apply_snapshot_values-Narrows :
      (v : ℤ) (state commands : Value) (s : PlaneSession)
      → Narrows s (apply_snapshot_values kernel v state commands s).1
  unfolding apply_snapshot_values
  apply_snapshot_values-Narrows v state commands s =
      ground
        (arith, apply_value-Narrows v state s, check_listed-Narrows v state (iterate commands) s)
