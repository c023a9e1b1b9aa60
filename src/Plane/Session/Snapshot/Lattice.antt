-- ===== src/Plane/Session/Snapshot/Lattice.antt =====
-- A snapshot and a delta only narrow a session.
use axor_wrap.Base.{ℤ, List, [], ◌∷◌, arith, leb_ℤ, Bool-cases, inl, inr}
use axor_wrap.Base.Dict.{Dict}
use axor_wrap.Errors.Exec.{◌>>=◌}
use axor_wrap.Errors.Exec.Moves.{Moves}
use axor_wrap.Value.{Value}
use axor_wrap.Plane.Kernel.{Kernel}
use axor_wrap.Plane.Session.State.{PlaneSession, AppliedEffect}
use axor_wrap.Plane.Session.Narrows.{Narrows, CapLe-refl, Narrows-refl}
use axor_wrap.Plane.Session.Apply.{apply}
use axor_wrap.Plane.Session.Apply.Lattice.{apply-Narrows, report-Narrows, narrowing_rules}
use axor_wrap.Plane.Session.Verify.{Command, refuse, apply_delta}
use axor_wrap.Plane.Session.Snapshot.{
  Checked, refused, passed, replay, replay_all, raise_version, conclude, check_state,
  check_commands, apply_snapshot,
}

apply-Narrowing : (v : ℤ) (d : Dict Value) → Moves Narrows (apply v d)
apply-Narrowing v d = record { at = apply-Narrows v d }

raise_version-Narrows : (v : ℤ) (s : PlaneSession) → Narrows s (raise_version v s)
raise_version-Narrows v s = ground (arith, CapLe-refl s.budget_cap_calls)

replay-Narrowing : (cs : List Command) (last : AppliedEffect) → Moves Narrows (replay cs last)
unfolding replay
replay-Narrowing [] last = record { at = Narrows-refl }
replay-Narrowing (c ∷ cs) last = record {
  at = λ s. elim (Bool-cases (leb_ℤ c.version s.applied_version)) [
    | inl stale ↦ rw (stale, replay) ((replay-Narrowing cs last).at s)
    | inr fresh ↦ rw (fresh, replay) ((step (replay-Narrowing cs)).at s)
  ];
}
  where
    step :
        ((e : AppliedEffect) → Moves Narrows (replay cs e))
        → Moves Narrows (apply c.version c.delta >>= replay cs)
    step ih = search (narrowing_rules, apply-Narrowing)

replay_all-Narrowing : (v : ℤ) (cs : List Command) → Moves Narrows (replay_all v cs)
unfolding replay_all
replay_all-Narrowing v cs = search (narrowing_rules, replay-Narrowing, raise_version-Narrows)

module _ (kernel : Kernel) where
  pub conclude-Narrows :
      (v : ℤ) (r : Checked (List Command)) (s : PlaneSession) → Narrows s (conclude kernel v r s).1
  unfolding conclude refuse
  conclude-Narrows v (refused e) s = report-Narrows e v s
  conclude-Narrows v (passed cs) s = (replay_all-Narrowing v cs).at s

  pub apply_snapshot-Narrows :
      (v : ℤ) (state : Dict Value) (commands : List Value) (s : PlaneSession)
      → Narrows s (apply_snapshot kernel v state commands s).1
  unfolding apply_snapshot
  apply_snapshot-Narrows v state commands s = ground (
    arith,
    apply-Narrows v state s,
    conclude-Narrows v (check_state kernel state (check_commands kernel s commands)) s,
  )

  pub apply_delta-Narrows : (c : Command) (s : PlaneSession) → Narrows s (apply_delta kernel c s).1
  unfolding apply_delta refuse
  apply_delta-Narrows c s = grind (arith, apply-Narrows, report-Narrows)
