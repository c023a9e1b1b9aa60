-- ===== src/Plane/Session/Snapshot/Outbox.antt =====
-- A snapshot and a delta only add to the outbox.
use axor_wrap.Base.{ℤ, List, [], ◌∷◌, arith, refl, leb_ℤ, Bool-cases, inl, inr}
use axor_wrap.Base.Dict.{Dict}
use axor_wrap.Errors.Exec.{◌>>=◌}
use axor_wrap.Errors.Exec.Moves.{Moves}
use axor_wrap.Value.{Value}
use axor_wrap.Plane.Kernel.{Kernel}
use axor_wrap.Plane.Session.State.{PlaneSession, AppliedEffect}
use axor_wrap.Plane.Session.Outbox.{Extends, Extends-same, Extends-refl, report-Extends}
use axor_wrap.Plane.Session.Apply.{apply}
use axor_wrap.Plane.Session.Apply.Outbox.{apply-Extends, extending_rules}
use axor_wrap.Plane.Session.Verify.{Command, refuse, apply_delta}
use axor_wrap.Plane.Session.Snapshot.{
  Checked, refused, passed, replay, replay_all, raise_version, conclude, check_state,
  check_commands, apply_snapshot,
}

apply-Extending : (v : ℤ) (d : Dict Value) → Moves Extends (apply v d)
apply-Extending v d = record { at = apply-Extends v d }

raise_version-Extends : (v : ℤ) (s : PlaneSession) → Extends s (raise_version v s)
raise_version-Extends v s = Extends-same s _ refl

replay-Extending : (cs : List Command) (last : AppliedEffect) → Moves Extends (replay cs last)
unfolding replay
replay-Extending [] last = record { at = Extends-refl }
replay-Extending (c ∷ cs) last = record {
  at = λ s. elim (Bool-cases (leb_ℤ c.version s.applied_version)) [
    | inl stale ↦ rw (stale, replay) ((replay-Extending cs last).at s)
    | inr fresh ↦ rw (fresh, replay) ((step (replay-Extending cs)).at s)
  ];
}
  where
    step :
        ((e : AppliedEffect) → Moves Extends (replay cs e))
        → Moves Extends (apply c.version c.delta >>= replay cs)
    step ih = search (extending_rules, apply-Extending)

replay_all-Extending : (v : ℤ) (cs : List Command) → Moves Extends (replay_all v cs)
unfolding replay_all
replay_all-Extending v cs = search (extending_rules, replay-Extending, raise_version-Extends)

module _ (kernel : Kernel) where
  conclude-Extends :
      (v : ℤ) (r : Checked (List Command)) (s : PlaneSession) → Extends s (conclude kernel v r s).1
  unfolding conclude refuse
  conclude-Extends v (refused e) s = report-Extends e v s
  conclude-Extends v (passed cs) s = (replay_all-Extending v cs).at s

  pub apply_snapshot-Extends :
      (v : ℤ) (state : Dict Value) (commands : List Value) (s : PlaneSession)
      → Extends s (apply_snapshot kernel v state commands s).1
  unfolding apply_snapshot
  apply_snapshot-Extends v state commands s = ground (
    arith,
    apply-Extends v state s,
    conclude-Extends v (check_state kernel state (check_commands kernel s commands)) s,
  )

  pub apply_delta-Extends : (c : Command) (s : PlaneSession) → Extends s (apply_delta kernel c s).1
  unfolding apply_delta refuse
  apply_delta-Extends c s = grind (arith, apply-Extends, report-Extends)
