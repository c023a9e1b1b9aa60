-- ===== src/Plane/Session/Snapshot/Deltas.antt =====
-- A snapshot is the deltas of its commands, in the order of their versions.
use axor_wrap.Base.{
  Among, ℤ, ◌≡◌, ◌≢◌, refl, ◌∙◌, ap, inl, inr, none, List, [], ◌∷◌, arith, Bool-cases, leb_ℤ,
}
use axor_wrap.Base.Dict.{Dict}
use axor_wrap.Errors.{Result, ok, err}
use axor_wrap.Errors.Exec.{Exec, pure, continue, ◌>>=◌, ◌>>◌}
use axor_wrap.Value.{Value}
use axor_wrap.Plane.Kernel.{Kernel}
use axor_wrap.Plane.Session.State.{PlaneSession, AppliedEffect}
use axor_wrap.Plane.Session.Narrows.{Narrows}
use axor_wrap.Plane.Session.Apply.{apply, applied_effect}
use axor_wrap.Plane.Session.Apply.Lattice.{apply-Narrows, apply-stale}
use axor_wrap.Plane.Session.Verify.{Command, message, signed_by, verify, apply_delta}
use axor_wrap.Plane.Session.Snapshot.{
  passed, replay, replay_all, raise_version, check_commands, check_state, conclude, apply_snapshot,
}
use axor_wrap.Plane.Session.Snapshot.Sorted.{Reads, Rearranged, Ascending, checked-Sorted}
use axor_wrap.Plane.Session.Snapshot.Authentic.{checked-verify, apply_snapshot-keyed}

module _ (kernel : Kernel) where
  -- The commands as deltas, one after the other, up to the first that raises.
  unfoldable pub deliver : List Command → Exec PlaneSession (Unit {0})
  deliver [] = pure tt
  deliver (c ∷ cs) = do apply_delta kernel c; deliver cs

  -- Verification reads the node's id and its operators' keys only.
  pub verify-Narrows :
      (s t : PlaneSession) (c : Command) → Narrows s t → verify kernel t c ≡ verify kernel s c
  unfolding verify signed_by message
  verify-Narrows s t c h = ground arith

  abbrev AllVerify : PlaneSession → List Command → Type 0
  AllVerify s [] = Unit
  AllVerify s (c ∷ cs) = (verify kernel s c ≡ none) × AllVerify s cs

  pub apply_delta-verified :
      (c : Command) (s : PlaneSession)
      → verify kernel s c ≡ none
      → apply_delta kernel c s ≡ apply c.version c.delta s
  unfolding apply_delta
  apply_delta-verified c s h = ground arith

  AllVerify-Narrows :
      (s t : PlaneSession) (cs : List Command) → Narrows s t → AllVerify s cs → AllVerify t cs
  AllVerify-Narrows s t [] h a = tt
  AllVerify-Narrows s t (c ∷ cs) h a =
      (verify-Narrows s t c h ∙ a.0, AllVerify-Narrows s t cs h a.1)

  continue-deltas :
      (r : Result AppliedEffect) (cs : List Command) (t : PlaneSession)
      → ((last : AppliedEffect) → (replay cs last t).1 ≡ (deliver cs t).1)
      → (continue r (replay cs) t).1 ≡ (continue r (λ _. deliver cs) t).1
  continue-deltas (ok e) cs t ih = ih e
  continue-deltas (err e) cs t ih = refl

  -- Replaying verified commands leaves the session that their deltas would have left.
  pub replay-deltas :
      (cs : List Command) (last : AppliedEffect) (s : PlaneSession)
      → AllVerify s cs
      → (replay cs last s).1 ≡ (deliver cs s).1
  unfolding replay deliver ◌>>=◌
  replay-deltas [] last s a = refl
  replay-deltas (c ∷ cs) last s a =
      let (r, t) = apply c.version c.delta s in
      let narrows = apply-Narrows c.version c.delta s in
      elim (Bool-cases (leb_ℤ c.version s.applied_version)) [
        | inl stale ↦
            rw (stale, replay, apply_delta-verified c s a.0, apply-stale c.version c.delta s stale)
              (replay-deltas cs last s a.1)
        | inr fresh ↦
            rw (fresh, replay, apply_delta-verified c s a.0)
              (continue-deltas r cs t
                λ e. replay-deltas cs e t (AllVerify-Narrows s t cs narrows a.1))
      ]

  AllVerify-of :
      (s : PlaneSession) (cs : List Command)
      → ((c : Command) → Among c cs → verify kernel s c ≡ none)
      → AllVerify s cs
  AllVerify-of s [] h = tt
  AllVerify-of s (c ∷ cs) h = (h c (inl refl), AllVerify-of s cs (λ d m. h d (inr m)))

  continue-ok :
      (r : Result AppliedEffect) (cs : List Command) (t : PlaneSession)
      → ((last : AppliedEffect)
          → (deliver cs t).0 ≡ ok tt
          → (e : AppliedEffect) × ((replay cs last t).0 ≡ ok e))
      → (continue r (λ _. deliver cs) t).0 ≡ ok tt
      → (e : AppliedEffect) × ((continue r (replay cs) t).0 ≡ ok e)
  continue-ok (ok e) cs t ih h = ih e h
  continue-ok (err e) cs t ih h = absurd (cc)

  replay-ok :
      (cs : List Command) (last : AppliedEffect) (s : PlaneSession)
      → AllVerify s cs
      → (deliver cs s).0 ≡ ok tt
      → (e : AppliedEffect) × ((replay cs last s).0 ≡ ok e)
  unfolding replay deliver ◌>>=◌
  replay-ok [] last s a h = (last, refl)
  replay-ok (c ∷ cs) last s a h =
      let (r, t) = apply c.version c.delta s in
      let narrows = apply-Narrows c.version c.delta s in
      elim (Bool-cases (leb_ℤ c.version s.applied_version)) [
        | inl stale ↦
            rw (stale, replay)
              (replay-ok cs last s a.1
                (rw (apply_delta-verified c s a.0, apply-stale c.version c.delta s stale) at h))
        | inr fresh ↦
            rw (fresh, replay)
              (continue-ok r cs t (λ e. replay-ok cs e t (AllVerify-Narrows s t cs narrows a.1))
                (rw (apply_delta-verified c s a.0) at h))
      ]

  replay_all-ok :
      (v : ℤ) (cs : List Command) (s : PlaneSession) (e : AppliedEffect)
      → (replay cs applied_effect s).0 ≡ ok e
      → replay_all v cs s ≡ (ok e, raise_version v (replay cs applied_effect s).1)
  unfolding replay_all ◌>>=◌
  replay_all-ok v cs s e h = rw h

  conclude-passed :
      (v : ℤ) (cs : List Command) (s : PlaneSession)
      → conclude kernel v (passed cs) s ≡ replay_all v cs s
  unfolding conclude
  conclude-passed v cs s = refl

  -- On a node with operator keys, if the commands of a snapshot pass its checks: what is passed on are
  -- the commands as they are read, each once, in the order of their versions and, within a version, in
  -- that of the snapshot. If none of these raises when they are delivered as deltas in this order, the
  -- snapshot leaves the node as they would, but for the applied version, which is raised to the
  -- snapshot's own.
  pub apply_snapshot-deltas :
      (version : ℤ) (state : Dict Value) (commands : List Value) (s : PlaneSession)
      (cs : List Command)
      → s.operator_pubkeys ≢ []
      → check_state kernel state (check_commands kernel s commands) ≡ passed cs
      → (deliver cs s).0 ≡ ok tt
      → (read : List Command) × Reads commands read
        × Rearranged read cs
        × Ascending cs
        × ((apply_snapshot kernel version state commands s).1
            ≡ raise_version version (deliver cs s).1)
  apply_snapshot-deltas version state commands s cs keyed checked fine =
      let all = AllVerify-of s cs (λ c. checked-verify kernel state commands s cs c checked) in
      let (e, done) = replay-ok cs applied_effect s all fine in
      let (read, reads, rearranged, ascending) =
        checked-Sorted kernel state commands s cs checked in
      (
        read,
        reads,
        rearranged,
        ascending,
        rw
            (
              apply_snapshot-keyed kernel version state commands s keyed,
              checked,
              conclude-passed version cs s,
              replay_all-ok version cs s e done,
            )
            (ap (raise_version version) (replay-deltas cs applied_effect s all)),
      )
