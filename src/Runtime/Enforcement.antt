-- ===== src/Runtime/Enforcement.antt =====
-- runtime.py, `call`: what the enforcement flag decides.
use axor_wrap.Base.{
  ℕ, String, Bool, true, false, ◌≡◌, refl, Option, none, some, ◌⊎◌, inl, inr, Bool-cases, ap, sym,
  subst, ◌∙◌,
}
use axor_wrap.Base.Dict.{Dict, lookup}
use axor_wrap.Errors.{Result, ok, err}
use axor_wrap.Errors.Exec.{Exec, continue, ◌>>=◌}
use axor_wrap.Value.{Value}
use axor_wrap.Governor.{Governor}
use axor_wrap.Trace.Recorder.{SessionRecorder}
use axor_wrap.Runtime.Toolset.{
  tool_names, found_tool, find_tool, admit_by, held, Tool, Host, in_world, in_governor, admit,
  record_call, recorded_with, refuse, enforce, judge, call, enforcement_on,
}

module _ (W : Type 0) (G : Governor) where
  -- What the governor answers to a call.
  abbrev pub Allows : String → Dict Value → Governor.State G → Type 0
  Allows name args g =
      (d : Governor.Decision G) × ((Governor.evaluate G name args g).0 ≡ ok d)
      × (Governor.allowed G d ≡ true)

  enforce-denied :
      (tool : Tool W G) (args : Dict Value) (d : Governor.Decision G) (i : Option ℕ) (h : Host W G)
      → h.toolset.enforcement ≡ enforcement_on
      → Governor.allowed G d ≡ false
      → (enforce W G tool args d i h).1 ≡ h
  unfolding enforce refuse ◌>>=◌
  enforce-denied tool args d i h on denied = rw (on, denied)

  recorded-denied :
      (name : String) (tool : Tool W G) (args : Dict Value) (d : Governor.Decision G) (h : Host W G)
      (o : Option SessionRecorder)
      → h.toolset.enforcement ≡ enforcement_on
      → Governor.allowed G d ≡ false
      → let (r, t) = recorded_with W G name args h o in
        (continue r (enforce W G tool args d) t).1.world ≡ h.world
  recorded-denied name tool args d h none on denied =
      ap (λ t. t.world) (enforce-denied tool args d none h on denied)
  recorded-denied name tool args d h (some r) on denied =
      let t = (recorded_with W G name args h (some r)).1 in
      ap (λ t. t.world) (enforce-denied tool args d _ t on denied)

  judged-permitted :
      (name : String) (tool : Tool W G) (args : Dict Value) (h : Host W G)
      (r : Result (Governor.Decision G)) (g : Governor.State G)
      → Governor.evaluate G name args h.toolset.governor ≡ (r, g)
      → h.toolset.enforcement ≡ enforcement_on
      → let next =
          λ (d : Governor.Decision G). record_call W G name args >>= enforce W G tool args d in
        Allows name args h.toolset.governor
        ⊎ ((continue r next (record h { toolset = record h.toolset { governor = g } })).1.world
            ≡ h.world)
  unfolding record_call ◌>>=◌
  judged-permitted name tool args h (err x) g e on = inr refl
  judged-permitted name tool args h (ok d) g e on = elim (Bool-cases (Governor.allowed G d)) [
    | inl permitted ↦ inl (d, ap (λ p. p.0) e, permitted)
    | inr denied ↦
        let h1 = record h { toolset = record h.toolset { governor = g } } in
        inr (recorded-denied name tool args d h1 h1.toolset.recorder on denied)
  ]

  judge-permitted :
      (name : String) (tool : Tool W G) (args : Dict Value) (h : Host W G)
      → h.toolset.enforcement ≡ enforcement_on
      → Allows name args h.toolset.governor ⊎ ((judge W G name tool args h).1.world ≡ h.world)
  unfolding judge in_governor ◌>>=◌
  judge-permitted name tool args h on =
      let (r, g) = Governor.evaluate G name args h.toolset.governor in
      judged-permitted name tool args h r g refl on

  admit_by-toolset :
      (a : Option (Exec W Bool)) (h : Host W G) → (admit_by W G a h).1.toolset ≡ h.toolset
  unfolding admit_by in_world held ◌>>=◌
  admit_by-toolset none h = refl
  admit_by-toolset (some a) h = let (r, w) = a h.world in held-toolset r w
    where
      held-toolset :
          (r : Result Bool) (w : W)
          → (continue r (held W G) (record h { world = w })).1.toolset ≡ h.toolset
      held-toolset (err e) w = refl
      held-toolset (ok true) w = refl
      held-toolset (ok false) w = refl

  pub admit-toolset : (h : Host W G) → (admit W G h).1.toolset ≡ h.toolset
  unfolding admit
  admit-toolset h = admit_by-toolset h.toolset.admission h

  admitted-permitted :
      (name : String) (tool : Tool W G) (args : Dict Value) (h t : Host W G) (r : Result (Unit {0}))
      → admit W G h ≡ (r, t)
      → t.toolset ≡ h.toolset
      → h.toolset.enforcement ≡ enforcement_on
      → Allows name args h.toolset.governor
        ⊎ ((continue r (λ x. judge W G name tool args) t).1.world ≡ (admit W G h).1.world)
  admitted-permitted name tool args h t (err x) e same on = inr (ap (λ p. p.1.world) (sym e))
  admitted-permitted name tool args h t (ok x) e same on =
      elim (judge-permitted name tool args t (ap (λ s. s.enforcement) same ∙ on)) [
        | inl allows ↦ inl (subst (λ s. Allows name args s.governor) same allows)
        | inr still ↦ inr (still ∙ ap (λ p. p.1.world) (sym e))
      ]

  -- Under enforcement "on", a call leaves what the tools act on as it was, or as the poll of the
  -- admission left it, unless the governor's decision allows the call.
  pub call-permitted :
      (name : String) (args : Dict Value) (h : Host W G)
      → h.toolset.enforcement ≡ enforcement_on
      → let t = (call W G name args h).1 in
        Allows name args h.toolset.governor
        ⊎ (t.world ≡ h.world)
        ⊎ (t.world ≡ (admit W G h).1.world)
  unfolding call find_tool ◌>>=◌
  call-permitted name args h on = found (lookup name h.toolset.tools)
    where
      found :
          (o : Option (Tool W G))
          → let t =
              (continue
                (found_tool W G (tool_names W G h) name o)
                (λ tool. admit W G >>= λ x. judge W G name tool args)
                h).1 in
            Allows name args h.toolset.governor
            ⊎ (t.world ≡ h.world)
            ⊎ (t.world ≡ (admit W G h).1.world)
      found none = inr (inl refl)
      found (some tool) =
          let (r, t) = admit W G h in
          elim (admitted-permitted name tool args h t r refl (admit-toolset h) on) [
            | inl allows ↦ inl allows
            | inr still ↦ inr (inr still)
          ]
