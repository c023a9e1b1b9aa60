-- ===== src/Runtime/Observed.antt =====
-- runtime.py, `call`: what the recorder and the governor's verdicts say of one session.
use axor_wrap.Base.{
  ℕ, zero, suc, String, Bool, true, false, List, [], ◌∷◌, ◌++◌, ◌≡◌, refl, ◌∙◌, ap, subst, sym,
  Option, none, some, map, arith,
}
use axor_wrap.Base.Dict.{Dict}
use axor_wrap.Errors.{Error, Result, ok, err}
use axor_wrap.Errors.Exec.{Exec, pure, continue, ◌>>=◌}
use axor_wrap.Errors.Exec.Moves.{Moves, Moves-pure, Moves-raise, Moves-modify, Moves-bind}
use axor_wrap.Value.{Value}
use axor_wrap.Governor.{Governor}
use axor_wrap.Trace.Recorder.{RecordedCall, SessionRecorder, mark_at}
use axor_wrap.Trace.Pairing.{verdict_events, judged_tool}
use axor_wrap.Runtime.Toolset.{
  Tool, Host, in_world, in_governor, find_tool, admit, admit_by, held, record_call, recorded_with,
  refuse, marked, mark_executed, enforce, judge, call,
}

unfoldable pub recorded_names : Option SessionRecorder → Option (List String)
recorded_names none = none
recorded_names (some r) = some (map (λ c. c.tool) r.calls)

module _ (W : Type 0) (G : Governor) where
  -- The tools of the governor's verdicts, in order.
  unfoldable pub judged_names : Governor.State G → List String
  judged_names g = map (judged_tool G) (verdict_events G (Governor.trace_events G g))

  -- The governor adds one verdict, of the tool it was asked about, for each evaluation that returns;
  -- nothing else that it does adds one.
  pub record Journal : Type 0 where
    pub judged :
        (name : String) (args : Dict Value) (g g' : Governor.State G) (d : Governor.Decision G)
        → Governor.evaluate G name args g ≡ (ok d, g')
        → judged_names g' ≡ judged_names g ++ name ∷ []
    pub failed :
        (name : String) (args : Dict Value) (g g' : Governor.State G) (e : Error)
        → Governor.evaluate G name args g ≡ (err e, g')
        → judged_names g' ≡ judged_names g
    pub registered :
        (d : Governor.Decision G) (output : Value) (g : Governor.State G)
        → judged_names (Governor.register_output G d output g).1 ≡ judged_names g

  abbrev pub observed : Host W G → Option (List String) × List String
  observed h = (recorded_names h.toolset.recorder, judged_names h.toolset.governor)

  abbrev pub Unobserved : Host W G → Host W G → Type 0
  Unobserved h h' = observed h ≡ observed h'

  Unobserved-refl : (h : Host W G) → Unobserved h h
  Unobserved-refl h = refl

  Unobserved-trans : (a b c : Host W G) → Unobserved a b → Unobserved b c → Unobserved a c
  Unobserved-trans a b c p q = p ∙ q

  Unobserved-pure : {A : Type 0} (a : A) → Moves Unobserved (pure a)
  Unobserved-pure = Moves-pure Unobserved-refl

  Unobserved-bind :
      {A B : Type 0} (m : Exec (Host W G) A) (f : A → Exec (Host W G) B)
      → Moves Unobserved m
      → ((a : A) → Moves Unobserved (f a))
      → Moves Unobserved (m >>= f)
  Unobserved-bind = Moves-bind Unobserved-refl Unobserved-trans

  in_world-Unobserved {κ} : {A : Type κ} (m : Exec W A) → Moves Unobserved (in_world W G m)
  unfolding in_world
  in_world-Unobserved m = record { at = λ h. refl }

  map-mark_at :
      (i : ℕ) (output : Value) (cs : List RecordedCall)
      → map (λ c. c.tool) (mark_at i output cs) ≡ map (λ c. c.tool) cs
  unfolding mark_at
  map-mark_at zero output [] = refl
  map-mark_at (suc i) output [] = refl
  map-mark_at zero output (c ∷ cs) = refl
  map-mark_at (suc i) output (c ∷ cs) = ap (λ l. c.tool ∷ l) (map-mark_at i output cs)

  recorded_names-marked :
      (i : Option ℕ) (output : Value) (r : Option SessionRecorder)
      → recorded_names (marked W G i output r) ≡ recorded_names r
  unfolding recorded_names
  recorded_names-marked none output none = refl
  recorded_names-marked none output (some r) = refl
  recorded_names-marked (some i) output none = refl
  recorded_names-marked (some i) output (some r) = rw (map-mark_at i output r.calls)

  mark_executed-Unobserved :
      (i : Option ℕ) (output : Value) (h : Host W G) → Unobserved h (mark_executed W G i output h)
  unfolding mark_executed
  mark_executed-Unobserved i output h = rw (recorded_names-marked i output h.toolset.recorder)

  -- A toolset that records has recorded the tools that the governor judged, in the same order.
  abbrev pub SameNames : Option (List String) → List String → Type 0
  SameNames none judged = ⊥
  SameNames (some names) judged = names ≡ judged

  abbrev pub Aligned : Host W G → Type 0
  Aligned h = SameNames (observed h).0 (observed h).1

  Aligned-Unobserved : (h h' : Host W G) → Unobserved h h' → Aligned h → Aligned h'
  Aligned-Unobserved h h' p = subst (λ o. SameNames o.0 o.1) p

  refuse-Unobserved : (d : Governor.Decision G) → Moves Unobserved (refuse W G d)
  unfolding refuse
  refuse-Unobserved d = record { at = λ h. ground arith }

  module _ (laws : Journal) where
    register-Unobserved :
        (d : Governor.Decision G) (output : Value)
        → Moves Unobserved (in_governor W G (Governor.register_output G d output))
    unfolding in_governor
    register-Unobserved d output = record {
      at = λ h. rw (laws.registered d output h.toolset.governor);
    }

    enforce-Unobserved :
        (tool : Tool W G) (args : Dict Value) (d : Governor.Decision G) (i : Option ℕ)
        → Moves Unobserved (enforce W G tool args d i)
    unfolding enforce
    enforce-Unobserved tool args d i =
        search
          (
            Unobserved-pure, Unobserved-bind, Moves-modify, refuse-Unobserved, in_world-Unobserved,
            register-Unobserved, mark_executed-Unobserved,
          )
          depth 12

    find_tool-Unobserved : (name : String) → Moves Unobserved (find_tool W G name)
    unfolding find_tool
    find_tool-Unobserved name = record { at = λ h. refl }

    held-Unobserved : (b : Bool) → Moves Unobserved (held W G b)
    unfolding held
    held-Unobserved true = Moves-pure Unobserved-refl tt
    held-Unobserved false = Moves-raise Unobserved-refl _

    admit_by-Unobserved : (a : Option (Exec W Bool)) → Moves Unobserved (admit_by W G a)
    unfolding admit_by
    admit_by-Unobserved none = Moves-pure Unobserved-refl tt
    admit_by-Unobserved (some a) =
        Moves-bind Unobserved-refl Unobserved-trans (in_world W G a) (held W G)
          (in_world-Unobserved a) held-Unobserved

    admit-Unobserved : Moves Unobserved (admit W G)
    unfolding admit
    admit-Unobserved = record { at = λ h. (admit_by-Unobserved h.toolset.admission).at h }

    -- After the verdict and before it is recorded, the governor is one name ahead.
    abbrev Ahead : String → Host W G → Type 0
    Ahead name h =
        (names : List String) × SameNames (observed h).0 names
        × ((observed h).1 ≡ names ++ name ∷ [])

    recorded-Aligned :
        (name : String) (args : Dict Value) (h : Host W G) (o : Option SessionRecorder)
        (next : Option ℕ → Exec (Host W G) Value)
        → ((i : Option ℕ) → Moves Unobserved (next i))
        → h.toolset.recorder ≡ o
        → Ahead name h
        → Aligned
            (continue
              (recorded_with W G name args h o).0
              next
              (recorded_with W G name args h o).1).1
    unfolding recorded_names
    recorded-Aligned name args h none next keeps p (names, same, step) =
        absurd (subst (λ o. SameNames (recorded_names o) names) p same)
    recorded-Aligned name args h (some r) next keeps p (names, same, step) =
        let h2 = (recorded_with W G name args h (some r)).1 in
        Aligned-Unobserved h2 (next _ h2).1 ((keeps _).at h2) (
          map-snoc _ r.calls
          ∙ (ap (λ l. l ++ name ∷ []) (subst (λ o. SameNames (recorded_names o) names) p same)
              ∙ sym step))
      where
        map-snoc :
            (c : RecordedCall) (cs : List RecordedCall)
            → map (λ c. c.tool) (cs ++ c ∷ []) ≡ map (λ c. c.tool) cs ++ c.tool ∷ []
        map-snoc c [] = refl
        map-snoc c (d ∷ cs) = ap (λ l. d.tool ∷ l) (map-snoc c cs)

    judged-Aligned :
        (name : String) (tool : Tool W G) (args : Dict Value) (h : Host W G)
        (r : Result (Governor.Decision G)) (g : Governor.State G)
        → Governor.evaluate G name args h.toolset.governor ≡ (r, g)
        → Aligned h
        → let next =
            λ (d : Governor.Decision G). record_call W G name args >>= enforce W G tool args d in
          Aligned (continue r next (record h { toolset = record h.toolset { governor = g } })).1
    unfolding record_call ◌>>=◌
    judged-Aligned name tool args h (err x) g e aligned =
        subst (SameNames (observed h).0) (sym (laws.failed name args h.toolset.governor g x e))
          aligned
    judged-Aligned name tool args h (ok d) g e aligned =
        let h1 = record h { toolset = record h.toolset { governor = g } } in
        recorded-Aligned name args h1 h1.toolset.recorder (enforce W G tool args d)
          (enforce-Unobserved tool args d) refl
          ((observed h).1, aligned, laws.judged name args h.toolset.governor g d e)

    judge-Aligned :
        (name : String) (tool : Tool W G) (args : Dict Value) (h : Host W G)
        → Aligned h
        → Aligned (judge W G name tool args h).1
    unfolding judge in_governor ◌>>=◌
    judge-Aligned name tool args h aligned =
        let (r, g) = Governor.evaluate G name args h.toolset.governor in
        judged-Aligned name tool args h r g refl aligned

    abbrev KeepsAligned : Host W G → Host W G → Type 0
    KeepsAligned h h' = Aligned h → Aligned h'

    KeepsAligned-bind :
        {A B : Type 0} (m : Exec (Host W G) A) (f : A → Exec (Host W G) B)
        → Moves KeepsAligned m
        → ((a : A) → Moves KeepsAligned (f a))
        → Moves KeepsAligned (m >>= f)
    KeepsAligned-bind = Moves-bind (λ h x. x) (λ a b c f g x. g (f x))

    KeepsAligned-Unobserved :
        {A : Type 0} (m : Exec (Host W G) A) → Moves Unobserved m → Moves KeepsAligned m
    KeepsAligned-Unobserved m k = record { at = λ h. Aligned-Unobserved h (m h).1 (k.at h) }

    -- A call, refused or not, keeps the recorder in step with the governor's verdicts.
    pub call-Aligned :
        (name : String) (args : Dict Value) (h : Host W G)
        → Aligned h
        → Aligned (call W G name args h).1
    unfolding call
    call-Aligned name args =
        let moves =
          KeepsAligned-bind (find_tool W G name)
            (λ tool. admit W G >>= λ x. judge W G name tool args)
            (KeepsAligned-Unobserved (find_tool W G name) (find_tool-Unobserved name))
            (λ tool.
              KeepsAligned-bind (admit W G) (λ x. judge W G name tool args)
                (KeepsAligned-Unobserved (admit W G) admit-Unobserved)
                (λ x. record { at = judge-Aligned name tool args })) in
        moves.at
