-- ===== src/Runtime/Flag.antt =====
-- runtime.py, `call`: where the governor allows, the flag makes no difference.
use axor_wrap.Base.{ℕ, String, Bool, true, false, ◌≡◌, refl, Option, none, some, ap, sym, ◌∙◌}
use axor_wrap.Base.Dict.{Dict}
use axor_wrap.Errors.{Result, ok, err}
use axor_wrap.Errors.Exec.{Exec, pure, modify, continue, ◌>>=◌}
use axor_wrap.Value.{Value}
use axor_wrap.Governor.{Governor}
use axor_wrap.Trace.Recorder.{SessionRecorder}
use axor_wrap.Runtime.Toolset.{
  Tool, Host, in_world, in_governor, find_tool, admit, admit_by, held, record_call, recorded_with,
  refuse, mark_executed, enforce, judge, call,
}
use axor_wrap.Runtime.Enforcement.{admit-toolset}

module _ (W : Type 0) (G : Governor) where
  abbrev pub with_enforcement : String → Host W G → Host W G
  with_enforcement f h = record h { toolset = record h.toolset { enforcement = f } }

  -- A method that does not ask for the flag.
  abbrev SameUnder : {A : Type 0} → String → Exec (Host W G) A → Host W G → Type 0
  SameUnder f m h = m (with_enforcement f h) ≡ ((m h).0, with_enforcement f (m h).1)

  continue-SameUnder :
      {A B : Type 0} (f : String) (r : Result A) (next : A → Exec (Host W G) B) (t : Host W G)
      → ((a : A) → r ≡ ok a → SameUnder f (next a) t)
      → continue r next (with_enforcement f t)
        ≡ ((continue r next t).0, with_enforcement f (continue r next t).1)
  continue-SameUnder f (ok a) next t k = k a refl
  continue-SameUnder f (err e) next t k = refl

  SameUnder-bind :
      {A B : Type 0} (f : String) (m : Exec (Host W G) A) (next : A → Exec (Host W G) B)
      (h : Host W G)
      → SameUnder f m h
      → ((a : A) → (m h).0 ≡ ok a → SameUnder f (next a) (m h).1)
      → SameUnder f (m >>= next) h
  unfolding ◌>>=◌
  SameUnder-bind f m next h p k = rw p (continue-SameUnder f (m h).0 next (m h).1 k)

  refuse-SameUnder :
      (f : String) (d : Governor.Decision G) (h : Host W G)
      → Governor.allowed G d ≡ true
      → SameUnder f (refuse W G d) h
  unfolding refuse
  refuse-SameUnder f d h permitted = rw permitted

  in_world-SameUnder :
      {A : Type 0} (f : String) (m : Exec W A) (h : Host W G) → SameUnder f (in_world W G m) h
  unfolding in_world
  in_world-SameUnder f m h = refl

  in_governor-SameUnder :
      {A : Type 0} (f : String) (m : Exec (Governor.State G) A) (h : Host W G)
      → SameUnder f (in_governor W G m) h
  unfolding in_governor
  in_governor-SameUnder f m h = refl

  modify-SameUnder :
      (f : String) (i : Option ℕ) (output : Value) (h : Host W G)
      → SameUnder f (modify (mark_executed W G i output)) h
  unfolding mark_executed ◌>>=◌
  modify-SameUnder f i output h = refl

  pure-SameUnder : {A : Type 0} (f : String) (a : A) (h : Host W G) → SameUnder f (pure a) h
  unfolding ◌>>=◌
  pure-SameUnder f a h = refl

  enforce-SameUnder :
      (f : String) (tool : Tool W G) (args : Dict Value) (d : Governor.Decision G) (i : Option ℕ)
      (h : Host W G)
      → Governor.allowed G d ≡ true
      → SameUnder f (enforce W G tool args d i) h
  unfolding enforce
  enforce-SameUnder f tool args d i h permitted =
      SameUnder-bind f (refuse W G d) _ h (refuse-SameUnder f d h permitted) (λ _ _.
        SameUnder-bind f (in_world W G (tool args)) _ _ (in_world-SameUnder f (tool args) _)
          (λ output _.
            SameUnder-bind f (in_governor W G (Governor.register_output G d output)) _ _
              (in_governor-SameUnder f (Governor.register_output G d output) _)
              (λ _ _.
                SameUnder-bind f (modify (mark_executed W G i output)) _ _
                  (modify-SameUnder f i output _) (λ _ _. pure-SameUnder f output _))))

  recorded_with-SameUnder :
      (f : String) (name : String) (args : Dict Value) (h : Host W G) (o : Option SessionRecorder)
      → recorded_with W G name args (with_enforcement f h) o ≡ (
        (recorded_with W G name args h o).0,
        with_enforcement f (recorded_with W G name args h o).1,
      )
  recorded_with-SameUnder f name args h none = refl
  recorded_with-SameUnder f name args h (some r) = refl

  record_call-SameUnder :
      (f : String) (name : String) (args : Dict Value) (h : Host W G)
      → SameUnder f (record_call W G name args) h
  unfolding record_call
  record_call-SameUnder f name args h = recorded_with-SameUnder f name args h h.toolset.recorder

  judge-SameUnder :
      (f : String) (name : String) (tool : Tool W G) (args : Dict Value) (h : Host W G)
      → ((d : Governor.Decision G)
          → (in_governor W G (Governor.evaluate G name args) h).0 ≡ ok d
          → Governor.allowed G d ≡ true)
      → SameUnder f (judge W G name tool args) h
  unfolding judge
  judge-SameUnder f name tool args h allows =
      SameUnder-bind f (in_governor W G (Governor.evaluate G name args)) _ h
        (in_governor-SameUnder f (Governor.evaluate G name args) h)
        (λ d e.
          SameUnder-bind f (record_call W G name args) _ _ (record_call-SameUnder f name args _)
            (λ i _. enforce-SameUnder f tool args d i _ (allows d e)))

  held-SameUnder : (f : String) (b : Bool) (h : Host W G) → SameUnder f (held W G b) h
  unfolding held ◌>>=◌
  held-SameUnder f true h = refl
  held-SameUnder f false h = refl

  admit_by-SameUnder :
      (f : String) (a : Option (Exec W Bool)) (h : Host W G) → SameUnder f (admit_by W G a) h
  unfolding admit_by
  admit_by-SameUnder f none h = pure-SameUnder f tt h
  admit_by-SameUnder f (some a) h =
      SameUnder-bind f (in_world W G a) _ h (in_world-SameUnder f a h) (λ b _. held-SameUnder f b _)

  admit-SameUnder : (f : String) (h : Host W G) → SameUnder f (admit W G) h
  unfolding admit
  admit-SameUnder f h = admit_by-SameUnder f h.toolset.admission h

  -- A call that the governor's decision, if it gives one, allows: under any enforcement flag it
  -- returns or raises the same, and leaves the same tools' world, governor and record.
  pub call-flag :
      (f : String) (name : String) (args : Dict Value) (h : Host W G)
      → ((d : Governor.Decision G)
          → (Governor.evaluate G name args h.toolset.governor).0 ≡ ok d
          → Governor.allowed G d ≡ true)
      → call W G name args (with_enforcement f h)
        ≡ ((call W G name args h).0, with_enforcement f (call W G name args h).1)
  unfolding call find_tool in_governor
  call-flag f name args h allows = SameUnder-bind f (find_tool W G name) _ h refl (λ tool _.
      SameUnder-bind f (admit W G) _ h (admit-SameUnder f h) (λ _ _.
        judge-SameUnder f name tool args (admit W G h).1 (λ d e. allows d (
          ap (λ s. (Governor.evaluate G name args s.governor).0) (sym (admit-toolset W G h)) ∙ e))))
