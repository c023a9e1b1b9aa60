-- ===== src/Runtime/Toolset.antt =====
-- runtime.py: `WrappedToolset` and its `call`.
use axor_wrap.Base.{
  ℕ, String, Bool, true, false, not, ◌&&◌, List, [], ◌∷◌, Option, none, some, ◌==◌, if◌then◌else◌,
}
use axor_wrap.Base.Dict.{Dict, lookup, keys}
use axor_wrap.Errors.{Result, ok, err, unknown_tool, admission_held, tool_denied}
use axor_wrap.Errors.Exec.{Exec, pure, raise, modify, ◌>>=◌, ◌>>◌}
use axor_wrap.Value.{Value}
use axor_wrap.Governor.{Governor}
use axor_wrap.Trace.Recorder.{SessionRecorder, evaluated, mark}

abbrev pub enforcement_on : String
enforcement_on = "on"

abbrev pub enforcement_off : String
enforcement_off = "off"

-- `W` is what the tools act on.
module _ (W : Type 0) (G : Governor) where
  abbrev pub Tool : Type 0
  Tool = Dict Value → Exec W Value

  pub record WrappedToolset : Type 0 where
    pub tools : Dict Tool
    pub manifests : List (Dict Value)
    pub policy : Option (Dict Value)
    pub inputs : Option (Dict Value)
    pub node_id : String
    pub governor : Governor.State G
    pub admission : Option (Exec W Bool)
    pub enforcement : String
    pub recorder : Option SessionRecorder

  -- The toolset and the world of its tools.
  pub record Host : Type 0 where
    pub toolset : WrappedToolset
    pub world : W

  unfoldable pub tool_names : Host → List String
  tool_names h = keys h.toolset.tools

  abbrev pub set_admission : Option (Exec W Bool) → Host → Host
  set_admission a h = record h { toolset = record h.toolset { admission = a } }

  -- A step of the tools' world, and one of the governor.
  unfoldable pub in_world {κ} : {A : Type κ} → Exec W A → Exec Host A
  in_world m h = let (r, w) = m h.world in (r, record h { world = w })

  unfoldable pub in_governor {κ} : {A : Type κ} → Exec (Governor.State G) A → Exec Host A
  in_governor m h =
      let (r, g) = m h.toolset.governor in
      (r, record h { toolset = record h.toolset { governor = g } })

  abbrev pub found_tool : List String → String → Option Tool → Result Tool
  found_tool known name none = err (unknown_tool name known)
  found_tool known name (some tool) = ok tool

  unfoldable pub find_tool : String → Exec Host Tool
  unfolding tool_names lookup
  find_tool name h = (found_tool (tool_names h) name (lookup name h.toolset.tools), h)

  unfoldable pub held : Bool → Exec Host (Unit {0})
  held true = pure tt
  held false = raise (admission_held "paused-or-stopped")

  unfoldable pub admit_by : Option (Exec W Bool) → Exec Host (Unit {0})
  unfolding held
  admit_by none = pure tt
  admit_by (some admission) = in_world admission >>= held

  unfoldable pub admit : Exec Host (Unit {0})
  admit h = admit_by h.toolset.admission h

  abbrev pub recorded_with :
      String → Dict Value → Host → Option SessionRecorder → Result (Option ℕ) × Host
  recorded_with name args h none = (ok none, h)
  recorded_with name args h (some r) =
      let (i, r') = evaluated name args r in
      (ok (some i), record h { toolset = record h.toolset { recorder = some r' } })

  -- The index of the recorded call, if the toolset records.
  unfoldable pub record_call : String → Dict Value → Exec Host (Option ℕ)
  record_call name args h = recorded_with name args h h.toolset.recorder

  unfoldable pub refuse : Governor.Decision G → Exec Host (Unit {0})
  refuse d h =
      if not (Governor.allowed G d) && h.toolset.enforcement == enforcement_on
      then (err (tool_denied (Governor.reason G d) (Governor.category G d)), h)
      else (ok tt, h)

  abbrev pub marked : Option ℕ → Value → Option SessionRecorder → Option SessionRecorder
  marked (some i) output (some r) = some (mark i output r)
  marked i output r = r

  unfoldable pub mark_executed : Option ℕ → Value → Host → Host
  mark_executed i output h = record h {
    toolset = record h.toolset { recorder = marked i output h.toolset.recorder };
  }

  -- From the governor's verdict on.
  unfoldable pub enforce : Tool → Dict Value → Governor.Decision G → Option ℕ → Exec Host Value
  enforce tool args decision recorded = do
    refuse decision
    output ← in_world (tool args)
    in_governor (Governor.register_output G decision output)
    modify (mark_executed recorded output)
    pure output

  unfoldable pub judge : String → Tool → Dict Value → Exec Host Value
  judge name tool args = do
    decision ← in_governor (Governor.evaluate G name args)
    recorded ← record_call name args
    enforce tool args decision recorded

  unfoldable pub call : String → Dict Value → Exec Host Value
  call name args = do tool ← find_tool name; admit; judge name tool args

  gated : Dict Tool → Dict (Dict Value → Exec Host Value)
  gated [] = []
  gated ((name, tool) ∷ rest) = (name, call name) ∷ gated rest

  -- `callables()`: each tool's name with its gated function.
  unfoldable pub callables : WrappedToolset → Dict (Dict Value → Exec Host Value)
  unfolding gated
  callables t = gated t.tools
