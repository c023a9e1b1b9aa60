-- ===== src/Plane/Bridge/Labels.antt =====
-- bridge.py: `_level_name`, `_ts`, `_category_of` and the table of severities.
use axor_wrap.Base.{
  ℤ, pos, String, ◌<>◌, Bool, true, false, ◌||◌, Option, none, some, [], ◌∷◌, if◌then◌else◌,
}
use axor_wrap.Base.Dict.{Dict, lookup}
use axor_wrap.Base.Text.{empty, decimal_ℤ, lower, strip_prefix}
use axor_wrap.Value.{Value, truthy}
use axor_wrap.Value.Show.{show}
use axor_wrap.Plane.Bridge.Events.{Level, member, raw}

level_severity : Dict ℤ
level_severity =
    ("NORMAL", pos 0)
    ∷ ("CAUTIOUS", pos 1)
    ∷ ("RESTRICTED", pos 2)
    ∷ ("LOCKED", pos 3)
    ∷ ("TERMINAL", pos 4)
    ∷ []

-- `_level_name`
unfoldable pub level_name : Level → String
unfolding truthy show
level_name (member name) = name
level_name (raw v) = if truthy v then show v else "NORMAL"

-- `_LEVEL_SEVERITY.get(name, 0)`
unfoldable pub severity : String → ℤ
unfolding lookup level_severity
severity name = elim (lookup name level_severity) [ none ↦ pos 0 | some n ↦ n ]

-- `_ts`
unfoldable pub stamp : ℤ → String
unfolding decimal_ℤ
stamp index = "seq:" <> decimal_ℤ index

starts : String → String → Bool
unfolding strip_prefix
starts needle s = elim (strip_prefix needle s) [ none ↦ false | some rest ↦ true ]

-- `needle in s`
unfoldable pub occurs : String → String → Bool
unfolding starts
occurs needle String.[] = starts needle ""
occurs needle (String.◌∷◌ c s) = starts needle (String.◌∷◌ c s) || occurs needle s

needles : Dict String
needles =
    ("taint", "taint_enforcement")
    ∷ ("carrier", "carrier_gate")
    ∷ ("consequence", "consequence_gate")
    ∷ ("ssrf", "ssrf_gate")
    ∷ ("value policy", "value_policy")
    ∷ ("capability", "capability")
    ∷ ("budget", "budget")
    ∷ ("degradation", "degradation")
    ∷ ("unclassified", "unclassified_tool")
    ∷ ("positional", "positional_gate")
    ∷ []

first_match : Dict String → String → String
unfolding occurs
first_match [] s = "denial"
first_match ((needle, category) ∷ d) s =
    let rest = first_match d s in if occurs needle s then category else rest

-- `_category_of`
unfoldable pub category_of : String → String
unfolding first_match needles lower
category_of reason = first_match needles (lower reason)

abbrev text_if_truthy : Option Value → String
unfolding truthy show
text_if_truthy none = ""
text_if_truthy (some v) = if truthy v then show v else ""

abbrev or_category : String → String → String
unfolding category_of
or_category recorded reason = if empty recorded then category_of reason else recorded

-- The category that a denial has, or else the guess from its reason.
unfoldable pub denial_category : Dict Value → String → String
unfolding lookup truthy show category_of
denial_category payload reason = or_category (text_if_truthy (lookup "category" payload)) reason

abbrev pub known_gate : String → Option String → String
known_gate category (some gate) = gate
known_gate category none = if empty category then "denial" else category
