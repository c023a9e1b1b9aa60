-- ===== src/Compile/Yaml.antt =====
-- compile.py, `governance_yaml`: the configuration as a text.
use axor_wrap.Base.{ℕ, String, ◌<>◌, Option, none, some, List, [], ◌∷◌, ◌++◌, map, length}
use axor_wrap.Base.Dict.{Dict, lookup, keys}
use axor_wrap.Base.Sorting.{sorted}
use axor_wrap.Base.Text.{json_text, joined, decimal}
use axor_wrap.Errors.{Result, ok, ◌>>=◌}
use axor_wrap.Value.{Value}
use axor_wrap.Compile.Manifests.{ValuePolicy, Compiled, compile_manifests}

-- `_q`
quoted : String → String → String
unfolding json_text
quoted before s = before <> json_text s

abbrev headed : String → List String → List String
headed head [] = []
headed head (l ∷ ls) = head ∷ l ∷ ls

-- `_yaml_list`
yaml_list : String → List String → List String
unfolding quoted
yaml_list key values = headed (key <> ":") (map (quoted "  - ") values)

abbrev values_at : Option (List String) → List String
values_at none = []
values_at (some vs) = vs

driving_lines : Dict (List String) → List String → List String
unfolding quoted lookup
driving_lines d [] = []
driving_lines d (tool ∷ tools) =
    (quoted "  " tool <> ":")
    ∷ (map (quoted "    - ") (values_at (lookup tool d)) ++ driving_lines d tools)

abbrev policy_at : Option ValuePolicy → List String
unfolding quoted
policy_at none = []
policy_at (some p) =
    quoted "    - arg: " p.arg
    ∷ "      kind: enum"
    ∷ "      allowed:"
    ∷ map (quoted "        - ") p.enum

policy_lines : Dict ValuePolicy → List String → List String
unfolding quoted lookup policy_at
policy_lines d [] = []
policy_lines d (tool ∷ tools) =
    (quoted "  " tool <> ":") ∷ (policy_at (lookup tool d) ++ policy_lines d tools)

governance_lines : ℕ → Compiled → List String
unfolding yaml_list driving_lines policy_lines sorted decimal
governance_lines count c =
    ("# governance.yaml — generated by axor-wrap from " <> (decimal count <> " tool manifest(s)"))
    ∷ "# load with axor_core.config.GovernanceConfig.from_yaml(...) (needs axor-core[config])"
    ∷ (yaml_list "untrusted_sources" c.untrusted_sources
        ++ (yaml_list "sensitive_sources" c.sensitive_sources
            ++ (yaml_list "egress_sinks" c.egress_sinks
                ++ (headed "driving_args:"
                      (driving_lines c.driving_args (sorted (keys c.driving_args)))
                    ++ headed "value_policies:"
                        (policy_lines c.value_policies (sorted (keys c.value_policies)))))))

unfoldable pub governance_yaml : List (Dict Value) → Option (Dict Value) → Result String
unfolding compile_manifests governance_lines
governance_yaml manifests policy = do
  c ← compile_manifests manifests policy none
  ok (joined "\n" (governance_lines (length manifests) c) <> "\n")
