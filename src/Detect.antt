-- ===== src/Detect.antt =====
-- axor_wrap/detect.py: what the scanner hands on, a tool that it detected.
use axor_wrap.Base.{String}
use axor_wrap.Base.Dict.{Dict}
use axor_wrap.Value.{Value}

pub record DetectedTool : Type 0 where
  pub id : String
  pub source : String
  pub description : String
  pub args_schema : Dict Value
  pub framework : String
  pub schema_confidence : String
