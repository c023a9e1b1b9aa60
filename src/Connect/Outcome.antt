-- ===== src/Connect/Outcome.antt =====
-- `_request`: what a call of the lab raises.
use axor_wrap.Base.{◌≡◌}
use axor_wrap.Base.Dict.{Dict}
use axor_wrap.Value.{Value, obj, Fields}

abbrev pub IsDict : Value → Type 0
IsDict v = (fs : Fields) × (v ≡ obj fs)
