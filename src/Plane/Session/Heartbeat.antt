-- ===== src/Plane/Session/Heartbeat.antt =====
-- `PlaneSession.heartbeat`.
use axor_wrap.Base.{ℤ, String, Option, none, some}
use axor_wrap.Base.Sorting.{sorted}
use axor_wrap.Value.{Value, null, int, str, arr, obj, end, field, of_strings}
use axor_wrap.Plane.Session.State.{PlaneSession, Event}

abbrev budget_value : Option ℤ → Value
budget_value none = null
budget_value (some n) = int n

unfoldable pub heartbeat : String → Option ℤ → PlaneSession → Event
unfolding sorted of_strings
heartbeat level budget_remaining s = record {
  kind = "heartbeat";
  payload = obj (
      field "applied_version" (int s.applied_version) (
        field "consumed_injection_ids" (arr (of_strings (sorted s.consumed_ids))) (
          field "level" (str level)
            (field "budget_remaining" (budget_value budget_remaining) end))));
}
