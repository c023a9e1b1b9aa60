-- ===== src/Plane/Session/Take.antt =====
-- The one-shots that the runtime takes at the boundary between two intents, and the heartbeat.
pub mod Lattice
pub mod Outbox
pub mod OneShot
use axor_wrap.Base.{
  String, Bool, true, false, not, ◌&&◌, Option, none, some, List, [], ◌∷◌, ℤ, contains, insert_new,
  if◌then◌else◌,
}
use axor_wrap.Base.Dict.{Dict, lookup}
use axor_wrap.Base.Text.{empty, decimal_ℤ}
use axor_wrap.Errors.{Result, ok, err, type_error}
use axor_wrap.Errors.Exec.{Exec}
use axor_wrap.Value.{Value, null, bool, int, str, arr, obj, items, Fields, end, field, of_strings}
use axor_wrap.Value.Equality.{value_eq}
use axor_wrap.Plane.Kernel.{Kernel, Injection, Excision}
use axor_wrap.Plane.Session.State.{PlaneSession, Replan, Event, emit}

abbrev id_payload : String → Value
id_payload id = obj (field "id" (str id) end)

abbrev id_reason : String → String → Value
id_reason id reason = obj (field "id" (str id) (field "reason" (str reason) end))

unfoldable pub consume : String → PlaneSession → PlaneSession
consume id s = record s { consumed_ids = insert_new id s.consumed_ids }

-- the method's guards, on an injection that was taken from its place
offer_injection : Injection → PlaneSession → PlaneSession × Option Injection
unfolding consume emit
offer_injection inj s =
    if contains s.consumed_ids inj.injection_id
    then (s, none)
    else if s.stopped
    then (emit "injection_refused" (id_reason inj.injection_id "stopped") s, none)
    else if not s.test_bench
    then (emit "injection_refused" (id_reason inj.injection_id "not test-bench") s, none)
    else (
      emit "injection_consumed" (id_payload inj.injection_id) (consume inj.injection_id s),
      some inj,
    )

taken_injection : Option Injection → PlaneSession → PlaneSession × Option Injection
unfolding offer_injection
taken_injection none s = (s, none)
taken_injection (some inj) s = offer_injection inj (record s { pending_injection = none })

unfoldable pub take_pending_injection : PlaneSession → PlaneSession × Option Injection
unfolding taken_injection
take_pending_injection s = taken_injection s.pending_injection s

-- `provenance.get(r, "runtime")`; a list or a dict is no key
provenance_of : Dict String → Value → Option String
unfolding lookup
provenance_of provenance (str r) = elim (lookup r provenance) [
  | none ↦ some "runtime"
  | some p ↦ some p
]
provenance_of provenance (arr vs) = none
provenance_of provenance (obj fs) = none
provenance_of provenance v = some "runtime"

-- the dict's entry for a reference: an equal key keeps its place
insert_ref : Value → String → List (Value × String) → List (Value × String)
unfolding value_eq
insert_ref r p [] = (r, p) ∷ []
insert_ref r p ((j, q) ∷ d) = if value_eq r j then (j, p) ∷ d else (j, q) ∷ insert_ref r p d

-- `{r: provenance.get(r, "runtime") for r in refs}`, onto the entries before
provenance_onto : Dict String → List (Value × String) → List Value → Option (List (Value × String))
unfolding provenance_of insert_ref
provenance_onto provenance d [] = some d
provenance_onto provenance d (r ∷ rs) = elim (provenance_of provenance r) [
  | none ↦ none
  | some p ↦ provenance_onto provenance (insert_ref r p d) rs
]

-- a key as it goes on the wire
key_text : Value → String
key_text (str r) = r
key_text (bool true) = "true"
key_text (bool false) = "false"
key_text (int n) = decimal_ℤ n
key_text v = "null"

key_fields : List (Value × String) → Fields
unfolding key_text
key_fields [] = end
key_fields ((r, p) ∷ d) = field (key_text r) (str p) (key_fields d)

provenance_fields : Dict String → List Value → Option Fields
unfolding provenance_onto key_fields
provenance_fields provenance refs = elim (provenance_onto provenance [] refs) [
  | none ↦ none
  | some d ↦ some (key_fields d)
]

excision_payload : Excision → Fields → Value
unfolding items
excision_payload exc provenance = obj (
    field "id" (str exc.excision_id) (
      field "refs" (arr (items exc.target_refs)) (
        field "provenance" (obj provenance)
          (field "operator" (str exc.operator) (field "reason" (str exc.reason) end)))))

refusal_payload : Excision → List Value → Value
unfolding items
refusal_payload exc refs = obj (
    field "id" (str exc.excision_id)
      (field "reason" (str "operator_config_provenance") (field "refs" (arr (items refs)) end)))

module _ (kernel : Kernel) where
  -- the excision is recorded as consumed before the message's dict is built, which may raise
  perform_excision : Dict String → Excision → Exec PlaneSession (Option Excision)
  unfolding consume emit provenance_fields excision_payload
  perform_excision provenance exc s = elim (provenance_fields provenance exc.target_refs) [
    | none ↦ (err type_error, consume exc.excision_id s)
    | some fs ↦ (
      ok (some exc),
      emit "context_excision" (excision_payload exc fs) (consume exc.excision_id s),
    )
  ]

  offer_excision : Dict String → Excision → Exec PlaneSession (Option Excision)
  unfolding perform_excision emit refusal_payload
  offer_excision provenance exc s =
      if contains s.consumed_ids exc.excision_id
      then (ok none, s)
      else elim (kernel.excision_refused_refs exc provenance) [
        | [] ↦ perform_excision provenance exc s
        | r ∷ rs ↦ (ok none, emit "excision_refused" (refusal_payload exc (r ∷ rs)) s)
      ]

  taken_excision : Dict String → Option Excision → Exec PlaneSession (Option Excision)
  unfolding offer_excision
  taken_excision provenance none s = (ok none, s)
  taken_excision provenance (some exc) s =
      offer_excision provenance exc (record s { pending_excision = none })

  unfoldable pub take_pending_excision : Dict String → Exec PlaneSession (Option Excision)
  unfolding taken_excision
  take_pending_excision provenance s = taken_excision provenance s.pending_excision s

offer_replan : Replan → PlaneSession → PlaneSession × Option Replan
unfolding consume emit
offer_replan rp s =
    if not (empty rp.id) && contains s.consumed_ids rp.id
    then (s, none)
    else if s.stopped
    then (emit "replan_refused" (id_reason rp.id "stopped") s, none)
    else (
      emit "replan_applied" (id_payload rp.id) (if empty rp.id then s else consume rp.id s),
      some rp,
    )

taken_replan : Option Replan → PlaneSession → PlaneSession × Option Replan
unfolding offer_replan
taken_replan none s = (s, none)
taken_replan (some rp) s = offer_replan rp (record s { pending_replan = none })

unfoldable pub take_pending_replan : PlaneSession → PlaneSession × Option Replan
unfolding taken_replan
take_pending_replan s = taken_replan s.pending_replan s
