-- ===== src/Plane/Session/Tests.antt =====
-- Sessions, commands and a kernel to run them with, and the theorems at these.
use axor_wrap.Base.{
  ℕ, pos, String, Bool, true, false, ◌&&◌, ◌≡◌, ◌≢◌, refl, ◌⊎◌, none, some, List, [], ◌∷◌, nat_eq,
}
use axor_wrap.Base.Dict.{Dict}
use axor_wrap.Errors.{ok}
use axor_wrap.Errors.Exec.{◌>>=◌}
use axor_wrap.Value.{Value, bool, int, str, arr, obj, end, field, cons, nil, to_int, to_dict}
use axor_wrap.Plane.Kernel.{Kernel, Injection, Excision}
use axor_wrap.Plane.Session.State.{PlaneSession, Replan, sig_invalid, new_session, admit_intent}
use axor_wrap.Plane.Session.Narrows.{Narrows}
use axor_wrap.Plane.Session.Frozen.{SameEffects}
use axor_wrap.Plane.Session.Verify.{Command, read_command, verify, apply_delta}
use axor_wrap.Plane.Session.Snapshot.{check_state, check_commands, apply_snapshot, raise_version}
use axor_wrap.Plane.Session.Snapshot.Authentic.{Has, Accounted, apply_snapshot-authentic}
use axor_wrap.Plane.Session.Snapshot.Sorted.{Reads, Rearranged, Ascending}
use axor_wrap.Plane.Session.Snapshot.Deltas.{deliver, apply_snapshot-deltas}
use axor_wrap.Plane.Session.Take.{
  take_pending_injection, take_pending_excision, take_pending_replan,
}
use axor_wrap.Plane.Session.Take.OneShot.{
  take_pending_injection-guards, take_pending_excision-guards,
}
use axor_wrap.Plane.Session.Run.{Call, delta, snapshot, injection, step, run}
use axor_wrap.Plane.Session.Run.Monotone.{run-Narrows, admit_intent-run}
use axor_wrap.Plane.Session.Run.Absorb.{stopped_absorbs}
use axor_wrap.Plane.Session.Run.AtMostOnce.{injections_differ, excisions_differ, replans_differ}
use axor_wrap.Plane.Session.Run.Redelivery.{redelivered_delta}

bytes_eq : List ℕ → List ℕ → Bool
bytes_eq [] [] = true
bytes_eq (a ∷ as_) (b ∷ bs) = nat_eq a b && bytes_eq as_ bs
bytes_eq _ _ = false

-- A kernel whose signature of anything is the key itself, and which refuses no excision.
abbrev toy : Kernel
toy = record {
  canonicalize = λ v. [];
  verify = λ key sig message. bytes_eq key sig;
  is_public_key = λ key. true;
  excision_refused_refs = λ exc provenance. [];
}

abbrev guarded : PlaneSession
guarded = new_session "n1" (("ops", "0aFF") ∷ []) true (some (pos 9))

abbrev command : ℕ → Dict Value → Command
command version body = record {
  version = pos version;
  delta = body;
  operator = "ops";
  timestamp = "t";
  sig = "0a ff";
}

abbrev the : String → Injection
the id = record { injection_id = id; text = "hello"; reason = ""; operator = "ops"; sig = "" }

abbrev pause : Command
pause = command 1 (("paused", bool true) ∷ ("budget_cap_calls", int (pos 5)) ∷ [])

abbrev stop : Command
stop = command 2 (("stopped", bool true) ∷ [])

abbrev inject : ℕ → String → Command
inject version id = command version (("pending_injection", obj (field "id" (str id) end)) ∷ [])

-- The same command as an entry of a snapshot; the order of the two says the later first.
abbrev entries_signed : List Value
entries_signed =
    obj (
      field "version" (int (pos 4)) (
        field "delta" (obj (field "stopped" (bool true) end)) (
          field "operator" (str "ops")
            (field "timestamp" (str "t") (field "sig" (str "0aff") end)))))
    ∷ obj (
        field "version" (int (pos 3)) (
          field "delta" (obj (field "paused" (bool true) end)) (
            field "operator" (str "ops")
              (field "timestamp" (str "t") (field "sig" (str "0aff") end)))))
    ∷ []

abbrev state_signed : Dict Value
state_signed = ("paused", bool true) ∷ ("stopped", bool true) ∷ []

abbrev in_order : List Command
in_order =
    record (command 3 (("paused", bool true) ∷ [])) { sig = "0aff" }
    ∷ record (command 4 (("stopped", bool true) ∷ [])) { sig = "0aff" }
    ∷ []

paused_by_delta : (apply_delta toy pause guarded).1.paused ≡ true
unfolding apply_delta bytes_eq ◌>>=◌
paused_by_delta = refl

run-Narrows_example : Narrows guarded (run toy (delta pause ∷ injection ∷ delta stop ∷ []) guarded)
run-Narrows_example = run-Narrows toy (delta pause ∷ injection ∷ delta stop ∷ []) guarded

abbrev halted : PlaneSession
halted = record guarded { stopped = true }

abbrev flood : List Call
flood = delta pause ∷ snapshot (pos 7) (("paused", bool true) ∷ []) [] ∷ []

admit_intent-run_example : admit_intent (run toy flood halted) ≡ false
admit_intent-run_example = admit_intent-run toy flood halted refl

stopped_absorbs_example : SameEffects halted (run toy flood halted)
stopped_absorbs_example = stopped_absorbs toy flood halted (tt, (tt, tt)) refl

abbrev offered : PlaneSession
offered = record guarded { pending_injection = some (the "i1") }

abbrev again : List Call
again = delta (inject 3 "i2") ∷ []

abbrev after_one : PlaneSession
unfolding take_pending_injection
after_one = (take_pending_injection offered).0

abbrev second : Injection
second = record { injection_id = "i2"; text = ""; reason = ""; operator = ""; sig = "" }

redelivered_delta_example :
    let t = run toy flood (apply_delta toy pause guarded).1 in (apply_delta toy pause t).1 ≡ t
unfolding verify bytes_eq
redelivered_delta_example = redelivered_delta toy pause guarded refl flood

take_pending_injection-guards_example :
    (offered.pending_injection ≡ some (the "i1"))
    × (offered.stopped ≡ false)
    × (offered.test_bench ≡ true)
    × (after_one.pending_injection ≡ none)
unfolding take_pending_injection
take_pending_injection-guards_example =
    take_pending_injection-guards offered after_one (the "i1") refl

injections_differ_example : ◌≢◌ {A = String} "i2" "i1"
unfolding take_pending_injection run step apply_delta bytes_eq ◌>>=◌
injections_differ_example =
    injections_differ toy again offered after_one
      (take_pending_injection (run toy again after_one)).0 (the "i1") second refl refl

keyed : guarded.operator_pubkeys ≢ []
keyed e = cc

apply_snapshot-authentic_example :
    (let t = (apply_snapshot toy (pos 6) state_signed entries_signed guarded).1 in
      t ≡ record guarded { outbox = t.outbox })
    ⊎ ((k : String) (v : Value) → Has k v state_signed → Accounted toy guarded entries_signed k v)
apply_snapshot-authentic_example =
    apply_snapshot-authentic toy (pos 6) state_signed entries_signed guarded keyed

-- A state key that no command signed: the whole snapshot is refused.
forged_snapshot :
    (apply_snapshot toy (pos 6) (("replan", bool true) ∷ state_signed) entries_signed guarded).0
    ≡ ok (record { kind = sig_invalid; detail = "unsigned state key 'replan'" })
unfolding apply_snapshot read_command to_int to_dict bytes_eq ◌>>=◌
forged_snapshot = refl

apply_snapshot-deltas_example :
    (read : List Command) × Reads entries_signed read
    × Rearranged read in_order
    × Ascending in_order
    × ((apply_snapshot toy (pos 6) state_signed entries_signed guarded).1
        ≡ raise_version (pos 6) (deliver toy in_order guarded).1)
unfolding check_state check_commands read_command deliver apply_delta bytes_eq ◌>>=◌
apply_snapshot-deltas_example =
    apply_snapshot-deltas toy (pos 6) state_signed entries_signed guarded in_order keyed refl refl

abbrev cut : String → PlaneSession
cut id = record guarded {
  pending_excision = some (record {
    excision_id = id;
    target_refs = str "r1" ∷ [];
    reason = "";
    operator = "";
    sig = "";
  });
}

abbrev excised : Excision
excised = record {
  excision_id = "x1";
  target_refs = str "r1" ∷ [];
  reason = "";
  operator = "";
  sig = "";
}

abbrev after_cut : PlaneSession
unfolding take_pending_excision
after_cut = (take_pending_excision toy [] (cut "x1")).1

take_pending_excision-guards_example :
    ((cut "x1").pending_excision ≡ some excised)
    × (toy.excision_refused_refs excised [] ≡ [])
    × (after_cut.pending_excision ≡ none)
unfolding take_pending_excision
take_pending_excision-guards_example =
    take_pending_excision-guards toy [] (cut "x1") after_cut excised refl

abbrev cut_again : List Call
cut_again =
    delta (
      command 3 (
        (
          "pending_excision",
          obj (field "id" (str "x2") (field "target_refs" (arr (cons (str "r1") nil)) end)),
        )
        ∷ []))
    ∷ []

excisions_differ_example : ◌≢◌ {A = String} "x2" "x1"
unfolding take_pending_excision run step apply_delta bytes_eq ◌>>=◌
excisions_differ_example =
    excisions_differ toy cut_again [] [] (cut "x1") after_cut
      (take_pending_excision toy [] (run toy cut_again after_cut)).1 excised
      (record excised { excision_id = "x2" }) refl refl

abbrev planned : String → Replan
planned id = record { id = id; reason = ""; operator = "" }

abbrev replanning : PlaneSession
replanning = record guarded { pending_replan = some (planned "p1") }

abbrev replan_again : List Call
replan_again = delta (command 3 (("replan", obj (field "id" (str "p2") end)) ∷ [])) ∷ []

abbrev after_replan : PlaneSession
unfolding take_pending_replan
after_replan = (take_pending_replan replanning).0

replans_differ_example : ◌≢◌ {A = String} "p2" "p1"
unfolding take_pending_replan run step apply_delta bytes_eq ◌>>=◌
replans_differ_example =
    replans_differ toy replan_again replanning after_replan
      (take_pending_replan (run toy replan_again after_replan)).0 (planned "p1") (planned "p2") refl
      refl refl refl
