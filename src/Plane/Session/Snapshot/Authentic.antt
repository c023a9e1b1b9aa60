-- ===== src/Plane/Session/Snapshot/Authentic.antt =====
-- What a snapshot asserts was signed: no key of it is a forgery.
use axor_wrap.Base.{
  ℤ, String, ◌≡◌, ◌≢◌, refl, subst, true, ◌⊎◌, inl, inr, none, some, List, [], ◌∷◌, Among, arith,
  eq_iff, Option-cases,
}
use axor_wrap.Base.Dict.{Dict, lookup, insert, update, lookup-insert}
use axor_wrap.Value.{Value}
use axor_wrap.Value.Equality.{value_eq}
use axor_wrap.Plane.Kernel.{Kernel}
use axor_wrap.Plane.Session.State.{PlaneSession, report, emit}
use axor_wrap.Plane.Session.Verify.{Command, read_command, signed_by, verify, refuse}
use axor_wrap.Plane.Session.Snapshot.{
  Checked, refused, passed, insert_sorted, sort, signed_values, check_key, check_keys, check_entry,
  check_commands, check_state, conclude, apply_snapshot,
}

-- The dict holds the field.
abbrev pub Has : String → Value → Dict Value → Type 0
Has k v [] = ⊥
Has k v ((j, w) ∷ d) = ((k ≡ j) × (v ≡ w)) ⊎ Has k v d

-- The command is what an entry of the snapshot says.
abbrev pub Listed : Command → List Value → Type 0
Listed c [] = ⊥
Listed c (v ∷ vs) = (read_command v ≡ some c) ⊎ Listed c vs

lookup-update :
    (k : String) (v : Value) (d e : Dict Value)
    → lookup k (update d e) ≡ some v
    → Has k v e ⊎ (lookup k d ≡ some v)
unfolding update
lookup-update k v d [] h = inr h
lookup-update k v d ((j, w) ∷ e) h =
    ground (arith, lookup-update k v (insert j w d) e h, lookup-insert j k w d, eq_iff k j)

lookup-signed_values :
    (k : String) (v : Value) (acc : Dict Value) (cs : List Command)
    → lookup k (signed_values acc cs) ≡ some v
    → ((c : Command) × Among c cs × Has k v c.delta) ⊎ (lookup k acc ≡ some v)
unfolding signed_values
lookup-signed_values k v acc [] h = inr h
lookup-signed_values k v acc (c ∷ cs) h =
    elim (lookup-signed_values k v (update acc c.delta) cs h) [
      | inl (d, m, has) ↦ inl (d, inr m, has)
      | inr old ↦ elim (lookup-update k v acc c.delta old) [
        | inl has ↦ inl (c, inl refl, has)
        | inr e ↦ inr e
      ]
    ]

Among-insert_sorted :
    (c d : Command) (ds : List Command) → Among c (insert_sorted d ds) → (c ≡ d) ⊎ Among c ds
unfolding insert_sorted
Among-insert_sorted c d [] m = m
Among-insert_sorted c d (e ∷ es) m = ground (arith, Among-insert_sorted c d es)

Among-sort : (c : Command) (cs : List Command) → Among c (sort cs) → Among c cs
unfolding sort
Among-sort c [] m = m
Among-sort c (d ∷ ds) m = elim (Among-insert_sorted c d (sort ds) m) [
  | inl e ↦ inl e
  | inr later ↦ inr (Among-sort c ds later)
]

check_key_sound :
    (signed : Dict Value) (k : String) (v : Value)
    → check_key signed k v ≡ none
    → (w : Value) × (lookup k signed ≡ some w) × (value_eq w v ≡ true)
unfolding check_key
check_key_sound signed k v h = elim (Option-cases (lookup k signed)) [
  | inl e ↦ absurd (ground arith)
  | inr (w, e) ↦ (w, e, ground arith)
]

check_keys_sound :
    (signed state : Dict Value) (k : String) (v : Value)
    → check_keys signed state ≡ none
    → Has k v state
    → (w : Value) × (lookup k signed ≡ some w) × (value_eq w v ≡ true)
unfolding check_keys
check_keys_sound signed [] k v h has = absurd has
check_keys_sound signed ((j, u) ∷ state) k v h (inl (p, q)) =
    rw (p, q) (check_key_sound signed j u (ground arith))
check_keys_sound signed ((j, u) ∷ state) k v h (inr later) =
    check_keys_sound signed state k v (ground arith) later

nothing_found : (k : String) (v : Value) → ¬ (lookup k [] ≡ some v)
unfolding lookup
nothing_found k v h = cc

module _ (kernel : Kernel) where
  -- A key of the node's own configuration verifies the command's signature over the node's id, the
  -- version, the delta and the timestamp.
  abbrev pub IsSigned : PlaneSession → Command → Type 0
  IsSigned s c = signed_by kernel (lookup c.operator s.operator_pubkeys) s c ≡ true

  pub verify-IsSigned :
      (s : PlaneSession) (c : Command)
      → s.operator_pubkeys ≢ []
      → verify kernel s c ≡ none
      → IsSigned s c
  unfolding verify
  verify-IsSigned s c h e = ground arith

  check_entry_sound :
      (s : PlaneSession) (v : Value) (c : Command)
      → check_entry kernel s v ≡ passed c
      → (read_command v ≡ some c) × (verify kernel s c ≡ none)
  unfolding check_entry
  check_entry_sound s v c h = ground arith

  check_commands-cons :
      (s : PlaneSession) (v : Value) (vs : List Value) (d : Command) (ds : List Command)
      → check_commands kernel s (v ∷ vs) ≡ passed (d ∷ ds)
      → (check_entry kernel s v ≡ passed d) × (check_commands kernel s vs ≡ passed ds)
  unfolding check_commands
  check_commands-cons s v vs d ds h = ground arith

  check_commands_sound :
      (s : PlaneSession) (vs : List Value) (cs : List Command) (c : Command)
      → check_commands kernel s vs ≡ passed cs
      → Among c cs
      → Listed c vs × (verify kernel s c ≡ none)
  unfolding check_commands
  check_commands_sound s vs [] c h m = absurd m
  check_commands_sound s [] (d ∷ ds) c h m = absurd (cc)
  check_commands_sound s (v ∷ vs) (d ∷ ds) c h (inl e) =
      let (entry, rest) = check_commands-cons s v vs d ds h in
      let (listed, good) = check_entry_sound s v d entry in rw e (inl listed, good)
  check_commands_sound s (v ∷ vs) (d ∷ ds) c h (inr m) =
      let (entry, rest) = check_commands-cons s v vs d ds h in
      let (listed, good) = check_commands_sound s vs ds c rest m in (inr listed, good)

  -- The value of a state's key, in a command of the snapshot that an operator signed.
  abbrev pub Accounted : PlaneSession → List Value → String → Value → Type 0
  Accounted s commands k v =
      (c : Command) × (w : Value) × Listed c commands
      × IsSigned s c
      × Has k w c.delta
      × (value_eq w v ≡ true)

  accounted :
      (s : PlaneSession) (state : Dict Value) (commands : List Value) (cs : List Command)
      → s.operator_pubkeys ≢ []
      → check_commands kernel s commands ≡ passed cs
      → check_keys (signed_values [] (sort cs)) state ≡ none
      → (k : String) (v : Value) → Has k v state
      → Accounted s commands k v
  accounted s state commands cs keyed passes agree k v has =
      let (w, found, same) = check_keys_sound (signed_values [] (sort cs)) state k v agree has in
      elim (lookup-signed_values k w [] (sort cs) found) [
        | inl (c, m, holds) ↦
            let (listed, good) = check_commands_sound s commands cs c passes (Among-sort c cs m) in
            (c, w, listed, verify-IsSigned s c keyed good, holds, same)
        | inr nothing ↦ absurd (nothing_found k w nothing)
      ]

  check_state_sound :
      (state : Dict Value) (r : Checked (List Command)) (ds : List Command)
      → check_state kernel state r ≡ passed ds
      → (cs : List Command) × (r ≡ passed cs)
        × (check_keys (signed_values [] (sort cs)) state ≡ none)
        × (ds ≡ sort cs)
  unfolding check_state
  check_state_sound state (refused e) ds h = absurd (cc)
  check_state_sound state (passed cs) ds h = (cs, refl, ground arith, ground arith)

  pub apply_snapshot-keyed :
      (version : ℤ) (state : Dict Value) (commands : List Value) (s : PlaneSession)
      → s.operator_pubkeys ≢ []
      → apply_snapshot kernel version state commands s
        ≡ conclude kernel version (check_state kernel state (check_commands kernel s commands)) s
  unfolding apply_snapshot
  apply_snapshot-keyed version state commands s keyed = ground arith

  -- What passes the checks was verified, command by command.
  pub checked-verify :
      (state : Dict Value) (commands : List Value) (s : PlaneSession) (ds : List Command)
      (c : Command)
      → check_state kernel state (check_commands kernel s commands) ≡ passed ds
      → Among c ds
      → verify kernel s c ≡ none
  checked-verify state commands s ds c h m =
      let (cs, passes, _, e) = check_state_sound state (check_commands kernel s commands) ds h in
      (check_commands_sound s commands cs c passes (Among-sort c cs (subst (Among c) e m))).1

  abbrev OnlyOutbox : PlaneSession → PlaneSession → Type 0
  OnlyOutbox s t = t ≡ record s { outbox = t.outbox }

  outcome :
      (version : ℤ) (state : Dict Value) (commands : List Value) (s : PlaneSession)
      (r : Checked (List Command))
      → s.operator_pubkeys ≢ []
      → check_state kernel state (check_commands kernel s commands) ≡ r
      → OnlyOutbox s (conclude kernel version r s).1
        ⊎ ((k : String) (v : Value) → Has k v state → Accounted s commands k v)
  unfolding conclude refuse report emit
  outcome version state commands s (refused e) keyed h = inl (ground arith)
  outcome version state commands s (passed ds) keyed h =
      let (cs, passes, agree, _) =
        check_state_sound state (check_commands kernel s commands) ds h in
      inr (accounted s state commands cs keyed passes agree)

  -- Under configured operator keys a snapshot has one of two outcomes. It changes nothing but the
  -- outbox; or each key of its state stands, with an equal value, in the delta of one of the
  -- snapshot's own commands whose signature verifies.
  pub apply_snapshot-authentic :
      (version : ℤ) (state : Dict Value) (commands : List Value) (s : PlaneSession)
      → s.operator_pubkeys ≢ []
      → (let t = (apply_snapshot kernel version state commands s).1 in
          t ≡ record s { outbox = t.outbox })
        ⊎ ((k : String) (v : Value) → Has k v state → Accounted s commands k v)
  apply_snapshot-authentic version state commands s keyed =
      rw (apply_snapshot-keyed version state commands s keyed) (
        outcome version state commands s
          (check_state kernel state (check_commands kernel s commands)) keyed refl)
