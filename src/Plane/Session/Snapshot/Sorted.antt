-- ===== src/Plane/Session/Snapshot/Sorted.antt =====
-- What the checks of a snapshot pass on: its commands as they are read, sorted by their versions.
use axor_wrap.Base.{
  ◌≡◌, refl, sym, ap, true, false, Option-cases, inl, inr, Bool-cases, some, List, [], ◌∷◌, ◌++◌,
  leb_ℤ, arith,
}
use axor_wrap.Base.Dict.{Dict}
use axor_wrap.Value.{Value}
use axor_wrap.Plane.Kernel.{Kernel}
use axor_wrap.Plane.Session.State.{PlaneSession}
use axor_wrap.Plane.Session.Verify.{Command, read_command}
use axor_wrap.Plane.Session.Snapshot.{
  Checked, refused, passed, also, insert_sorted, sort, signed_values, check_keys, check_entry,
  check_commands, check_state,
}

-- The entries read, each in its place.
abbrev pub Reads : List Value → List Command → Type 0
Reads [] cs = cs ≡ []
Reads (v ∷ vs) cs =
    (c : Command) × (rest : List Command) × (cs ≡ c ∷ rest)
    × (read_command v ≡ some c)
    × Reads vs rest

abbrev pub AllBelow : List Command → Command → Type 0
AllBelow [] c = Unit
AllBelow (d ∷ ds) c = (leb_ℤ c.version d.version ≡ false) × AllBelow ds c

-- The second list holds the command behind ones of smaller versions, and the first the others.
abbrev pub Inserted : Command → List Command → List Command → Type 0
Inserted c ds es =
    (before after : List Command) × (ds ≡ (before ++ after))
    × (es ≡ (before ++ c ∷ after))
    × AllBelow before c

-- The second list holds the commands of the first, each once, and none before one that stands before it
-- in the first with the same version.
abbrev pub Rearranged : List Command → List Command → Type 0
Rearranged [] es = es ≡ []
Rearranged (c ∷ cs) es = (ds : List Command) × Rearranged cs ds × Inserted c ds es

abbrev pub Ascending : List Command → Type 0
Ascending [] = Unit
Ascending (c ∷ []) = Unit
Ascending (c ∷ d ∷ ds) = (leb_ℤ c.version d.version ≡ true) × Ascending (d ∷ ds)

insert_sorted-Inserted : (c : Command) (ds : List Command) → Inserted c ds (insert_sorted c ds)
unfolding insert_sorted
insert_sorted-Inserted c [] = ([], [], refl, refl, tt)
insert_sorted-Inserted c (d ∷ ds) = elim (Bool-cases (leb_ℤ c.version d.version)) [
  | inl p ↦ rw (p) ([], d ∷ ds, refl, refl, tt)
  | inr p ↦
      let (before, after, whole, with_c, below) = insert_sorted-Inserted c ds in
      rw (p) (d ∷ before, after, ap (λ l. d ∷ l) whole, ap (λ l. d ∷ l) with_c, (p, below))
]

insert_sorted-Ascending :
    (c : Command) (ds : List Command) → Ascending ds → Ascending (insert_sorted c ds)
unfolding insert_sorted
insert_sorted-Ascending c [] h = tt
insert_sorted-Ascending c (d ∷ []) h = elim (Bool-cases (leb_ℤ c.version d.version)) [
  | inl p ↦ rw (p) (p, tt)
  | inr p ↦ rw (p) (ground arith, tt)
]
insert_sorted-Ascending c (d ∷ e ∷ ds) h = elim (Bool-cases (leb_ℤ c.version d.version)) [
  | inl p ↦ rw (p) (p, h)
  | inr p ↦
      let later = insert_sorted-Ascending c (e ∷ ds) h.1 in
      rw (p) (elim (Bool-cases (leb_ℤ c.version e.version)) [
        | inl q ↦ rw (q) (ground arith, (q, h.1))
        | inr q ↦ rw (q) (h.0, (rw (q) at later))
      ])
]

sort-Rearranged : (cs : List Command) → Rearranged cs (sort cs)
unfolding sort
sort-Rearranged [] = refl
sort-Rearranged (c ∷ cs) = (sort cs, sort-Rearranged cs, insert_sorted-Inserted c (sort cs))

sort-Ascending : (cs : List Command) → Ascending (sort cs)
unfolding sort
sort-Ascending [] = tt
sort-Ascending (c ∷ cs) = insert_sorted-Ascending c (sort cs) (sort-Ascending cs)

passed_inj : (a b : List Command) → passed a ≡ passed b → a ≡ b
passed_inj a b h = cc

module _ (kernel : Kernel) where
  also-passed :
      (c : Command) (r : Checked (List Command)) (cs : List Command)
      → also c r ≡ passed cs
      → (rest : List Command) × (r ≡ passed rest) × (cs ≡ c ∷ rest)
  also-passed c (refused e) cs h = absurd (ground arith)
  also-passed c (passed rest) cs h = (rest, refl, sym (passed_inj (c ∷ rest) cs h))

  check_entry-read :
      (s : PlaneSession) (v : Value) (c : Command)
      → check_entry kernel s v ≡ passed c
      → read_command v ≡ some c
  unfolding check_entry
  check_entry-read s v c h = grind arith

  check_commands-Reads :
      (s : PlaneSession) (vs : List Value) (cs : List Command)
      → check_commands kernel s vs ≡ passed cs
      → Reads vs cs
  unfolding check_commands
  check_commands-Reads s [] cs h = sym (passed_inj [] cs h)
  check_commands-Reads s (v ∷ vs) cs h =
      after (check_entry kernel s v) refl (check_commands-Reads s vs) h
    where
      after :
          (r : Checked Command)
          → check_entry kernel s v ≡ r
          → ((rest : List Command) → check_commands kernel s vs ≡ passed rest → Reads vs rest)
          → (elim r [ refused e ↦ refused e | passed c ↦ also c (check_commands kernel s vs) ])
            ≡ passed cs
          → Reads (v ∷ vs) cs
      after (refused e) p ih k = absurd (ground arith)
      after (passed c) p ih k =
          let (rest, checked, whole) = also-passed c (check_commands kernel s vs) cs k in
          (c, rest, whole, check_entry-read s v c p, ih rest checked)

  check_state-sorts :
      (state : Dict Value) (r : Checked (List Command)) (cs : List Command)
      → check_state kernel state r ≡ passed cs
      → (read : List Command) × (r ≡ passed read) × (cs ≡ sort read)
  unfolding check_state
  check_state-sorts state (refused e) cs h = absurd (ground arith)
  check_state-sorts state (passed read) cs h =
      elim (Option-cases (check_keys (signed_values [] (sort read)) state)) [
        | inl p ↦ (read, refl, sym (passed_inj (sort read) cs (rw (p, check_state) at h)))
        | inr (e, p) ↦ absurd (ground arith)
      ]

  pub checked-Sorted :
      (state : Dict Value) (commands : List Value) (s : PlaneSession) (cs : List Command)
      → check_state kernel state (check_commands kernel s commands) ≡ passed cs
      → (read : List Command) × Reads commands read × Rearranged read cs × Ascending cs
  checked-Sorted state commands s cs h =
      let (read, checked, sorted) =
        check_state-sorts state (check_commands kernel s commands) cs h in
      (
        read,
        check_commands-Reads s commands read checked,
        rw (sorted) (sort-Rearranged read),
        rw (sorted) (sort-Ascending read),
      )
