-- ===== src/Cmd/Refine.antt =====
-- The list of commands of src/cmd.c against a table by names.
use co_d4x_client_pub.Common.{
  ℕ, ◌≡◌, refl, ap, fun_ext, ◌∙◌, true, Bool-cases, inl, inr, Option, none, some, List, [], ◌∷◌,
  if◌then◌else◌, arith, ◌⊎◌,
}
use co_d4x_client_pub.Text.{same}
use co_d4x_client_pub.Text.Compare.{same-eq, same_refl}
use co_d4x_client_pub.Cmd.Table.{
  Command, lookup, remove_command, completed, set_auto_complete, IsDistinct, Table, changed, Call,
  call, table_call,
}

Option-cases : (o : Option Command) → (o ≡ none) ⊎ ((cmd : Command) × (o ≡ some cmd))
Option-cases none = inl refl
Option-cases (some cmd) = inr (cmd, refl)

-- Two names of a command that are the same.
found-name :
    (cmds : List Command) (cmd : Command) (name : List ℕ)
    → lookup cmds cmd.name ≡ none
    → same name cmd.name ≡ true
    → lookup cmds name ≡ none
found-name cmds cmd name h e = rw (same-eq name cmd.name e) h

lookup-remove_command :
    (cmds : List Command) (name other : List ℕ)
    → IsDistinct cmds
    → lookup (remove_command cmds name) other ≡ changed (lookup cmds) name none other
lookup-remove_command [] name other d = ground arith
lookup-remove_command (cmd ∷ cmds) name other (h, d) = elim (Bool-cases (same name cmd.name)) [
  | inl hit ↦ elim (Bool-cases (same other name)) [
    | inl e ↦ rw (hit, e, same-eq other name e) (found-name cmds cmd name h hit)
    | inr ne ↦ rw (hit, ne, ← same-eq name cmd.name hit, ne)
  ]
  | inr miss ↦ elim (Bool-cases (same other name)) [
    | inl e ↦
        rw (miss, e, same-eq other name e, miss)
          (ground (arith, lookup-remove_command cmds name name d, same_refl name))
    | inr ne ↦ rw (miss, ne) (ground (arith, lookup-remove_command cmds name other d, ne))
  ]
]

-- The entry of a table under its completions; `none` stays.
abbrev complete_entry : Option Command → Option (List ℕ) → Option (List ℕ) → Option Command
complete_entry none arg_1 arg_2 = none
complete_entry (some cmd) arg_1 arg_2 = some (completed cmd arg_1 arg_2)

lookup-set_auto_complete :
    (cmds : List Command) (name : List ℕ) (arg_1 arg_2 : Option (List ℕ)) (other : List ℕ)
    → lookup (set_auto_complete cmds name arg_1 arg_2) other ≡ (
        if same other name
        then complete_entry (lookup cmds name) arg_1 arg_2
        else lookup cmds other)
lookup-set_auto_complete [] name arg_1 arg_2 other = ground arith
lookup-set_auto_complete (cmd ∷ cmds) name arg_1 arg_2 other =
    elim (Bool-cases (same name cmd.name)) [
      | inl hit ↦ elim (Bool-cases (same other name)) [
        | inl e ↦ rw (hit, e, same-eq other name e, hit) refl
        | inr ne ↦ rw (hit, ne, ← same-eq name cmd.name hit, ne) refl
      ]
      | inr miss ↦ elim (Bool-cases (same other name)) [
        | inl e ↦
            rw (miss, e, same-eq other name e, miss)
              (ground (arith, lookup-set_auto_complete cmds name arg_1 arg_2 name, same_refl name))
        | inr ne ↦
            rw (miss, ne) (ground (arith, lookup-set_auto_complete cmds name arg_1 arg_2 other, ne))
      ]
    ]

pub call-table :
    (c : Call) (cmds : List Command) (other : List ℕ)
    → IsDistinct cmds
    → lookup (call c cmds) other ≡ table_call c (lookup cmds) other
call-table (Call.add has_memory name function) cmds other d =
    elim (Option-cases (lookup cmds name)) [
      | inl free ↦ elim (Bool-cases has_memory) [
        | inl m ↦ rw (free, m) refl
        | inr m ↦ rw (free, m) refl
      ]
      | inr (cmd, taken) ↦ rw taken refl
    ]
call-table (Call.remove name) cmds other d = lookup-remove_command cmds name other d
call-table (Call.complete name arg_1 arg_2) cmds other d = elim (Option-cases (lookup cmds name)) [
  | inl free ↦ elim (Bool-cases (same other name)) [
    | inl e ↦ rw free (
        lookup-set_auto_complete cmds name arg_1 arg_2 other
        ∙ rw (free, e, same-eq other name e, free) refl)
    | inr ne ↦ rw free (lookup-set_auto_complete cmds name arg_1 arg_2 other ∙ rw (free, ne) refl)
  ]
  | inr (cmd, taken) ↦
      rw taken (lookup-set_auto_complete cmds name arg_1 arg_2 other ∙ rw taken refl)
]
call-table Call.clear cmds other d = refl

remove-IsDistinct :
    (cmds : List Command) (name : List ℕ) → IsDistinct cmds → IsDistinct (remove_command cmds name)
remove-IsDistinct [] name d = tt
remove-IsDistinct (cmd ∷ cmds) name (h, d) = elim (Bool-cases (same name cmd.name)) [
  | inl hit ↦ rw hit d
  | inr miss ↦ rw miss (
    lookup-remove_command cmds name cmd.name d ∙ ground (arith, h),
    remove-IsDistinct cmds name d,
  )
]

complete-IsDistinct :
    (cmds : List Command) (name : List ℕ) (arg_1 arg_2 : Option (List ℕ))
    → IsDistinct cmds
    → IsDistinct (set_auto_complete cmds name arg_1 arg_2)
complete-IsDistinct [] name arg_1 arg_2 d = tt
complete-IsDistinct (cmd ∷ cmds) name arg_1 arg_2 (h, d) = elim (Bool-cases (same name cmd.name)) [
  | inl hit ↦ rw hit (h, d)
  | inr miss ↦
      let free : lookup (set_auto_complete cmds name arg_1 arg_2) cmd.name ≡ none =
        lookup-set_auto_complete cmds name arg_1 arg_2 cmd.name
        ∙ elim (Bool-cases (same cmd.name name)) [
          | inl e ↦ rw (e, ← same-eq cmd.name name e, h) refl
          | inr ne ↦ rw (ne, h) refl
        ] in
      rw miss (free, complete-IsDistinct cmds name arg_1 arg_2 d)
]

call-IsDistinct : (c : Call) (cmds : List Command) → IsDistinct cmds → IsDistinct (call c cmds)
call-IsDistinct (Call.add has_memory name function) cmds d =
    elim (Option-cases (lookup cmds name)) [
      | inl free ↦ elim (Bool-cases has_memory) [
        | inl m ↦ rw (free, m) (free, d)
        | inr m ↦ rw (free, m) d
      ]
      | inr (cmd, taken) ↦ rw taken d
    ]
call-IsDistinct (Call.remove name) cmds d = remove-IsDistinct cmds name d
call-IsDistinct (Call.complete name arg_1 arg_2) cmds d =
    complete-IsDistinct cmds name arg_1 arg_2 d
call-IsDistinct Call.clear cmds d = tt

abbrev pub run : List Call → List Command → List Command
run [] cmds = cmds
run (c ∷ calls) cmds = run calls (call c cmds)

abbrev pub run_table : List Call → Table → Table
run_table [] t = t
run_table (c ∷ calls) t = run_table calls (table_call c t)

-- Whatever calls follow one another, no name stands twice in the list of commands, and each name
-- finds in it what it finds in a table under the same changes: a name that is taken is not added
-- again, a removed one is not found, and the completions of a name are those set last.
pub run-run_table :
    (calls : List Call) (cmds : List Command)
    → IsDistinct cmds
    → IsDistinct (run calls cmds) × (lookup (run calls cmds) ≡ run_table calls (lookup cmds))
run-run_table [] cmds d = (d, refl)
run-run_table (c ∷ calls) cmds d =
    let (d', same_table) = run-run_table calls (call c cmds) (call-IsDistinct c cmds d) in
    (d', same_table ∙ ap (λ t. run_table calls t) (fun_ext (λ name. call-table c cmds name d)))
