-- ===== src/Cmd/Table.antt =====
-- The lists of commands of src/cmd.c. A list is the value of `*cmd_functions`: its nodes from the
-- front on. A name stands in the node's own memory, so that its removal frees both.
use co_d4x_client_pub.Common.{ℕ, ◌≡◌, Bool, Option, none, some, List, [], ◌∷◌, if◌then◌else◌}
use co_d4x_client_pub.Text.{same}

-- The function is an address.
pub record Command : Type 0 where
  pub name : List ℕ
  pub autocomplete1 : Option (List ℕ)
  pub autocomplete2 : Option (List ℕ)
  pub function : ℕ

abbrev pub new_command : List ℕ → ℕ → Command
new_command name function = record {
  name = name;
  autocomplete1 = none;
  autocomplete2 = none;
  function = function;
}

-- The two lists, of the client and of the server.
pub record Lists : Type 0 where
  pub cmd_functions : List Command
  pub sv_cmd_functions : List Command

abbrev pub shutdown : Lists → Lists
shutdown l = record { cmd_functions = []; sv_cmd_functions = [] }

-- The first command of that name.
abbrev pub lookup : List Command → List ℕ → Option Command
lookup [] name = none
lookup (cmd ∷ cmds) name =
    let rest = lookup cmds name in if same name cmd.name then some cmd else rest

abbrev pub add_new : Option Command → Bool → List Command → List ℕ → ℕ → List Command
add_new (some cmd) has_memory cmds name function = cmds
add_new none has_memory cmds name function =
    if has_memory then new_command name function ∷ cmds else cmds

-- `Cmd_AddCommand`. `has_memory` tells whether `malloc` returns memory.
abbrev pub add_command : Bool → List Command → List ℕ → ℕ → List Command
add_command has_memory cmds name function = add_new (lookup cmds name) has_memory cmds name function

abbrev pub add_server_new :
    Option Command → Bool → List Command → List ℕ → ℕ → Option (List Command)
add_server_new (some cmd) has_memory cmds name function = some cmds
add_server_new none has_memory cmds name function =
    if has_memory then some (new_command name function ∷ cmds) else none

-- `Cmd_AddServerCommand`, on the server's list, does not look whether there is memory; `none` is a
-- write to the null pointer.
abbrev pub add_server_command : Bool → List Command → List ℕ → ℕ → Option (List Command)
add_server_command has_memory cmds name function =
    add_server_new (lookup cmds name) has_memory cmds name function

abbrev pub remove_command : List Command → List ℕ → List Command
remove_command [] name = []
remove_command (cmd ∷ cmds) name =
    let rest = remove_command cmds name in if same name cmd.name then cmds else cmd ∷ rest

abbrev pub completed : Command → Option (List ℕ) → Option (List ℕ) → Command
completed cmd arg_1 arg_2 = record cmd { autocomplete1 = arg_1; autocomplete2 = arg_2 }

abbrev pub set_auto_complete :
    List Command → List ℕ → Option (List ℕ) → Option (List ℕ) → List Command
set_auto_complete [] name arg_1 arg_2 = []
set_auto_complete (cmd ∷ cmds) name arg_1 arg_2 =
    let rest = set_auto_complete cmds name arg_1 arg_2 in
    if same name cmd.name then completed cmd arg_1 arg_2 ∷ cmds else cmd ∷ rest

-- No name stands twice.
abbrev pub IsDistinct : List Command → Type 0
IsDistinct [] = Unit {0}
IsDistinct (cmd ∷ cmds) = (lookup cmds cmd.name ≡ none) × IsDistinct cmds

-- What the commands are, seen from outside: at most one under each name.
abbrev pub Table : Type 0
Table = List ℕ → Option Command

abbrev pub changed : Table → List ℕ → Option Command → Table
changed t name v other = if same other name then v else t other

-- Calls on the client's list, and what each does to the table.
pub data Call : Type 0 where
  add : Bool → List ℕ → ℕ → Call
  remove : List ℕ → Call
  complete : List ℕ → Option (List ℕ) → Option (List ℕ) → Call
  clear : Call

abbrev pub call : Call → List Command → List Command
call (Call.add has_memory name function) cmds = add_command has_memory cmds name function
call (Call.remove name) cmds = remove_command cmds name
call (Call.complete name arg_1 arg_2) cmds = set_auto_complete cmds name arg_1 arg_2
call Call.clear cmds =
    (shutdown (record { cmd_functions = cmds; sv_cmd_functions = [] })).cmd_functions

abbrev pub table_add : Option Command → Bool → Table → List ℕ → ℕ → Table
table_add (some cmd) has_memory t name function = t
table_add none has_memory t name function =
    if has_memory then changed t name (some (new_command name function)) else t

abbrev pub table_complete :
    Option Command → Table → List ℕ → Option (List ℕ) → Option (List ℕ) → Table
table_complete none t name arg_1 arg_2 = t
table_complete (some cmd) t name arg_1 arg_2 = changed t name (some (completed cmd arg_1 arg_2))

abbrev pub table_call : Call → Table → Table
table_call (Call.add has_memory name function) t = table_add (t name) has_memory t name function
table_call (Call.remove name) t = changed t name none
table_call (Call.complete name arg_1 arg_2) t = table_complete (t name) t name arg_1 arg_2
table_call Call.clear t = λ name. none
