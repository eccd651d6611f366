-- ===== src/Cmd/Tests.antt =====
-- The commands of src/cmd.c on examples.
use co_d4x_client_pub.Common.{
  ℕ, ◌+◌, ◌≡◌, refl, ap, inl, inr, true, none, some, List, [], ◌∷◌, length, take, map, replicate,
  length-replicate, arith, All,
}
use co_d4x_client_pub.Text.Buffer.{IsString}
use co_d4x_client_pub.Cmd.Table.{Command, lookup, IsDistinct}
use co_d4x_client_pub.Cmd.Table
use co_d4x_client_pub.Cmd.Refine.{run-run_table}
use co_d4x_client_pub.Cmd.Refine
use co_d4x_client_pub.Cmd.Tokens.{CmdArgsPrivate, token_start, stops, tokenize}
use co_d4x_client_pub.Cmd.Pool.{strings, flat, string_at, tokenize-strings}
use co_d4x_client_pub.Cmd.Bounds.{Bounded, tokenize-Bounded}
use co_d4x_client_pub.Cmd.Args.{Cmds, argc_of, arguments_from}
use co_d4x_client_pub.Cmd.Nesting.{
  IsNested, Restored, end_tokenized_string-tokenize_string, run-IsNested,
}
use co_d4x_client_pub.Cmd.Nesting
use co_d4x_client_pub.Cmd.Printed.{IsArgument}
use co_d4x_client_pub.Cmd.RoundTrip.{Takes, Reads, tokenize_string-argsv}

-- `say`, and `hi you` between quotes.
abbrev word : List ℕ
word = b's' ∷ b'a' ∷ []

abbrev phrase : List ℕ
phrase = b'h' ∷ b' ' ∷ b'y' ∷ []

abbrev calls : List Table.Call
calls =
    Table.Call.add true word 7
    ∷ Table.Call.complete word (some phrase) none
    ∷ Table.Call.add true word 8
    ∷ Table.Call.remove phrase
    ∷ []

run-run_table_example :
    IsDistinct (Refine.run calls [])
    × (lookup (Refine.run calls []) ≡ Refine.run_table calls (lookup []))
run-run_table_example = run-run_table calls [] tt

-- A comment, and a token behind it.
abbrev commented : List ℕ
commented = b'/' ∷ b'*' ∷ b'x' ∷ b'*' ∷ b'/' ∷ b' ' ∷ b'y' ∷ []

abbrev fresh_priv : CmdArgsPrivate
fresh_priv = record {
  text_pool = replicate 8192 0;
  argv_pool = replicate 512 0;
  used_text_pool = replicate 8 0;
  total_used_argv_pool = 0;
  total_used_text_pool = 0;
}

abbrev fresh : Cmds
fresh = record {
  args = record {
    nesting = 0;
    local_client_num = replicate 8 0;
    argshift = replicate 8 0;
    argc = replicate 8 0;
    argv = replicate 8 0;
  };
  args_priv = fresh_priv;
}

fresh-IsNested : IsNested fresh
fresh-IsNested = record {
  depth = omega arith;
  argc_size = refl;
  argshift_size = refl;
  used_size = refl;
  argv_used = refl;
  argv_below = omega arith;
  text_used = refl;
  text_below = omega arith;
  no_shift = refl;
}

tokenize-Bounded_example : Bounded 3 fresh_priv (tokenize 3 commented fresh_priv)
tokenize-Bounded_example = tokenize-Bounded 3 commented fresh_priv (omega arith)

commented-strings : strings 3 commented ≡ (b'y' ∷ []) ∷ []
unfolding token_start stops
commented-strings = refl

tokenize-strings_example :
    (map
        (string_at (tokenize 3 commented fresh_priv).1.text_pool)
        (tokenize 3 commented fresh_priv).0
      ≡ strings 3 commented)
    × (take 0 (tokenize 3 commented fresh_priv).1.text_pool ≡ take 0 fresh_priv.text_pool)
    × ((tokenize 3 commented fresh_priv).1.total_used_text_pool
        ≡ 0 + length (flat (strings 3 commented)))
tokenize-strings_example =
    tokenize-strings 3 commented fresh_priv (length-replicate {A = ℕ} 8192 0)
      (rw commented-strings (omega arith))
      (rw commented-strings (((omega arith, omega arith), tt), tt))

abbrev nested_calls : List Nesting.Call
nested_calls =
    Nesting.Call.tokenize (some commented)
    ∷ Nesting.Call.tokenize none
    ∷ Nesting.Call.end
    ∷ Nesting.Call.end
    ∷ Nesting.Call.end
    ∷ []

run-IsNested_example : (t : Cmds) × (Nesting.run fresh nested_calls ≡ some t) × IsNested t
run-IsNested_example =
    run-IsNested nested_calls fresh fresh-IsNested (omega arith, (omega arith, tt))

abbrev two_arguments : List (List ℕ)
two_arguments = word ∷ phrase ∷ []

two_arguments-IsString : All IsString two_arguments
two_arguments-IsString = (
  ((omega arith, omega arith), ((omega arith, omega arith), tt)),
  (
    ((omega arith, omega arith), ((omega arith, omega arith), ((omega arith, omega arith), tt))),
    tt,
  ),
)

two_arguments-IsArgument : All IsArgument two_arguments
unfolding stops
two_arguments-IsArgument = (
  inr (refl, (λ e. absurd (omega (arith, ap (λ (l : List ℕ). length l) e))), (refl, (refl, tt))),
  (inl (refl, refl), tt),
)

fresh-Takes : Takes fresh two_arguments
fresh-Takes = record {
  nested = fresh-IsNested;
  free = omega arith;
  argv_size = refl;
  pool_size = length-replicate {A = ℕ} 512 0;
  text_size = length-replicate {A = ℕ} 8192 0;
  count = omega arith;
  room = omega arith;
}

-- A state in which they are the arguments.
abbrev entered : Cmds
entered = record {
  args = record fresh.args { nesting = 1; argc = 2 ∷ replicate 7 0 };
  args_priv = record fresh_priv {
    text_pool = b's' ∷ b'a' ∷ 0 ∷ b'h' ∷ b' ' ∷ b'y' ∷ 0 ∷ replicate 8185 0;
    argv_pool = 0 ∷ 3 ∷ replicate 510 0;
  };
}

entered-arguments : arguments_from entered 0 (argc_of entered) ≡ two_arguments
entered-arguments = refl

tokenize_string-argsv_example : Reads fresh entered (replicate 20 0) 20 two_arguments
tokenize_string-argsv_example =
    tokenize_string-argsv fresh entered two_arguments (replicate 20 0) 20 entered-arguments
      two_arguments-IsString two_arguments-IsArgument (omega arith) (omega arith) fresh-Takes

-- A token behind which the last one is empty.
abbrev trailing : List ℕ
trailing = b'a' ∷ b' ' ∷ []

trailing-strings : strings 2 trailing ≡ (b'a' ∷ []) ∷ [] ∷ []
unfolding token_start stops
trailing-strings = refl
