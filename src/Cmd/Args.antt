-- ===== src/Cmd/Args.antt =====
-- The stack of tokenized strings of src/cmd.c. The field `nesting` is the program's plus one: the
-- number of strings that are tokenized, which is zero where the program has -1. A pointer into the
-- pool of arguments is an offset in it.
use co_d4x_client_pub.Common.{
  ℕ, zero, suc, ◌+◌, ◌-◌, Option, none, some, List, [], ◌∷◌, ltb, leb, if◌then◌else◌, ◌||◌, length,
  set, get_or, put_bytes, minus_one,
}
use co_d4x_client_pub.Text.{strcat}
use co_d4x_client_pub.Info.{has_char}
use co_d4x_client_pub.Cmd.Tokens.{CmdArgsPrivate, Tokens, tokenize_internal, argv_pool_size}
use co_d4x_client_pub.Cmd.Pool.{string_at}

abbrev pub max_tokenize_strings : ℕ
max_tokenize_strings = 8

pub record CmdArgs : Type 0 where
  pub nesting : ℕ
  pub local_client_num : List ℕ
  pub argshift : List ℕ
  pub argc : List ℕ
  pub argv : List ℕ

-- `tokenStrings` and `tokenbuf`.
pub record Cmds : Type 0 where
  pub args : CmdArgs
  pub args_priv : CmdArgsPrivate

abbrev pub enter : Cmds → Tokens → Cmds
enter s ts =
    let i = s.args.nesting in
    let argc = length ts.0 in
    record {
      args = record {
        nesting = i + 1;
        local_client_num = set s.args.local_client_num i minus_one;
        argshift = set s.args.argshift i 0;
        argc = set s.args.argc i argc;
        argv = set s.args.argv i s.args_priv.total_used_argv_pool;
      };
      args_priv = record ts.1 {
        argv_pool = put_bytes ts.1.argv_pool s.args_priv.total_used_argv_pool ts.0;
        used_text_pool =
            set ts.1.used_text_pool i
              (ts.1.total_used_text_pool - s.args_priv.total_used_text_pool);
        total_used_argv_pool = s.args_priv.total_used_argv_pool + argc;
      };
    }

-- `Cmd_TokenizeStringKernel`. `none` is a write behind the arrays, which the program does not look
-- out for: a ninth string, or a pointer behind the pool of arguments.
unfoldable pub tokenize_string_kernel : Option (List ℕ) → ℕ → Cmds → Option Cmds
tokenize_string_kernel text max_tokens s =
    let ts = tokenize_internal text max_tokens s.args_priv in
    if leb max_tokenize_strings s.args.nesting
      || ltb argv_pool_size (s.args_priv.total_used_argv_pool + length ts.0)
    then none
    else some (enter s ts)

unfoldable pub tokenize_string : Option (List ℕ) → Cmds → Option Cmds
tokenize_string line s =
    tokenize_string_kernel line (argv_pool_size - s.args_priv.total_used_argv_pool) s

abbrev pub tokenize_string_with_limit : Option (List ℕ) → ℕ → Cmds → Option Cmds
tokenize_string_with_limit line limit s = tokenize_string_kernel line limit s

-- `Cmd_EndTokenizedStringKernel`. The subtractions do not go below zero.
unfoldable pub end_tokenized_string : Cmds → Cmds
end_tokenized_string s =
    let i = s.args.nesting - 1 in
    if leb s.args.nesting 0 then s else record {
      args = record s.args { nesting = i };
      args_priv = record s.args_priv {
        total_used_argv_pool =
            s.args_priv.total_used_argv_pool - get_or s.args.argc i 0 - get_or s.args.argshift i 0;
        total_used_text_pool =
            s.args_priv.total_used_text_pool - get_or s.args_priv.used_text_pool i 0;
      };
    }

-- `Cmd_Argc`, while a string is tokenized.
abbrev pub argc_of : Cmds → ℕ
argc_of s = get_or s.args.argc (s.args.nesting - 1) 0

-- `Cmd_Argv`, while a string is tokenized, of an argument's number.
abbrev pub argv_of : Cmds → ℕ → List ℕ
argv_of s i =
    if leb (argc_of s) i
    then []
    else string_at s.args_priv.text_pool
        (get_or s.args_priv.argv_pool (get_or s.args.argv (s.args.nesting - 1) 0 + i) 0)

abbrev pub and_then {ℓ} : {A : Type ℓ} → Option A → (A → Option A) → Option A
and_then none f = none
and_then (some x) f = f x

abbrev pub quote : List ℕ
quote = b'"' ∷ []

abbrev pub blank : List ℕ
blank = b' ' ∷ []

-- An argument is put between quotes where it has a blank.
abbrev pub argument : List ℕ → ℕ → List ℕ → Option (List ℕ)
argument buff bufsize s =
    if has_char b' ' s
    then and_then (strcat buff bufsize quote)
        (λ b. and_then (strcat b bufsize s) (λ d. strcat d bufsize quote))
    else strcat buff bufsize s

-- The loop of `Cmd_Argsv`, over the arguments that are left.
abbrev pub argsv_loop : List ℕ → ℕ → List (List ℕ) → Option (List ℕ)
argsv_loop buff bufsize [] = some buff
argsv_loop buff bufsize (s ∷ []) = argument buff bufsize s
argsv_loop buff bufsize (s ∷ t ∷ ts) =
    and_then (argument buff bufsize s)
      (λ b. and_then (strcat b bufsize blank) (λ d. argsv_loop d bufsize (t ∷ ts)))

abbrev pub arguments_from : Cmds → ℕ → ℕ → List (List ℕ)
arguments_from s i zero = []
arguments_from s i (suc n) = argv_of s i ∷ arguments_from s (i + 1) n

-- `Cmd_Argsv` from an argument on; `none` is the error of `Q_strcat` in a full buffer.
unfoldable pub argsv : Cmds → ℕ → List ℕ → ℕ → Option (List ℕ)
argsv s arg buff bufsize =
    argsv_loop (set buff 0 0) bufsize (arguments_from s arg (argc_of s - arg))
