-- ===== src/Cmd/RoundTrip.antt =====
-- The arguments of a tokenized text of src/cmd.c.
use co_d4x_client_pub.Common.{
  ℕ, zero, suc, ◌+◌, ◌-◌, ◌≤◌, ◌<◌, ◌≡◌, refl, sym, ap, ◌∙◌, false, some, List, [], ◌∷◌, leb,
  length, set, get_or, put_bytes, map, arith, All, length-set, get_or-set_self, get_or-set_ne,
}
use co_d4x_client_pub.Text.{c_string}
use co_d4x_client_pub.Text.Buffer.{IsString}
use co_d4x_client_pub.Cmd.Tokens.{tokenize, argv_pool_size, text_pool_size}
use co_d4x_client_pub.Cmd.Pool.{
  strings, flat, offsets, stored, in_pool, string_at, HasRoom, tokenize-in_pool, strings-stored,
}
use co_d4x_client_pub.Cmd.Args.{
  Cmds, enter, tokenize_string, argc_of, argv_of, arguments_from, argsv, max_tokenize_strings,
}
use co_d4x_client_pub.Cmd.Nesting.{IsNested, tokenize_string-enters}
use co_d4x_client_pub.Cmd.Printed.{join, IsArgument, strings-join, skip_white-join}
use co_d4x_client_pub.Cmd.Argsv.{argsv_loop-Holds}

length-offsets : (i : ℕ) (ws : List (List ℕ)) → length (offsets i ws) ≡ length ws
length-offsets i [] = refl
length-offsets i (w ∷ ws) = ap suc (length-offsets (i + length w + 1) ws)

get_or-put_bytes_lt :
    (bs buf : List ℕ) (i j : ℕ) → j < i → get_or (put_bytes buf i bs) j 0 ≡ get_or buf j 0
get_or-put_bytes_lt [] buf i j h = refl
get_or-put_bytes_lt (b ∷ bs) buf i j h =
    get_or-put_bytes_lt bs (set buf i b) (i + 1) j (omega arith)
    ∙ get_or-set_ne buf i j b 0 (λ e. absurd (omega (arith, e)))

get_or-put_bytes :
    (bs buf : List ℕ) (i j : ℕ)
    → j < length bs
    → i + length bs ≤ length buf
    → get_or (put_bytes buf i bs) (i + j) 0 ≡ get_or bs j 0
get_or-put_bytes [] buf i j h room = absurd (omega arith)
get_or-put_bytes (b ∷ bs) buf i zero h room =
    let here : i + 0 ≡ i = omega arith in
    rw here (
      get_or-put_bytes_lt bs (set buf i b) (i + 1) i (omega arith)
      ∙ get_or-set_self buf i b 0 (omega arith))
get_or-put_bytes (b ∷ bs) buf i (suc j) h room =
    let next : i + suc j ≡ i + 1 + j = omega arith in
    rw next (
      get_or-put_bytes bs (set buf i b) (i + 1) j (omega arith) (omega (arith, length-set buf i b)))

get_or-map :
    (f : ℕ → List ℕ) (xs : List ℕ) (j : ℕ)
    → j < length xs
    → get_or (map f xs) j [] ≡ f (get_or xs j 0)
get_or-map f [] j h = absurd (omega arith)
get_or-map f (x ∷ xs) zero h = refl
get_or-map f (x ∷ xs) (suc j) h = get_or-map f xs j (omega arith)

arguments_from-list :
    (s : Cmds) (i : ℕ) (ws : List (List ℕ))
    → ((j : ℕ) → j < length ws → argv_of s (i + j) ≡ get_or ws j [])
    → arguments_from s i (length ws) ≡ ws
arguments_from-list s i [] h = refl
arguments_from-list s i (w ∷ ws) h =
    let here : i + 0 ≡ i = omega arith in
    let first : argv_of s i ≡ w = ap (λ k. argv_of s k) (sym here) ∙ h 0 (omega arith) in
    rw first (
      ap (λ l. w ∷ l)
        (arguments_from-list s (i + 1) ws
          (λ j lt. ap (λ k. argv_of s k) (shift j) ∙ h (suc j) (omega arith))))
  where
    shift : (j : ℕ) → i + 1 + j ≡ i + suc j
    shift j = omega arith

-- The stack can take the tokens of one more text, which stand in these arrays.
pub record Takes (s : Cmds) (ws : List (List ℕ)) : Type 0 where
  pub nested : IsNested s
  pub free : s.args.nesting < max_tokenize_strings
  pub argv_size : length s.args.argv ≡ max_tokenize_strings
  pub pool_size : length s.args_priv.argv_pool ≡ argv_pool_size
  pub text_size : length s.args_priv.text_pool ≡ text_pool_size
  pub count : s.args_priv.total_used_argv_pool + length ws + 1 < argv_pool_size
  pub room : s.args_priv.total_used_text_pool + length (flat ws) ≤ text_pool_size - 2

argc-enter :
    (s : Cmds) (ws : List (List ℕ))
    → Takes s ws
    → argc_of (enter s (in_pool s.args_priv ws)) ≡ length ws
argc-enter s ws t =
    let last : s.args.nesting + 1 - 1 ≡ s.args.nesting = omega arith in
    let size = t.nested.argc_size in
    let free = t.free in
    rw last (
      get_or-set_self s.args.argc s.args.nesting
        (length (offsets s.args_priv.total_used_text_pool ws)) 0 (omega arith)
      ∙ length-offsets s.args_priv.total_used_text_pool ws)

argv-enter :
    (s : Cmds) (ws : List (List ℕ)) (j : ℕ)
    → Takes s ws
    → All IsString ws
    → j < length ws
    → argv_of (enter s (in_pool s.args_priv ws)) j ≡ get_or ws j []
argv-enter s ws j t str h =
    let last : s.args.nesting + 1 - 1 ≡ s.args.nesting = omega arith in
    let offs = offsets s.args_priv.total_used_text_pool ws in
    let count = length-offsets s.args_priv.total_used_text_pool ws in
    let argv_size = t.argv_size in
    let free = t.free in
    let size = t.nested.argc_size in
    let counted = get_or-set_self s.args.argc s.args.nesting (length offs) 0 (omega arith) in
    let in_range : leb (length offs) j ≡ false = ground arith in
    let place =
      get_or-set_self s.args.argv s.args.nesting s.args_priv.total_used_argv_pool 0 (omega arith) in
    let pointer =
      get_or-put_bytes offs s.args_priv.argv_pool s.args_priv.total_used_argv_pool j (omega arith)
        (omega (arith, t.count, t.pool_size)) in
    let pool = (stored s.args_priv (flat ws)).text_pool in
    rw (last, counted, in_range, place, pointer)
      (sym (get_or-map (string_at pool) offs j (omega arith))
        ∙ ap (λ l. get_or l j []) (strings-stored s.args_priv ws t.text_size t.room str))

-- The state behind `Cmd_TokenizeString` of a text, with its tokens.
pub record Tokenized (s : Cmds) (line : List ℕ) (ws : List (List ℕ)) : Type 0 where
  pub state : Cmds
  pub returned : tokenize_string (some line) s ≡ some state
  pub count : argc_of state ≡ length ws
  pub arguments : arguments_from state 0 (length ws) ≡ ws

-- `Cmd_TokenizeString` of some arguments with a blank between two, those with a blank in quotes, yields
-- just these arguments.
tokenize_string-join :
    (s : Cmds) (ws : List (List ℕ))
    → Takes s ws
    → All IsString ws
    → All IsArgument ws
    → Tokenized s (join ws) ws
tokenize_string-join s ws t str p =
    let n = argv_pool_size - s.args_priv.total_used_argv_pool in
    let count = t.count in
    let tokens : strings n (join ws) ≡ ws =
      strings-join ws n (join ws) p (omega arith) (skip_white-join ws p) in
    let room : HasRoom s.args_priv (flat (strings n (join ws))) = rw tokens t.room in
    let stands : tokenize n (join ws) s.args_priv ≡ in_pool s.args_priv ws =
      tokenize-in_pool n (join ws) s.args_priv room ∙ ap (λ l. in_pool s.args_priv l) tokens in
    let (entered, w) = tokenize_string-enters (some (join ws)) s t.nested t.free in
    record {
      state = enter s (in_pool s.args_priv ws);
      returned = entered ∙ ap (λ ts. some (enter s ts)) stands;
      count = argc-enter s ws t;
      arguments = arguments_from-list (enter s (in_pool s.args_priv ws)) 0 ws (λ j lt.
          ap (λ k. argv_of (enter s (in_pool s.args_priv ws)) k) {x = 0 + j} {y = j} (omega arith)
          ∙ argv-enter s ws j t str lt);
    }

cleared : (buff : List ℕ) → 0 < length buff → c_string (set buff 0 0) ≡ []
cleared [] h = refl
cleared (c ∷ buff) h = refl

-- The text that `Cmd_Argsv` left in a buffer, tokenized.
pub record Reads (s u : Cmds) (buff : List ℕ) (bufsize : ℕ) (ws : List (List ℕ)) : Type 0 where
  pub text : List ℕ
  pub printed : argsv u 0 buff bufsize ≡ some text
  pub tokens : Tokenized s (c_string text) ws

-- `Cmd_Argsv` from the first argument on, in a buffer that is longer than what it prints, succeeds; and
-- `Cmd_TokenizeString` of the text that it leaves there, in any state of the stack that has room for
-- it, yields just these arguments: `Cmd_Argc` is their number, and `Cmd_Argv` yields each. An argument
-- with a blank has no quote in it; any other is not empty and has neither white space, nor a quote, nor
-- the beginning of a comment; and the pools have room for them and for one more.
pub tokenize_string-argsv :
    (s u : Cmds) (ws : List (List ℕ)) (buff : List ℕ) (bufsize : ℕ)
    → arguments_from u 0 (argc_of u) ≡ ws
    → All IsString ws
    → All IsArgument ws
    → bufsize ≤ length buff
    → length (join ws) < bufsize
    → Takes s ws
    → Reads s u buff bufsize ws
unfolding argsv
tokenize_string-argsv s u ws buff bufsize e str p fits room t =
    let all : argc_of u - 0 ≡ argc_of u = omega arith in
    let h =
      argsv_loop-Holds ws (set buff 0 0) [] (length buff) bufsize (cleared buff (omega arith))
        (length-set buff 0 0) fits (omega arith) str in
    record {
      text = h.buffer;
      printed = rw (all, e) h.returned;
      tokens = rw h.string (tokenize_string-join s ws t str p);
    }
