-- ===== src/Cmd/Nesting.antt =====
-- The stack of tokenized strings of src/cmd.c: what its calls keep.
use co_d4x_client_pub.Common.{
  ℕ, zero, suc, ◌+◌, ◌-◌, ◌≤◌, ◌<◌, ◌≡◌, refl, ap, ◌∙◌, false, Option, some, List, [], ◌∷◌, ◌++◌,
  ltb, leb, ◌||◌, length, take, set, get_or, arith, length-set, take-set_suc, take-set_le,
  take-put_bytes_le, get_or-set_self, Bool-cases, inl, inr,
}
use co_d4x_client_pub.Cmd.Tokens.{Tokens, tokenize_internal, argv_pool_size, text_pool_size}
use co_d4x_client_pub.Cmd.Bounds.{Bounded, tokenize_internal-Bounded}
use co_d4x_client_pub.Cmd.Args.{
  max_tokenize_strings, Cmds, enter, tokenize_string_kernel, tokenize_string, end_tokenized_string,
  and_then,
}

abbrev pub sum : List ℕ → ℕ
sum [] = 0
sum (n ∷ ns) = n + sum ns

sum-append : (ns : List ℕ) (n : ℕ) → sum (ns ++ n ∷ []) ≡ sum ns + n
sum-append [] n = omega arith
sum-append (m ∷ ns) n = omega (arith, sum-append ns n)

sum-set :
    (ns : List ℕ) (i n : ℕ) → i < length ns → sum (take (i + 1) (set ns i n)) ≡ sum (take i ns) + n
sum-set ns i n h = rw (take-set_suc ns i n h) (sum-append (take i ns) n)

sum-take : (ns : List ℕ) (i : ℕ) → sum (take (suc i) ns) ≡ sum (take i ns) + get_or ns i 0
sum-take [] zero = refl
sum-take [] (suc i) = refl
sum-take (n ∷ ns) zero = omega arith
sum-take (n ∷ ns) (suc i) = omega (arith, sum-take ns i)

sum-last :
    (ns : List ℕ) (k : ℕ) → 0 < k → sum (take k ns) ≡ sum (take (k - 1) ns) + get_or ns (k - 1) 0
sum-last ns zero h = absurd (omega arith)
sum-last ns (suc i) h = let last : suc i - 1 ≡ i = omega arith in rw last (sum-take ns i)

-- The used part of either pool is what the tokenized strings use of it, one on the other.
pub record IsNested (s : Cmds) : Type 0 where
  pub depth : s.args.nesting ≤ max_tokenize_strings
  pub argc_size : length s.args.argc ≡ max_tokenize_strings
  pub argshift_size : length s.args.argshift ≡ max_tokenize_strings
  pub used_size : length s.args_priv.used_text_pool ≡ max_tokenize_strings
  pub argv_used : s.args_priv.total_used_argv_pool ≡ sum (take s.args.nesting s.args.argc)
  pub argv_below : s.args_priv.total_used_argv_pool ≤ argv_pool_size
  pub text_used :
      s.args_priv.total_used_text_pool ≡ sum (take s.args.nesting s.args_priv.used_text_pool)
  pub text_below : s.args_priv.total_used_text_pool ≤ text_pool_size - 2
  pub no_shift : sum (take s.args.nesting s.args.argshift) ≡ 0

enter-IsNested :
    (s : Cmds) (n : ℕ) (ts : Tokens)
    → IsNested s
    → Bounded n s.args_priv ts
    → s.args.nesting < max_tokenize_strings
    → s.args_priv.total_used_argv_pool + length ts.0 ≤ argv_pool_size
    → IsNested (enter s ts)
enter-IsNested s n ts w b h room =
    let i = s.args.nesting in
    let used = ts.1.used_text_pool in
    let same_used = b.written.same_used in
    let short : i < length used = rw same_used (omega (arith, w.used_size)) in
    record {
      depth = omega arith;
      argc_size = length-set s.args.argc i (length ts.0) ∙ w.argc_size;
      argshift_size = length-set s.args.argshift i 0 ∙ w.argshift_size;
      used_size =
          length-set used i (ts.1.total_used_text_pool - s.args_priv.total_used_text_pool)
          ∙ ap length same_used
          ∙ w.used_size;
      argv_used =
          omega
            (arith, w.argv_used, sum-set s.args.argc i (length ts.0) (omega (arith, w.argc_size)));
      argv_below = room;
      text_used = omega (
        arith,
        w.text_used,
        b.written.grows,
        ap (λ l. sum (take i l)) same_used,
        sum-set used i (ts.1.total_used_text_pool - s.args_priv.total_used_text_pool) short,
      );
      text_below = b.written.below;
      no_shift =
          omega (arith, w.no_shift, sum-set s.args.argshift i 0 (omega (arith, w.argshift_size)));
    }

pub end_tokenized_string-IsNested : (s : Cmds) → IsNested s → IsNested (end_tokenized_string s)
unfolding end_tokenized_string
end_tokenized_string-IsNested s w = elim (Bool-cases (leb s.args.nesting 0)) [
  | inl empty ↦ rw empty w
  | inr more ↦
      let some_open : 0 < s.args.nesting = ground (arith, more) in
      let counted = sum-last s.args.argc s.args.nesting some_open in
      let shifted = sum-last s.args.argshift s.args.nesting some_open in
      let used = sum-last s.args_priv.used_text_pool s.args.nesting some_open in
      rw more (record {
        depth = omega (arith, w.depth);
        argc_size = w.argc_size;
        argshift_size = w.argshift_size;
        used_size = w.used_size;
        argv_used = omega (arith, w.argv_used, w.no_shift, counted, shifted);
        argv_below = omega (arith, w.argv_below);
        text_used = omega (arith, w.text_used, used);
        text_below = omega (arith, w.text_below);
        no_shift = omega (arith, w.no_shift, shifted);
      })
]

pub tokenize_string-enters :
    (line : Option (List ℕ)) (s : Cmds)
    → IsNested s
    → s.args.nesting < max_tokenize_strings
    → let ts =
        tokenize_internal line (argv_pool_size - s.args_priv.total_used_argv_pool) s.args_priv in
      (tokenize_string line s ≡ some (enter s ts)) × IsNested (enter s ts)
unfolding tokenize_string tokenize_string_kernel
tokenize_string-enters line s w h =
    let n = argv_pool_size - s.args_priv.total_used_argv_pool in
    let ts = tokenize_internal line n s.args_priv in
    let b = tokenize_internal-Bounded line n s.args_priv w.text_below in
    let room : s.args_priv.total_used_argv_pool + length ts.0 ≤ argv_pool_size =
      omega (arith, b.count, w.argv_below) in
    let fits : (leb max_tokenize_strings s.args.nesting
          || ltb argv_pool_size (s.args_priv.total_used_argv_pool + length ts.0))
        ≡ false =
      ground arith in
    (rw fits refl, enter-IsNested s n ts w b h room)

-- What an outer string sees of the stack: its arguments' number and place, and what is used.
pub record Restored (s t : Cmds) : Type 0 where
  pub nesting : t.args.nesting ≡ s.args.nesting
  pub argc : take s.args.nesting t.args.argc ≡ take s.args.nesting s.args.argc
  pub argv : take s.args.nesting t.args.argv ≡ take s.args.nesting s.args.argv
  pub total_used_argv_pool : t.args_priv.total_used_argv_pool ≡ s.args_priv.total_used_argv_pool
  pub total_used_text_pool : t.args_priv.total_used_text_pool ≡ s.args_priv.total_used_text_pool
  pub text :
      take s.args_priv.total_used_text_pool t.args_priv.text_pool
      ≡ take s.args_priv.total_used_text_pool s.args_priv.text_pool
  pub pointers :
      take s.args_priv.total_used_argv_pool t.args_priv.argv_pool
      ≡ take s.args_priv.total_used_argv_pool s.args_priv.argv_pool

end-enter :
    (s : Cmds) (n : ℕ) (ts : Tokens)
    → IsNested s
    → Bounded n s.args_priv ts
    → s.args.nesting < max_tokenize_strings
    → Restored s (end_tokenized_string (enter s ts))
unfolding end_tokenized_string
end-enter s n ts w b h =
    let i = s.args.nesting in
    let grown = ts.1.total_used_text_pool - s.args_priv.total_used_text_pool in
    let last : i + 1 - 1 ≡ i = omega arith in
    let not_empty : leb (i + 1) 0 ≡ false = ground arith in
    let grows = b.written.grows in
    let counted = get_or-set_self s.args.argc i (length ts.0) 0 (omega (arith, w.argc_size)) in
    let shifted = get_or-set_self s.args.argshift i 0 0 (omega (arith, w.argshift_size)) in
    let size : length ts.1.used_text_pool ≡ max_tokenize_strings =
      ap length b.written.same_used ∙ w.used_size in
    let used = get_or-set_self ts.1.used_text_pool i grown 0 (omega (arith, size)) in
    rw (not_empty, last)
      (record {
        nesting = refl;
        argc = take-set_le s.args.argc i i (length ts.0) (omega arith);
        argv = take-set_le s.args.argv i i s.args_priv.total_used_argv_pool (omega arith);
        total_used_argv_pool = omega (arith, counted, shifted);
        total_used_text_pool = omega (arith, used, grows);
        text = b.written.front s.args_priv.total_used_text_pool (omega arith);
        pointers =
            take-put_bytes_le ts.0 ts.1.argv_pool s.args_priv.total_used_argv_pool
              s.args_priv.total_used_argv_pool (omega arith)
            ∙ ap (λ l. take s.args_priv.total_used_argv_pool l) b.written.same_argv;
      })

-- A string that is tokenized and ended leaves the strings below it as they were: their number, their
-- arguments' numbers and places, and the used parts of both pools. Eight strings are not yet open.
pub end_tokenized_string-tokenize_string :
    (line : Option (List ℕ)) (s : Cmds)
    → IsNested s
    → s.args.nesting < max_tokenize_strings
    → (t : Cmds) × (tokenize_string line s ≡ some t) × Restored s (end_tokenized_string t)
end_tokenized_string-tokenize_string line s w h =
    let n = argv_pool_size - s.args_priv.total_used_argv_pool in
    let ts = tokenize_internal line n s.args_priv in
    (
      enter s ts,
      (tokenize_string-enters line s w h).0,
      end-enter s n ts w (tokenize_internal-Bounded line n s.args_priv w.text_below) h,
    )

-- Calls that tokenize a string, and that end one.
pub data Call : Type 0 where
  tokenize : Option (List ℕ) → Call
  end : Call

abbrev pub run : Cmds → List Call → Option Cmds
run s [] = some s
run s (Call.tokenize line ∷ calls) = and_then (tokenize_string line s) (λ t. run t calls)
run s (Call.end ∷ calls) = run (end_tokenized_string s) calls

-- No ninth string is tokenized while eight are.
abbrev pub IsShallow : ℕ → List Call → Type 0
IsShallow depth [] = Unit {0}
IsShallow depth (Call.tokenize line ∷ calls) =
    (depth < max_tokenize_strings) × IsShallow (depth + 1) calls
IsShallow depth (Call.end ∷ calls) = IsShallow (depth - 1) calls

nesting-end : (s : Cmds) → (end_tokenized_string s).args.nesting ≡ s.args.nesting - 1
unfolding end_tokenized_string
nesting-end s = ground arith

-- In any series of calls of `Cmd_TokenizeString` and `Cmd_EndTokenizedString` that does not open a
-- ninth string, whatever the texts, no call writes outside of the arrays, and in the end the used
-- part of each pool is again the sum of what the open strings use, within its bounds.
pub run-IsNested :
    (calls : List Call) (s : Cmds)
    → IsNested s
    → IsShallow s.args.nesting calls
    → (t : Cmds) × (run s calls ≡ some t) × IsNested t
run-IsNested [] s w h = (s, refl, w)
run-IsNested (Call.tokenize line ∷ calls) s w (open_one, h) =
    let (entered, w') = tokenize_string-enters line s w open_one in
    rw entered (
      run-IsNested calls
        (enter s
          (tokenize_internal line (argv_pool_size - s.args_priv.total_used_argv_pool) s.args_priv))
        w' h)
run-IsNested (Call.end ∷ calls) s w h =
    run-IsNested calls (end_tokenized_string s) (end_tokenized_string-IsNested s w)
      (rw (nesting-end s) h)
