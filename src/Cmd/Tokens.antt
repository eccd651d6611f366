-- ===== src/Cmd/Tokens.antt =====
-- The tokenizer of src/cmd.c: `Cmd_IsWhiteSpaceChar`, `Cmd_TokWriteChar` and
-- `Cmd_TokenizeStringInternal`. A text is the list of its bytes before the zero byte. A pointer into
-- the text pool is an offset in it.
use co_d4x_client_pub.Common.{
  ℕ, zero, suc, ◌+◌, ◌-◌, Bool, true, false, Option, none, some, List, [], ◌∷◌, leb, ◌==◌,
  if◌then◌else◌, ◌||◌, ◌&&◌, length, drop, set, length,
}
use co_d4x_client_pub.Text.{head, before_char}

abbrev pub text_pool_size : ℕ
text_pool_size = 8192

abbrev pub argv_pool_size : ℕ
argv_pool_size = 512

pub record CmdArgsPrivate : Type 0 where
  pub text_pool : List ℕ
  pub argv_pool : List ℕ
  pub used_text_pool : List ℕ
  pub total_used_argv_pool : ℕ
  pub total_used_text_pool : ℕ

abbrev pub is_white_space_char : ℕ → Bool
is_white_space_char c = if c == 0x14 || c == 0x15 || c == 0x16 || c == 0 then false else leb c b' '

unfoldable pub tok_write_char : CmdArgsPrivate → ℕ → CmdArgsPrivate
tok_write_char p c =
    let cn = p.total_used_text_pool + 1 in
    record p {
      text_pool = set p.text_pool p.total_used_text_pool c;
      total_used_text_pool = if leb (text_pool_size - 2) cn then text_pool_size - 2 else cn;
    }

abbrev pub write_chars : CmdArgsPrivate → List ℕ → CmdArgsPrivate
write_chars p [] = p
write_chars p (c ∷ s) = write_chars (tok_write_char p c) s

-- The characters of a token and its zero byte.
abbrev pub write_token : CmdArgsPrivate → List ℕ → CmdArgsPrivate
write_token p s = tok_write_char (write_chars p s) 0

abbrev pub skip_white : List ℕ → List ℕ
skip_white [] = []
skip_white (c ∷ s) = if is_white_space_char c then skip_white s else c ∷ s

abbrev pub starts : ℕ → ℕ → List ℕ → Bool
starts a b [] = false
starts a b (c ∷ s) = c == a && head s == b

-- The text from the end of a comment on.
abbrev pub find_close : List ℕ → List ℕ
find_close [] = []
find_close (c ∷ s) = if starts b'*' b'/' (c ∷ s) then c ∷ s else find_close s

abbrev pub behind_close : (List ℕ → Option (List ℕ)) → List ℕ → Option (List ℕ)
behind_close more [] = some []
behind_close more (c ∷ s) = more (drop 1 s)

abbrev pub comment_round : (List ℕ → Option (List ℕ)) → List ℕ → Option (List ℕ)
comment_round more [] = some []
comment_round more (c ∷ s) =
    if starts b'/' b'/' (c ∷ s)
    then some []
    else if starts b'/' b'*' (c ∷ s)
    then behind_close more (find_close (c ∷ s))
    else some (c ∷ s)

-- The loop over white space and comments, on the number of rounds. It stands at a token then, or at
-- the end of the text, where it also stands at a comment up to the end; `none` is out of rounds.
abbrev pub skip_comments : ℕ → List ℕ → Option (List ℕ)
skip_comments zero text = none
skip_comments (suc n) text = comment_round (skip_comments n) (skip_white text)

abbrev pub or_end : Option (List ℕ) → List ℕ
or_end none = []
or_end (some text) = text

-- A round takes a comment of two characters at least.
unfoldable pub token_start : List ℕ → List ℕ
token_start text = or_end (skip_comments (length text + 1) text)

-- The end of a regular token is at white space, at a quote or at a comment.
unfoldable pub stops : List ℕ → Bool
stops [] = true
stops (c ∷ s) =
    is_white_space_char c || c == b'"' || starts b'/' b'/' (c ∷ s) || starts b'/' b'*' (c ∷ s)

abbrev pub word : List ℕ → List ℕ
word [] = []
word (c ∷ s) = if stops (c ∷ s) then [] else c ∷ word s

abbrev pub behind_word : List ℕ → List ℕ
behind_word [] = []
behind_word (c ∷ s) = if stops (c ∷ s) then c ∷ s else behind_word s

abbrev pub from_char : ℕ → List ℕ → List ℕ
from_char c [] = []
from_char c (d ∷ s) = if d == c then d ∷ s else from_char c s

-- What the tokenizer has: the pointers to the tokens, of which it has counted `argc`, and the pools.
abbrev pub Tokens : Type 0
Tokens = List ℕ × CmdArgsPrivate

-- `argv[argc] = &textPool[totalUsedTextPool]; argc++`, with the tokens behind.
abbrev pub add_token : CmdArgsPrivate → Tokens → Tokens
add_token p ts = (p.total_used_text_pool ∷ ts.0, ts.1)

abbrev pub after_quoted : (List ℕ → CmdArgsPrivate → Tokens) → List ℕ → CmdArgsPrivate → Tokens
after_quoted more [] p = ([], p)
after_quoted more (c ∷ s) p = more s p

abbrev pub after_word : (List ℕ → CmdArgsPrivate → Tokens) → List ℕ → CmdArgsPrivate → Tokens
after_word more [] p = ([], p)
after_word more (c ∷ s) p = more (c ∷ s) p

abbrev pub next_token : (List ℕ → CmdArgsPrivate → Tokens) → List ℕ → CmdArgsPrivate → Tokens
next_token more [] p = ([], p)
next_token more (c ∷ s) p =
    if c == b'"'
    then add_token p (after_quoted more (from_char b'"' s) (write_token p (before_char b'"' s)))
    else add_token p (after_word more (behind_word (c ∷ s)) (write_token p (word (c ∷ s))))

-- The loop over the tokens, on `max_tokens - argc`. The last token takes the rest of the text.
abbrev pub tokenize : ℕ → List ℕ → CmdArgsPrivate → Tokens
tokenize zero text p = ([], p)
tokenize (suc zero) text p = add_token p ([], write_token p (skip_white text))
tokenize (suc (suc n)) text p = next_token (tokenize (suc n)) (token_start text) p

-- `Cmd_TokenizeStringInternal`; `none` is NULL.
abbrev pub tokenize_internal : Option (List ℕ) → ℕ → CmdArgsPrivate → Tokens
tokenize_internal none max_tokens p = ([], p)
tokenize_internal (some text) max_tokens p = tokenize max_tokens text p
