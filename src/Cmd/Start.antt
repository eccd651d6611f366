-- ===== src/Cmd/Start.antt =====
-- Where the tokenizer of src/cmd.c begins a token.
use co_d4x_client_pub.Common.{
  ℕ, zero, suc, ◌+◌, ◌≤◌, ◌<◌, ◌≡◌, refl, Bool-cases, inl, inr, false, Option, some, List, [], ◌∷◌,
  length, drop, arith, length-drop,
}
use co_d4x_client_pub.Cmd.Tokens.{
  is_white_space_char, skip_white, starts, find_close, behind_close, comment_round, skip_comments,
  or_end, token_start,
}

-- The text is at its end, or at neither white space nor a comment.
abbrev pub IsStart : List ℕ → Type 0
IsStart [] = Unit {0}
IsStart (c ∷ s) =
    (is_white_space_char c ≡ false)
    × (starts b'/' b'/' (c ∷ s) ≡ false)
    × (starts b'/' b'*' (c ∷ s) ≡ false)

length-skip_white : (s : List ℕ) → length (skip_white s) ≤ length s
length-skip_white [] = omega arith
length-skip_white (c ∷ s) = ground (arith, length-skip_white s)

skip_white-head :
    (s : List ℕ) (c : ℕ) (t : List ℕ) → skip_white s ≡ c ∷ t → is_white_space_char c ≡ false
skip_white-head [] c t h = absurd (ground (arith, h))
skip_white-head (d ∷ s) c t h = ground (arith, h, skip_white-head s c t)

length-find_close : (s : List ℕ) → length (find_close s) ≤ length s
length-find_close [] = omega arith
length-find_close (c ∷ s) = ground (arith, length-find_close s)

pub record Started (result : Option (List ℕ)) (n : ℕ) : Type 0 where
  pub rest : List ℕ
  pub returned : result ≡ some rest
  pub start : IsStart rest
  pub shorter : length rest ≤ n

behind_close-Started :
    (more : List ℕ → Option (List ℕ)) (n m : ℕ) (s : List ℕ)
    → ((t : List ℕ) → length t < n → length t ≤ m → Started (more t) m)
    → length s ≤ n
    → length s ≤ m
    → Started (behind_close more s) m
behind_close-Started more n m [] h p q = record {
  rest = [];
  returned = refl;
  start = tt;
  shorter = omega arith;
}
behind_close-Started more n m (c ∷ s) h p q =
    h (drop 1 s) (omega (arith, length-drop 1 s)) (omega (arith, length-drop 1 s))

comment_round-Started :
    (more : List ℕ → Option (List ℕ)) (n m : ℕ) (s : List ℕ)
    → ((t : List ℕ) → length t < n → length t ≤ m → Started (more t) m)
    → ((c : ℕ) (t : List ℕ) → s ≡ c ∷ t → is_white_space_char c ≡ false)
    → length s ≤ n
    → length s ≤ m
    → Started (comment_round more s) m
comment_round-Started more n m [] h w p q = record {
  rest = [];
  returned = refl;
  start = tt;
  shorter = omega arith;
}
comment_round-Started more n m (c ∷ s) h w p q = elim (Bool-cases (starts b'/' b'/' (c ∷ s))) [
  | inl line ↦ rw line (record { rest = []; returned = refl; start = tt; shorter = omega arith })
  | inr not_line ↦ elim (Bool-cases (starts b'/' b'*' (c ∷ s))) [
    | inl block ↦
        let shorter : length (find_close (c ∷ s)) ≤ length s =
          ground (arith, block, length-find_close s) in
        rw (not_line, block)
          (behind_close-Started more n m (find_close (c ∷ s)) h (omega arith) (omega arith))
    | inr token ↦
        rw (not_line, token)
          (record {
            rest = c ∷ s;
            returned = refl;
            start = (w c s refl, not_line, token);
            shorter = q;
          })
  ]
]

skip_comments-Started :
    (n m : ℕ) (text : List ℕ) → length text < n → length text ≤ m → Started (skip_comments n text) m
skip_comments-Started zero m text h q = absurd (omega arith)
skip_comments-Started (suc n) m text h q =
    comment_round-Started (skip_comments n) n m (skip_white text) (λ t. skip_comments-Started n m t)
      (skip_white-head text) (omega (arith, length-skip_white text))
      (omega (arith, length-skip_white text))

-- The loop over white space and comments ends within one round more than the text has characters,
-- whatever the text is. It stands then at the end of the text or at a character that begins a token:
-- neither white space nor a comment.
pub skip_comments-returns :
    (text : List ℕ) (n : ℕ) → length text < n → Started (skip_comments n text) (length text)
skip_comments-returns text n h = skip_comments-Started n (length text) text h (omega arith)

pub or_end-Started : (r : Option (List ℕ)) (n : ℕ) → Started r n → IsStart (or_end r)
or_end-Started r n p = rw p.returned p.start

pub token_start-IsStart : (text : List ℕ) → IsStart (token_start text)
unfolding token_start
token_start-IsStart text =
    or_end-Started (skip_comments (length text + 1) text) (length text)
      (skip_comments-returns text (length text + 1) (omega arith))
