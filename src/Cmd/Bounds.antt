-- ===== src/Cmd/Bounds.antt =====
-- The bounds of the tokenizer of src/cmd.c.
use co_d4x_client_pub.Common.{
  ℕ, zero, suc, ◌-◌, ◌≤◌, ◌≡◌, refl, ◌∙◌, Bool-cases, inl, inr, Option, none, some, List, [], ◌∷◌,
  ◌==◌, length, take, arith, length-set, take-set_le,
}
use co_d4x_client_pub.Text.{before_char}
use co_d4x_client_pub.Cmd.Tokens.{
  text_pool_size, CmdArgsPrivate, tok_write_char, write_chars, write_token, skip_white, token_start,
  word, behind_word, from_char, Tokens, add_token, after_quoted, after_word, next_token, tokenize,
  tokenize_internal,
}

-- What writing to the text pool keeps: the used part stays two bytes below the end of the array.
pub record Written (p q : CmdArgsPrivate) : Type 0 where
  pub same_size : length q.text_pool ≡ length p.text_pool
  pub front : (k : ℕ) → k ≤ p.total_used_text_pool → take k q.text_pool ≡ take k p.text_pool
  pub same_argv : q.argv_pool ≡ p.argv_pool
  pub same_used : q.used_text_pool ≡ p.used_text_pool
  pub same_total : q.total_used_argv_pool ≡ p.total_used_argv_pool
  pub grows : p.total_used_text_pool ≤ q.total_used_text_pool
  pub below : q.total_used_text_pool ≤ text_pool_size - 2

abbrev pub IsBelow : CmdArgsPrivate → Type 0
IsBelow p = p.total_used_text_pool ≤ text_pool_size - 2

unwritten : (p : CmdArgsPrivate) → IsBelow p → Written p p
unwritten p h = record {
  same_size = refl;
  front = λ k below. refl;
  same_argv = refl;
  same_used = refl;
  same_total = refl;
  grows = omega arith;
  below = h;
}

both-Written : (p q r : CmdArgsPrivate) → Written p q → Written q r → Written p r
both-Written p q r a b = record {
  same_size = b.same_size ∙ a.same_size;
  front = λ k below. b.front k (omega (arith, a.grows)) ∙ a.front k below;
  same_argv = b.same_argv ∙ a.same_argv;
  same_used = b.same_used ∙ a.same_used;
  same_total = b.same_total ∙ a.same_total;
  grows = omega (arith, a.grows, b.grows);
  below = b.below;
}

tok_write_char-Written : (p : CmdArgsPrivate) (c : ℕ) → IsBelow p → Written p (tok_write_char p c)
unfolding tok_write_char
tok_write_char-Written p c h = record {
  same_size = length-set p.text_pool p.total_used_text_pool c;
  front = λ k below. take-set_le p.text_pool k p.total_used_text_pool c below;
  same_argv = refl;
  same_used = refl;
  same_total = refl;
  grows = ground arith;
  below = ground arith;
}

write_chars-Written : (p : CmdArgsPrivate) (s : List ℕ) → IsBelow p → Written p (write_chars p s)
write_chars-Written p [] h = unwritten p h
write_chars-Written p (c ∷ s) h =
    let first = tok_write_char-Written p c h in
    both-Written p (tok_write_char p c) (write_chars (tok_write_char p c) s) first
      (write_chars-Written (tok_write_char p c) s first.below)

write_token-Written : (p : CmdArgsPrivate) (s : List ℕ) → IsBelow p → Written p (write_token p s)
write_token-Written p s h =
    let first = write_chars-Written p s h in
    both-Written p (write_chars p s) (write_token p s) first
      (tok_write_char-Written (write_chars p s) 0 first.below)

-- At most so many tokens, from these pools.
pub record Bounded (n : ℕ) (p : CmdArgsPrivate) (ts : Tokens) : Type 0 where
  pub count : length ts.0 ≤ n
  pub written : Written p ts.1

no_tokens : (n : ℕ) (p : CmdArgsPrivate) → IsBelow p → Bounded n p ([], p)
no_tokens n p h = record { count = omega arith; written = unwritten p h }

add_token-Bounded :
    (n : ℕ) (p : CmdArgsPrivate) (s : List ℕ) (more : CmdArgsPrivate → Tokens)
    → IsBelow p
    → ((q : CmdArgsPrivate) → IsBelow q → Bounded n q (more q))
    → Bounded (suc n) p (add_token p (more (write_token p s)))
add_token-Bounded n p s more h rest =
    let first = write_token-Written p s h in
    let others = rest (write_token p s) first.below in
    record {
      count = omega (arith, others.count);
      written = both-Written p (write_token p s) (more (write_token p s)).1 first others.written;
    }

module _ (n : ℕ) (more : List ℕ → CmdArgsPrivate → Tokens)
    (h : (t : List ℕ) (q : CmdArgsPrivate) → IsBelow q → Bounded n q (more t q)) where
  after_quoted-Bounded :
      (s : List ℕ) (q : CmdArgsPrivate) → IsBelow q → Bounded n q (after_quoted more s q)
  after_quoted-Bounded [] q b = no_tokens n q b
  after_quoted-Bounded (c ∷ s) q b = h s q b

  after_word-Bounded :
      (s : List ℕ) (q : CmdArgsPrivate) → IsBelow q → Bounded n q (after_word more s q)
  after_word-Bounded [] q b = no_tokens n q b
  after_word-Bounded (c ∷ s) q b = h (c ∷ s) q b

  next_token-Bounded :
      (s : List ℕ) (p : CmdArgsPrivate) → IsBelow p → Bounded (suc n) p (next_token more s p)
  next_token-Bounded [] p b = no_tokens (suc n) p b
  next_token-Bounded (c ∷ s) p b = elim (Bool-cases (c == b'"')) [
    | inl quote ↦ rw quote (
        add_token-Bounded n p (before_char b'"' s) (after_quoted more (from_char b'"' s)) b
          (after_quoted-Bounded (from_char b'"' s)))
    | inr plain ↦ rw plain (
        add_token-Bounded n p (word (c ∷ s)) (after_word more (behind_word (c ∷ s))) b
          (after_word-Bounded (behind_word (c ∷ s))))
  ]

-- Whatever the text is, and even where it does not fit, the tokenizer returns at most as many tokens
-- as it may, keeps the used part of the text pool two bytes below the end of the array, which it
-- only lets grow, does not touch what stood in it, and changes no other field.
pub tokenize-Bounded :
    (n : ℕ) (text : List ℕ) (p : CmdArgsPrivate)
    → p.total_used_text_pool ≤ text_pool_size - 2
    → Bounded n p (tokenize n text p)
tokenize-Bounded zero text p b = no_tokens zero p b
tokenize-Bounded (suc zero) text p b =
    add_token-Bounded zero p (skip_white text) (λ q. ([], q)) b (λ q. no_tokens zero q)
tokenize-Bounded (suc (suc n)) text p b =
    next_token-Bounded (suc n) (tokenize (suc n)) (tokenize-Bounded (suc n)) (token_start text) p b

pub tokenize_internal-Bounded :
    (text : Option (List ℕ)) (n : ℕ) (p : CmdArgsPrivate)
    → p.total_used_text_pool ≤ text_pool_size - 2
    → Bounded n p (tokenize_internal text n p)
tokenize_internal-Bounded none n p b = no_tokens n p b
tokenize_internal-Bounded (some text) n p b = tokenize-Bounded n text p b
