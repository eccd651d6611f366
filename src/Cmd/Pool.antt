-- ===== src/Cmd/Pool.antt =====
-- The text pool of the tokenizer of src/cmd.c, against the list of the tokens.
use co_d4x_client_pub.Common.{
  ℕ, zero, suc, ◌+◌, ◌-◌, ◌≤◌, ◌≡◌, refl, sym, ap, ◌∙◌, Bool-cases, inl, inr, List, [], ◌∷◌, ◌++◌,
  ◌==◌, if◌then◌else◌, length, take, drop, set, put_bytes, arith, All, map, length-append,
  put_bytes-split, append_assoc, length-take, drop-append_left, take-put_bytes_le,
}
use co_d4x_client_pub.Text.{before_char, c_string}
use co_d4x_client_pub.Text.Buffer.{IsString, c_string-append}
use co_d4x_client_pub.Cmd.Tokens.{
  text_pool_size, CmdArgsPrivate, tok_write_char, write_chars, write_token, skip_white, token_start,
  word, behind_word, from_char, Tokens, add_token, after_quoted, after_word, next_token, tokenize,
}

-- The tokens of a text, as strings: at most so many, of which the last takes the rest.
abbrev pub after_quote : (List ℕ → List (List ℕ)) → List ℕ → List (List ℕ)
after_quote more [] = []
after_quote more (c ∷ s) = more s

abbrev pub after_plain : (List ℕ → List (List ℕ)) → List ℕ → List (List ℕ)
after_plain more [] = []
after_plain more (c ∷ s) = more (c ∷ s)

abbrev pub next_string : (List ℕ → List (List ℕ)) → List ℕ → List (List ℕ)
next_string more [] = []
next_string more (c ∷ s) =
    if c == b'"'
    then before_char b'"' s ∷ after_quote more (from_char b'"' s)
    else word (c ∷ s) ∷ after_plain more (behind_word (c ∷ s))

abbrev pub strings : ℕ → List ℕ → List (List ℕ)
strings zero text = []
strings (suc zero) text = skip_white text ∷ []
strings (suc (suc n)) text = next_string (strings (suc n)) (token_start text)

-- The bytes that they take, each with its zero byte.
abbrev pub flat : List (List ℕ) → List ℕ
flat [] = []
flat (w ∷ ws) = w ++ 0 ∷ flat ws

-- Where each begins.
abbrev pub offsets : ℕ → List (List ℕ) → List ℕ
offsets i [] = []
offsets i (w ∷ ws) = i ∷ offsets (i + length w + 1) ws

abbrev pub stored : CmdArgsPrivate → List ℕ → CmdArgsPrivate
stored p s = record p {
  text_pool = put_bytes p.text_pool p.total_used_text_pool s;
  total_used_text_pool = p.total_used_text_pool + length s;
}

abbrev pub HasRoom : CmdArgsPrivate → List ℕ → Type 0
HasRoom p s = p.total_used_text_pool + length s ≤ text_pool_size - 2

tok_write_char-stored :
    (p : CmdArgsPrivate) (c : ℕ)
    → p.total_used_text_pool + 1 ≤ text_pool_size - 2
    → tok_write_char p c ≡ stored p (c ∷ [])
unfolding tok_write_char
tok_write_char-stored p c h =
    ap
      (λ (n : ℕ). record p {
        text_pool = set p.text_pool p.total_used_text_pool c;
        total_used_text_pool = n;
      })
      (ground arith)

put_bytes-append :
    (s t buf : List ℕ) (i : ℕ)
    → put_bytes (put_bytes buf i s) (i + length s) t ≡ put_bytes buf i (s ++ t)
put_bytes-append [] t buf i = ap (λ j. put_bytes buf j t) (omega arith)
put_bytes-append (c ∷ s) t buf i =
    ap (λ j. put_bytes (put_bytes (set buf i c) (i + 1) s) j t) (omega arith)
    ∙ put_bytes-append s t (set buf i c) (i + 1)

stored-append : (p : CmdArgsPrivate) (s t : List ℕ) → stored (stored p s) t ≡ stored p (s ++ t)
stored-append p s t =
    ap (λ (v : List ℕ × ℕ). record p { text_pool = v.0; total_used_text_pool = v.1 })
      {x = (
        put_bytes (put_bytes p.text_pool p.total_used_text_pool s)
            (p.total_used_text_pool + length s) t,
        p.total_used_text_pool + length s + length t,
      )}
      {y = (
        put_bytes p.text_pool p.total_used_text_pool (s ++ t),
        p.total_used_text_pool + length (s ++ t),
      )}
      (rw (put_bytes-append s t p.text_pool p.total_used_text_pool) (
        ap (λ n. (put_bytes p.text_pool p.total_used_text_pool (s ++ t), n))
          (omega (arith, length-append s t))))

write_chars-stored : (p : CmdArgsPrivate) (s : List ℕ) → HasRoom p s → write_chars p s ≡ stored p s
write_chars-stored p [] h = ap (λ (n : ℕ). record p { total_used_text_pool = n }) (omega arith)
write_chars-stored p (c ∷ s) h =
    rw (tok_write_char-stored p c (omega arith))
      (write_chars-stored (stored p (c ∷ [])) s (omega arith) ∙ stored-append p (c ∷ []) s)

write_token-stored :
    (p : CmdArgsPrivate) (s : List ℕ)
    → HasRoom p (s ++ 0 ∷ [])
    → write_token p s ≡ stored p (s ++ 0 ∷ [])
write_token-stored p s h =
    let room = length-append s (0 ∷ []) in
    rw (write_chars-stored p s (omega arith), tok_write_char-stored (stored p s) 0 (omega arith))
      (stored-append p s (0 ∷ []))

-- The tokens when they stand in the pool.
abbrev pub in_pool : CmdArgsPrivate → List (List ℕ) → Tokens
in_pool p ws = (offsets p.total_used_text_pool ws, stored p (flat ws))

none-in_pool : (p : CmdArgsPrivate) → ([], p) ≡ in_pool p []
none-in_pool p = ap (λ (n : ℕ). ([], record p { total_used_text_pool = n })) (omega arith)

add-in_pool :
    (p : CmdArgsPrivate) (w : List ℕ) (ws : List (List ℕ)) (more : CmdArgsPrivate → Tokens)
    → ((q : CmdArgsPrivate) → HasRoom q (flat ws) → more q ≡ in_pool q ws)
    → HasRoom p (flat (w ∷ ws))
    → add_token p (more (write_token p w)) ≡ in_pool p (w ∷ ws)
add-in_pool p w ws more h room =
    let whole = append_assoc w (0 ∷ []) (flat ws) in
    let size = length-append w (0 ∷ flat ws) in
    let size' = length-append w (0 ∷ []) in
    rw (write_token-stored p w (omega arith), h (stored p (w ++ 0 ∷ [])) (omega arith))
      (ap (λ (v : List ℕ × CmdArgsPrivate). (p.total_used_text_pool ∷ v.0, v.1))
        {x = (
          offsets (p.total_used_text_pool + length (w ++ 0 ∷ [])) ws,
          stored (stored p (w ++ 0 ∷ [])) (flat ws),
        )}
        {y = (offsets (p.total_used_text_pool + length w + 1) ws, stored p (w ++ 0 ∷ flat ws))}
        (rw (stored-append p (w ++ 0 ∷ []) (flat ws), whole)
          (ap (λ n. (offsets n ws, stored p (w ++ 0 ∷ flat ws))) (omega arith))))

module _ (more : List ℕ → CmdArgsPrivate → Tokens) (more_strings : List ℕ → List (List ℕ))
    (h : (t : List ℕ) (q : CmdArgsPrivate)
      → HasRoom q (flat (more_strings t))
      → more t q ≡ in_pool q (more_strings t)) where
  quoted-in_pool :
      (s : List ℕ) (q : CmdArgsPrivate)
      → HasRoom q (flat (after_quote more_strings s))
      → after_quoted more s q ≡ in_pool q (after_quote more_strings s)
  quoted-in_pool [] q room = none-in_pool q
  quoted-in_pool (c ∷ s) q room = h s q room

  plain-in_pool :
      (s : List ℕ) (q : CmdArgsPrivate)
      → HasRoom q (flat (after_plain more_strings s))
      → after_word more s q ≡ in_pool q (after_plain more_strings s)
  plain-in_pool [] q room = none-in_pool q
  plain-in_pool (c ∷ s) q room = h (c ∷ s) q room

  next-in_pool :
      (s : List ℕ) (p : CmdArgsPrivate)
      → HasRoom p (flat (next_string more_strings s))
      → next_token more s p ≡ in_pool p (next_string more_strings s)
  next-in_pool [] p room = none-in_pool p
  next-in_pool (c ∷ s) p room = elim (Bool-cases (c == b'"')) [
    | inl quote ↦ rw quote (
        add-in_pool p (before_char b'"' s) (after_quote more_strings (from_char b'"' s))
          (after_quoted more (from_char b'"' s)) (quoted-in_pool (from_char b'"' s))
          (ground (arith, quote, room)))
    | inr plain ↦ rw plain (
        add-in_pool p (word (c ∷ s)) (after_plain more_strings (behind_word (c ∷ s)))
          (after_word more (behind_word (c ∷ s))) (plain-in_pool (behind_word (c ∷ s)))
          (ground (arith, plain, room)))
  ]

pub tokenize-in_pool :
    (n : ℕ) (text : List ℕ) (p : CmdArgsPrivate)
    → HasRoom p (flat (strings n text))
    → tokenize n text p ≡ in_pool p (strings n text)
tokenize-in_pool zero text p room = none-in_pool p
tokenize-in_pool (suc zero) text p room =
    add-in_pool p (skip_white text) [] (λ q. ([], q)) (λ q r. none-in_pool q) room
tokenize-in_pool (suc (suc n)) text p room =
    next-in_pool (tokenize (suc n)) (strings (suc n)) (tokenize-in_pool (suc n)) (token_start text)
      p room

-- What a pointer into the pool shows.
abbrev pub string_at : List ℕ → ℕ → List ℕ
string_at pool i = c_string (drop i pool)

strings-offsets :
    (ws : List (List ℕ)) (front back : List ℕ) (i : ℕ)
    → i ≡ length front
    → All IsString ws
    → map (string_at (front ++ (flat ws ++ back))) (offsets i ws) ≡ ws
strings-offsets [] front back i e h = refl
strings-offsets (w ∷ ws) front back i e (hw, h) =
    let rest = flat ws ++ back in
    let token : flat (w ∷ ws) ++ back ≡ w ++ 0 ∷ rest = append_assoc w (0 ∷ flat ws) back in
    let moved : front ++ (flat (w ∷ ws) ++ back) ≡ (front ++ (w ++ 0 ∷ [])) ++ rest =
      ap (λ l. front ++ l) (token ∙ sym (append_assoc w (0 ∷ []) rest))
      ∙ sym (append_assoc front (w ++ 0 ∷ []) rest) in
    let first : string_at (front ++ (flat (w ∷ ws) ++ back)) i ≡ w =
      rw (drop-append_left i front (flat (w ∷ ws) ++ back) e, token) (c_string-append w rest hw) in
    let others : map (string_at (front ++ (flat (w ∷ ws) ++ back))) (offsets (i + length w + 1) ws)
        ≡ ws =
      rw moved (
        strings-offsets ws (front ++ (w ++ 0 ∷ [])) back (i + length w + 1)
          (omega (arith, length-append front (w ++ 0 ∷ []), length-append w (0 ∷ []))) h) in
    rw first (ap (λ l. w ∷ l) others)

pub strings-stored :
    (p : CmdArgsPrivate) (ws : List (List ℕ))
    → length p.text_pool ≡ text_pool_size
    → HasRoom p (flat ws)
    → All IsString ws
    → map (string_at (stored p (flat ws)).text_pool) (offsets p.total_used_text_pool ws) ≡ ws
strings-stored p ws size room h =
    let i = p.total_used_text_pool in
    rw
      (
        put_bytes-split (flat ws) p.text_pool i (i + length (flat ws)) (omega arith) refl,
        append_assoc (take i p.text_pool) (flat ws) (drop (i + length (flat ws)) p.text_pool),
      )
      (strings-offsets ws (take i p.text_pool) (drop (i + length (flat ws)) p.text_pool) i
        (omega (arith, length-take i p.text_pool)) h)

-- Where the tokens of a text fit in the text pool with their zero bytes, the pointers that the
-- tokenizer returns show the tokens, in order; the pool in front of them is as before, and what it
-- counts as used has grown by just their bytes.
pub tokenize-strings :
    (n : ℕ) (text : List ℕ) (p : CmdArgsPrivate)
    → length p.text_pool ≡ text_pool_size
    → HasRoom p (flat (strings n text))
    → All IsString (strings n text)
    → (map (string_at (tokenize n text p).1.text_pool) (tokenize n text p).0 ≡ strings n text)
      × (take p.total_used_text_pool (tokenize n text p).1.text_pool
          ≡ take p.total_used_text_pool p.text_pool)
      × ((tokenize n text p).1.total_used_text_pool
          ≡ p.total_used_text_pool + length (flat (strings n text)))
tokenize-strings n text p size room h = rw (tokenize-in_pool n text p room) (
  strings-stored p (strings n text) size room h,
  take-put_bytes_le (flat (strings n text)) p.text_pool p.total_used_text_pool
      p.total_used_text_pool (omega arith),
  refl,
)
