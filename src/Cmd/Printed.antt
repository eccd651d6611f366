-- ===== src/Cmd/Printed.antt =====
-- Texts of arguments, as `Cmd_Argsv` of src/cmd.c prints them, in the tokenizer.
use co_d4x_client_pub.Common.{
  ℕ, zero, suc, ◌+◌, ◌<◌, ◌≡◌, ◌≢◌, ◌⊎◌, refl, sym, ap, ◌∙◌, inl, inr, true, false, List, [], ◌∷◌,
  ◌++◌, ◌==◌, if◌then◌else◌, length, arith, All, append_assoc,
}
use co_d4x_client_pub.Text.{before_char}
use co_d4x_client_pub.Info.{has_char}
use co_d4x_client_pub.Cmd.Tokens.{skip_white, token_start, stops, word, behind_word, from_char}
use co_d4x_client_pub.Cmd.Start.{IsStart}
use co_d4x_client_pub.Cmd.Pool.{strings, next_string, after_plain}

-- An argument with a blank is put between quotes, and a blank between two arguments.
abbrev pub printed : List ℕ → List ℕ
printed s = if has_char b' ' s then b'"' ∷ (s ++ b'"' ∷ []) else s

abbrev pub join_rest : List (List ℕ) → List ℕ
join_rest [] = []
join_rest (s ∷ ts) = b' ' ∷ (printed s ++ join_rest ts)

abbrev pub join : List (List ℕ) → List ℕ
join [] = []
join (s ∷ ts) = printed s ++ join_rest ts

-- A regular token does not end within it.
abbrev pub IsWord : List ℕ → Type 0
IsWord [] = Unit {0}
IsWord (c ∷ s) = (stops (c ∷ s) ≡ false) × IsWord s

-- An argument between quotes has no quote; any other is a regular token of a character at least.
abbrev pub IsArgument : List ℕ → Type 0
IsArgument s =
    ((has_char b' ' s ≡ true) × (has_char b'"' s ≡ false))
    ⊎ ((has_char b' ' s ≡ false) × (s ≢ []) × IsWord s)

-- The end of the text or a blank.
abbrev AtBlank : List ℕ → Type 0
AtBlank [] = Unit {0}
AtBlank (c ∷ s) = c ≡ b' '

join_rest-AtBlank : (ts : List (List ℕ)) → AtBlank (join_rest ts)
join_rest-AtBlank [] = tt
join_rest-AtBlank (s ∷ ts) = refl

stops-append :
    (c : ℕ) (s rest : List ℕ)
    → stops (c ∷ s) ≡ false
    → AtBlank rest
    → stops (c ∷ (s ++ rest)) ≡ false
unfolding stops
stops-append c [] [] h a = h
stops-append c [] (d ∷ rest) h a = ground (arith, h, a)
stops-append c (d ∷ s) rest h a = h

blank-stops : (c : ℕ) (rest : List ℕ) → c ≡ b' ' → stops (c ∷ rest) ≡ true
unfolding stops
blank-stops c rest e = rw e refl

word-append : (s rest : List ℕ) → IsWord s → AtBlank rest → word (s ++ rest) ≡ s
word-append [] [] w a = refl
word-append [] (c ∷ rest) w a = rw (blank-stops c rest a) refl
word-append (c ∷ s) rest (h, w) a =
    rw (stops-append c s rest h a) (ap (λ l. c ∷ l) (word-append s rest w a))

behind_word-append : (s rest : List ℕ) → IsWord s → AtBlank rest → behind_word (s ++ rest) ≡ rest
behind_word-append [] [] w a = refl
behind_word-append [] (c ∷ rest) w a = rw (blank-stops c rest a) refl
behind_word-append (c ∷ s) rest (h, w) a =
    rw (stops-append c s rest h a) (behind_word-append s rest w a)

before_char-append :
    (c : ℕ) (s rest : List ℕ) → has_char c s ≡ false → before_char c (s ++ c ∷ rest) ≡ s
before_char-append c [] rest h = ground arith
before_char-append c (d ∷ s) rest h = ground (arith, h, before_char-append c s rest)

from_char-append :
    (c : ℕ) (s rest : List ℕ) → has_char c s ≡ false → from_char c (s ++ c ∷ rest) ≡ c ∷ rest
from_char-append c [] rest h = ground arith
from_char-append c (d ∷ s) rest h = ground (arith, h, from_char-append c s rest)

stops-IsStart : (c : ℕ) (s : List ℕ) → stops (c ∷ s) ≡ false → IsStart (c ∷ s)
unfolding stops
stops-IsStart c s h = (ground (arith, h), ground (arith, h), ground (arith, h))

token_start-found :
    (text : List ℕ) (c : ℕ) (s : List ℕ)
    → skip_white text ≡ c ∷ s
    → IsStart (c ∷ s)
    → token_start text ≡ c ∷ s
unfolding token_start
token_start-found text c s e (white, line, block) =
    let one_more : length text + 1 ≡ suc (length text) = omega arith in
    rw (one_more, e, line, block) refl

token_start-end : (text : List ℕ) → skip_white text ≡ [] → token_start text ≡ []
unfolding token_start
token_start-end text e =
    let one_more : length text + 1 ≡ suc (length text) = omega arith in rw (one_more, e) refl

-- A text that is not at its end, and at a token.
abbrev AtToken : List ℕ → Type 0
AtToken t = (c : ℕ) × (s : List ℕ) × (t ≡ c ∷ s) × IsStart (c ∷ s)

argument-AtToken : (s rest : List ℕ) → IsArgument s → AtBlank rest → AtToken (printed s ++ rest)
argument-AtToken s rest (inl (blank, unquoted)) a =
    (b'"', (s ++ b'"' ∷ []) ++ rest, rw blank refl, (refl, refl, refl))
argument-AtToken [] rest (inr (no_blank, some_char, w)) a = absurd (some_char refl)
argument-AtToken (c ∷ s) rest (inr (no_blank, some_char, (h, w))) a =
    (c, s ++ rest, rw no_blank refl, stops-IsStart c (s ++ rest) (stops-append c s rest h a))

skip_white-AtToken : (t : List ℕ) → AtToken t → skip_white t ≡ t
skip_white-AtToken t (c, s, e, (white, line, block)) = rw (e, white) refl

token_start-AtToken : (text t : List ℕ) → skip_white text ≡ t → AtToken t → token_start text ≡ t
token_start-AtToken text t h (c, s, e, start) = token_start-found text c s (h ∙ e) start ∙ sym e

skip_white-join_rest :
    (ts : List (List ℕ)) → All IsArgument ts → skip_white (join_rest ts) ≡ join ts
skip_white-join_rest [] p = refl
skip_white-join_rest (s ∷ ts) (h, p) =
    skip_white-AtToken (printed s ++ join_rest ts)
      (argument-AtToken s (join_rest ts) h (join_rest-AtBlank ts))

after_plain-join_rest :
    (more : List ℕ → List (List ℕ)) (ts : List (List ℕ))
    → more (join_rest ts) ≡ ts
    → after_plain more (join_rest ts) ≡ ts
after_plain-join_rest more [] h = refl
after_plain-join_rest more (s ∷ ts) h = h

plain-head : (c : ℕ) (s : List ℕ) → stops (c ∷ s) ≡ false → c == b'"' ≡ false
unfolding stops
plain-head c s h = ground (arith, h)

next_string-argument :
    (more : List ℕ → List (List ℕ)) (s : List ℕ) (ts : List (List ℕ))
    → IsArgument s
    → more (join_rest ts) ≡ ts
    → next_string more (printed s ++ join_rest ts) ≡ s ∷ ts
next_string-argument more s ts (inl (blank, unquoted)) h =
    rw
      (
        blank,
        append_assoc s (b'"' ∷ []) (join_rest ts),
        before_char-append b'"' s (join_rest ts) unquoted,
        from_char-append b'"' s (join_rest ts) unquoted,
      )
      (ap (λ l. s ∷ l) h)
next_string-argument more [] ts (inr (no_blank, some_char, w)) h = absurd (some_char refl)
next_string-argument more (c ∷ s) ts (inr (no_blank, some_char, w)) h =
    let a = join_rest-AtBlank ts in
    rw
      (
        no_blank,
        plain-head c s w.0,
        word-append (c ∷ s) (join_rest ts) w a,
        behind_word-append (c ∷ s) (join_rest ts) w a,
      )
      (ap (λ l. (c ∷ s) ∷ l) (after_plain-join_rest more ts h))

pub strings-join :
    (ts : List (List ℕ)) (n : ℕ) (text : List ℕ)
    → All IsArgument ts
    → length ts + 1 < n
    → skip_white text ≡ join ts
    → strings n text ≡ ts
strings-join ts zero text p h e = absurd (omega arith)
strings-join ts (suc zero) text p h e = absurd (omega arith)
strings-join [] (suc (suc n)) text p h e = rw (token_start-end text e) refl
strings-join (s ∷ ts) (suc (suc n)) text (hs, p) h e =
    let at = argument-AtToken s (join_rest ts) hs (join_rest-AtBlank ts) in
    rw (token_start-AtToken text (join (s ∷ ts)) e at) (
      next_string-argument (strings (suc n)) s ts hs
        (strings-join ts (suc n) (join_rest ts) p (omega arith) (skip_white-join_rest ts p)))

pub skip_white-join : (ts : List (List ℕ)) → All IsArgument ts → skip_white (join ts) ≡ join ts
skip_white-join [] p = refl
skip_white-join (s ∷ ts) (h, p) =
    skip_white-AtToken (printed s ++ join_rest ts)
      (argument-AtToken s (join_rest ts) h (join_rest-AtBlank ts))
