-- ===== src/Cmd/Argsv.antt =====
-- The text of arguments that `Cmd_Argsv` of src/cmd.c builds in a buffer.
use co_d4x_client_pub.Common.{
  ℕ, ◌+◌, ◌-◌, ◌≤◌, ◌<◌, ◌≡◌, refl, sym, ap, ◌∙◌, Bool-cases, inl, inr, Option, some, List, [], ◌∷◌,
  ◌++◌, length, take-all, arith, All, append_assoc, append-nil, length-append,
}
use co_d4x_client_pub.Text.{c_string, strcat}
use co_d4x_client_pub.Text.Buffer.{IsString, strcat-c_string}
use co_d4x_client_pub.Info.{has_char}
use co_d4x_client_pub.Cmd.Args.{and_then, quote, blank, argument, argsv_loop}
use co_d4x_client_pub.Cmd.Printed.{printed, join, join_rest}

-- A result that is a buffer of that length with that string.
pub record Holds (result : Option (List ℕ)) (s : List ℕ) (n : ℕ) : Type 0 where
  pub buffer : List ℕ
  pub returned : result ≡ some buffer
  pub string : c_string buffer ≡ s
  pub size : length buffer ≡ n

strcat-Holds :
    (b src acc : List ℕ) (n size : ℕ)
    → c_string b ≡ acc
    → length b ≡ n
    → size ≤ n
    → length acc + length src < size
    → IsString src
    → Holds (strcat b size src) (acc ++ src) n
strcat-Holds b src acc n size e len fits room str =
    let same = ap length e in
    let (b', returned, copied) = strcat-c_string b src size (omega arith) (omega arith) str in
    record {
      buffer = b';
      returned = returned;
      string = copied.string ∙ rw (e, take-all (size - length acc - 1) src (omega arith)) refl;
      size = copied.same_length ∙ len;
    }

and_then-Holds :
    (r : Option (List ℕ)) (f : List ℕ → Option (List ℕ)) (acc s : List ℕ) (n : ℕ)
    → Holds r acc n
    → ((b : List ℕ) → c_string b ≡ acc → length b ≡ n → Holds (f b) s n)
    → Holds (and_then r f) s n
and_then-Holds r f acc s n h k = rw h.returned (k h.buffer h.string h.size)

quote-IsString : IsString quote
quote-IsString = ((omega arith, omega arith), tt)

blank-IsString : IsString blank
blank-IsString = ((omega arith, omega arith), tt)

argument-Holds :
    (b s acc : List ℕ) (n size : ℕ)
    → c_string b ≡ acc
    → length b ≡ n
    → size ≤ n
    → length acc + length (printed s) < size
    → IsString s
    → Holds (argument b size s) (acc ++ printed s) n
argument-Holds b s acc n size e len fits room str = elim (Bool-cases (has_char b' ' s)) [
  | inr plain ↦ rw plain (strcat-Holds b s acc n size e len fits (ground (arith, plain, room)) str)
  | inl quoted ↦
      let whole : acc ++ (quote ++ (s ++ quote)) ≡ ((acc ++ quote) ++ s) ++ quote =
        sym (append_assoc acc quote (s ++ quote)) ∙ sym (append_assoc (acc ++ quote) s quote) in
      let printed_size : length (printed s) ≡ length s + 2 =
        rw quoted (omega (arith, length-append s quote)) in
      let size_1 = length-append acc quote in
      let size_2 = length-append (acc ++ quote) s in
      rw (quoted, whole)
        (and_then-Holds (strcat b size quote)
          (λ c. and_then (strcat c size s) (λ d. strcat d size quote)) (acc ++ quote)
          (((acc ++ quote) ++ s) ++ quote) n
          (strcat-Holds b quote acc n size e len fits (omega arith) quote-IsString)
          (λ c ec lc.
            and_then-Holds (strcat c size s) (λ d. strcat d size quote) ((acc ++ quote) ++ s)
              (((acc ++ quote) ++ s) ++ quote) n
              (strcat-Holds c s (acc ++ quote) n size ec lc fits (omega arith) str)
              (λ d ed ld.
                strcat-Holds d quote ((acc ++ quote) ++ s) n size ed ld fits (omega arith)
                  quote-IsString)))
]

pub argsv_loop-Holds :
    (ts : List (List ℕ)) (b acc : List ℕ) (n size : ℕ)
    → c_string b ≡ acc
    → length b ≡ n
    → size ≤ n
    → length acc + length (join ts) < size
    → All IsString ts
    → Holds (argsv_loop b size ts) (acc ++ join ts) n
argsv_loop-Holds [] b acc n size e len fits room str = record {
  buffer = b;
  returned = refl;
  string = e ∙ sym (append-nil acc);
  size = len;
}
argsv_loop-Holds (s ∷ []) b acc n size e len fits room (hs, str) =
    rw (append-nil (printed s))
      (argument-Holds b s acc n size e len fits (omega (arith, length-append (printed s) [])) hs)
argsv_loop-Holds (s ∷ t ∷ ts) b acc n size e len fits room (hs, str) =
    let whole : acc ++ (printed s ++ (blank ++ join (t ∷ ts)))
        ≡ ((acc ++ printed s) ++ blank) ++ join (t ∷ ts) =
      sym (append_assoc acc (printed s) (blank ++ join (t ∷ ts)))
      ∙ sym (append_assoc (acc ++ printed s) blank (join (t ∷ ts))) in
    let size_1 = length-append (printed s) (join_rest (t ∷ ts)) in
    let size_2 = length-append acc (printed s) in
    let size_3 = length-append (acc ++ printed s) blank in
    rw whole (
      and_then-Holds (argument b size s)
        (λ c. and_then (strcat c size blank) (λ d. argsv_loop d size (t ∷ ts))) (acc ++ printed s)
        (((acc ++ printed s) ++ blank) ++ join (t ∷ ts)) n
        (argument-Holds b s acc n size e len fits (omega arith) hs)
        (λ c ec lc.
          and_then-Holds (strcat c size blank) (λ d. argsv_loop d size (t ∷ ts))
            ((acc ++ printed s) ++ blank) (((acc ++ printed s) ++ blank) ++ join (t ∷ ts)) n
            (strcat-Holds c blank (acc ++ printed s) n size ec lc fits (omega arith) blank-IsString)
            (λ d ed ld.
              argsv_loop-Holds (t ∷ ts) d ((acc ++ printed s) ++ blank) n size ed ld fits
                (omega arith) str)))
