-- ===== src/Text/Colors.antt =====
-- The color codes in texts of src/qshared.c.
use co_d4x_client_pub.Common.{
  ℕ, ◌+◌, ◌≤◌, ◌≡◌, refl, Bool-cases, inl, inr, List, [], ◌∷◌, length, All, arith,
}
use co_d4x_client_pub.Text.{is_color, keep_printable, print_strlen, clean_str}

abbrev pub IsPrintable : ℕ → Type 0
IsPrintable c = (0x20 ≤ c) × (c ≤ 0x7F)

length-keep_printable :
    (c : ℕ) (s : List ℕ) → IsPrintable c → length (keep_printable c s) ≡ length s + 1
length-keep_printable c s h = ground arith

-- For a text of printable characters `Q_PrintStrlen` is the length of what `Q_CleanStr` leaves.
pub print_strlen-clean_str :
    (s : List ℕ) → All IsPrintable s → print_strlen s ≡ length (clean_str s)
unfolding print_strlen clean_str
print_strlen-clean_str [] h = refl
print_strlen-clean_str (c ∷ []) (hc, h) = omega (arith, length-keep_printable c [] hc)
print_strlen-clean_str (c ∷ d ∷ s) (hc, (hd, h)) = elim (Bool-cases (is_color c (d ∷ s))) [
  | inl code ↦ rw code (print_strlen-clean_str s h)
  | inr plain ↦ rw plain (
      omega (
        arith,
        length-keep_printable c (clean_str (d ∷ s)) hc,
        print_strlen-clean_str (d ∷ s) (hd, h),
      ))
]
