-- ===== src/Text/Tests.antt =====
-- The strings of src/qshared.c on examples.
use co_d4x_client_pub.Common.{ℕ, ◌≡◌, refl, List, [], some, ◌∷◌, length, arith}
use co_d4x_client_pub.Text.{expand_newlines, trim_crlf, get_extension_sub_string}
use co_d4x_client_pub.Text.Buffer.{IsString}
use co_d4x_client_pub.Text.Xml.{escape, unescape, unescape-escape}

abbrev small : List ℕ
small = b'a' ∷ b'b' ∷ []

abbrev big : List ℕ
big = b'A' ∷ b'B' ∷ b'C' ∷ []

small-IsString : IsString small
small-IsString = (omega arith, (omega arith, tt))

big-IsString : IsString big
big-IsString = (omega arith, (omega arith, (omega arith, tt)))

-- An array of five bytes with one character in it.
abbrev array : List ℕ
array = b'z' ∷ 0 ∷ 7 ∷ 7 ∷ 7 ∷ []

expanded : expand_newlines (b'a' ∷ b'\n' ∷ []) ≡ b'a' ∷ b'\\' ∷ b'n' ∷ []
unfolding expand_newlines
expanded = refl

trimmed : trim_crlf (b'a' ∷ b' ' ∷ b'\r' ∷ b'\n' ∷ []) ≡ b'a' ∷ []
unfolding trim_crlf
trimmed = refl

extension : get_extension_sub_string (b'a' ∷ b'.' ∷ b'b' ∷ []) ≡ b'.' ∷ b'b' ∷ []
unfolding get_extension_sub_string
extension = refl

-- `a<`, in a buffer of 14 bytes and in one of two.
abbrev markup : List ℕ
markup = b'a' ∷ b'<' ∷ []

unescape-escape_example : unescape (length markup) (escape 14 markup) ≡ some markup
unescape-escape_example = unescape-escape 14 markup (omega arith, (omega arith, tt)) (omega arith)
