-- ===== src/Prelude/Trim.antt =====
-- Go's `strings.TrimSpace`, `HasPrefix` and `Contains`, and the tests of characters that the code's
-- regular expressions make.
use Prim.Native.Nat.{ℕ}
use Prim.Native.Char.{code}
use Prim.Native.String.{String}
use mathlib.Core.Bool.{Bool, true, false, ◌&&◌, ◌||◌}
use panda_k8s.Prelude.Strings.{is_empty}
use panda_k8s.Prelude.Tests.{nat_eq, leb, if◌then◌else◌}

-- `unicode.IsSpace`
abbrev pub is_space : ℕ → Bool
is_space n =
    leb 9 n && leb n 13
    || nat_eq n 32
    || nat_eq n 0x85
    || nat_eq n 0xA0
    || nat_eq n 0x1680
    || leb 0x2000 n && leb n 0x200A
    || nat_eq n 0x2028
    || nat_eq n 0x2029
    || nat_eq n 0x202F
    || nat_eq n 0x205F
    || nat_eq n 0x3000

unfoldable pub trim_left : String → String
trim_left String.[] = ""
trim_left (String.◌∷◌ c s) = elim (is_space (code c)) [
  | true ↦ trim_left s
  | false ↦ String.◌∷◌ c s
]

unfoldable pub trim_right : String → String
trim_right String.[] = ""
trim_right (String.◌∷◌ c s) =
    let r = trim_right s in if is_space (code c) && is_empty r then "" else String.◌∷◌ c r

-- `strings.TrimSpace`
unfoldable pub trim_space : String → String
unfolding trim_left trim_right
trim_space s = trim_right (trim_left s)

-- `strings.HasPrefix(s, p)`, the prefix first
unfoldable pub has_prefix : String → String → Bool
has_prefix String.[] s = true
has_prefix (String.◌∷◌ d p) String.[] = false
has_prefix (String.◌∷◌ d p) (String.◌∷◌ c s) = nat_eq (code d) (code c) && has_prefix p s

-- `strings.Contains(s, p)`, the part first
unfoldable pub contains_text : String → String → Bool
unfolding has_prefix
contains_text p String.[] = is_empty p
contains_text p (String.◌∷◌ c s) = has_prefix p (String.◌∷◌ c s) || contains_text p s

-- `[0-9]`, and `[A-Za-z]`
abbrev pub is_digit : ℕ → Bool
is_digit n = leb b'0' n && leb n b'9'

abbrev pub is_letter : ℕ → Bool
is_letter n = leb b'A' n && leb n b'Z' || leb b'a' n && leb n b'z'

-- every character passes
unfoldable pub all_chars : (ℕ → Bool) → String → Bool
all_chars p String.[] = true
all_chars p (String.◌∷◌ c s) = p (code c) && all_chars p s
