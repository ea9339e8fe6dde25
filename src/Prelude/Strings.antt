-- ===== src/Prelude/Strings.antt =====
-- Go's texts, as far as the code looks into them.
use Prim.Native.Nat.{ℕ, ◌-◌, ◌+◌}
use Prim.Native.Char.{code, len_utf8}
use Prim.Native.String.{String, ◌++◌}
use mathlib.Core.Bool.{Bool, true, false, ◌||◌, ◌&&◌}
use mathlib.Core.Path.{◌≡◌, refl}
use native.Mathlib.Omega.{arith}
use text.Mathlib.TextLemmas.{cons-append}
use panda_k8s.Prelude.Tests.{nat_eq, leb, ltb, if◌then◌else◌}

-- `strings.HasSuffix(s, "/")`
abbrev pub ends_in_slash : String → Bool
ends_in_slash String.[] = false
ends_in_slash (String.◌∷◌ c String.[]) = nat_eq (code c) b'/'
ends_in_slash (String.◌∷◌ c (String.◌∷◌ d s)) = ends_in_slash (String.◌∷◌ d s)

-- `len(s) > 0`
abbrev pub is_empty : String → Bool
is_empty String.[] = true
is_empty (String.◌∷◌ c s) = false

pub ends_in_slash-append : (s : String) → ends_in_slash (s ++ "/") ≡ true
ends_in_slash-append String.[] = refl
ends_in_slash-append (String.◌∷◌ c String.[]) = rw cons-append
ends_in_slash-append (String.◌∷◌ c (String.◌∷◌ d s)) =
    rw (cons-append, cons-append) (rw cons-append at (ends_in_slash-append (String.◌∷◌ d s)))

-- does the text hold the character?
abbrev pub contains_char : String → ℕ → Bool
contains_char String.[] x = false
contains_char (String.◌∷◌ c s) x = nat_eq (code c) x || contains_char s x

-- `strings.TrimSuffix(s, ".")`
abbrev pub trim_dot : String → String
trim_dot String.[] = ""
trim_dot (String.◌∷◌ c String.[]) = if nat_eq (code c) b'.' then "" else String.◌∷◌ c ""
trim_dot (String.◌∷◌ c (String.◌∷◌ d s)) = String.◌∷◌ c (trim_dot (String.◌∷◌ d s))

-- `net.JoinHostPort`
abbrev pub join_host_port : String → String → String
join_host_port host port =
    if contains_char host b':' then "[" ++ host ++ "]:" ++ port else host ++ ":" ++ port

-- `strings.ToUpper`, of a text that is compared with ASCII letters: a dotless i and a long s become
-- such letters too
abbrev upper : ℕ → ℕ
upper n =
    if leb b'a' n && leb n b'z'
    then n - 32
    else if nat_eq n 0x131
    then b'I'
    else if nat_eq n 0x17F
    then b'S'
    else n

-- `strings.ToUpper(s) == t`
unfoldable pub upper_eq : String → String → Bool
upper_eq String.[] String.[] = true
upper_eq (String.◌∷◌ c s) (String.◌∷◌ d t) = nat_eq (upper (code c)) (code d) && upper_eq s t
upper_eq _ _ = false

-- `len(s)`, in bytes
abbrev pub byte_length : String → ℕ
byte_length String.[] = 0
byte_length (String.◌∷◌ c s) = len_utf8 c + byte_length s

-- `s < t`: the order of the bytes is that of the characters
abbrev pub text_lt : String → String → Bool
text_lt s String.[] = false
text_lt String.[] (String.◌∷◌ d t) = true
text_lt (String.◌∷◌ c s) (String.◌∷◌ d t) =
    let rest = text_lt s t in
    if ltb (code c) (code d) then true else if nat_eq (code c) (code d) then rest else false

pub text_lt_asymmetric : (s t : String) → text_lt s t ≡ true → text_lt t s ≡ false
text_lt_asymmetric s String.[] h = cc
text_lt_asymmetric String.[] (String.◌∷◌ d t) h = refl
text_lt_asymmetric (String.◌∷◌ c s) (String.◌∷◌ d t) h = ground (arith, text_lt_asymmetric s t)

pub text_lt_transitive :
    (r s t : String) → text_lt s r ≡ false → text_lt t s ≡ false → text_lt t r ≡ false
text_lt_transitive String.[] s t h k = refl
text_lt_transitive (String.◌∷◌ b r) String.[] t h k = cc
text_lt_transitive (String.◌∷◌ b r) (String.◌∷◌ c s) String.[] h k = cc
text_lt_transitive (String.◌∷◌ b r) (String.◌∷◌ c s) (String.◌∷◌ d t) h k =
    ground (arith, text_lt_transitive r s t)
