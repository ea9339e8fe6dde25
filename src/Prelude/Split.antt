-- ===== src/Prelude/Split.antt =====
-- Go's `strings.Split` at one character.
use Prim.Native.Nat.{ℕ}
use Prim.Native.Char.{Char, code}
use Prim.Native.String.{String, ◌++◌}
use mathlib.Core.Bool.{false}
use mathlib.Core.List.{List, [], ◌∷◌}
use mathlib.Core.Logic.{◌≢◌, inl, inr}
use mathlib.Core.Path.{◌≡◌, refl, ap, sym, ◌∙◌}
use panda_k8s.Prelude.Lists.{All}
use native.Mathlib.Omega.{arith}
use text.Mathlib.TextEquality.{Char-path}
use text.Mathlib.TextLemmas.{cons-append, nil-append}
use panda_k8s.Prelude.Strings.{contains_char}
use panda_k8s.Prelude.Tests.{nat_eq, nat_eq_iff, if◌then◌else◌, Bool-cases}

-- the first part with a character before it
abbrev put : Char → List String → List String
put c [] = String.◌∷◌ c "" ∷ []
put c (w ∷ ws) = String.◌∷◌ c w ∷ ws

-- `strings.Split(s, x)`
unfoldable pub split : ℕ → String → List String
split x String.[] = "" ∷ []
split x (String.◌∷◌ c s) = if nat_eq (code c) x then "" ∷ split x s else put c (split x s)

-- A text without the separator is one part.
pub split_whole : (x : ℕ) (s : String) → contains_char s x ≡ false → split x s ≡ s ∷ []
unfolding split
split_whole x String.[] h = refl
split_whole x (String.◌∷◌ c s) h = let rest = split_whole x s (ground arith) in ground (arith, rest)

-- Splitting stops at the first separator, and goes on behind it.
pub split-append :
    (x : ℕ) (a : String) (c : Char) (s : String)
    → contains_char a x ≡ false
    → code c ≡ x
    → split x (a ++ String.◌∷◌ c s) ≡ a ∷ split x s
unfolding split
split-append x String.[] c s h e = rw nil-append (ground arith)
split-append x (String.◌∷◌ d a) c s h e =
    let rest = split-append x a c s (ground arith) e in rw cons-append (ground (arith, rest))

-- the parts of a text with the separator between them
abbrev pub join : Char → List String → String
join x [] = ""
join x (w ∷ []) = w
join x (w ∷ v ∷ ws) = w ++ String.◌∷◌ x (join x (v ∷ ws))

-- The parts and the separators make up the text, and no part holds the separator.
abbrev pub IsSplit : Char → String → List String → Type 0
IsSplit x s ws = (join x ws ≡ s) × All (λ w. contains_char w (code x) ≡ false) ws × (ws ≢ [])

join-put :
    (x c : Char) (w : String) (ws : List String)
    → join x (put c (w ∷ ws)) ≡ String.◌∷◌ c (join x (w ∷ ws))
join-put x c w [] = refl
join-put x c w (v ∷ ws) = cons-append c w (String.◌∷◌ x (join x (v ∷ ws)))

pub split-IsSplit : (x : Char) (s : String) → IsSplit x s (split (code x) s)
unfolding split
split-IsSplit x String.[] = (refl, (refl, tt), cc)
split-IsSplit x (String.◌∷◌ c s) = step (split (code x) s) (split-IsSplit x s)
  where
    step :
        (ws : List String)
        → IsSplit x s ws
        → IsSplit x (String.◌∷◌ c s) (if nat_eq (code c) (code x) then "" ∷ ws else put c ws)
    step [] (j, a, n) = absurd (n refl)
    step (w ∷ ws) (j, a, n) = elim (Bool-cases (nat_eq (code c) (code x))) [
      | inl same ↦ rw same (
        nil-append (String.◌∷◌ x (join x (w ∷ ws)))
            ∙ ap (String.◌∷◌ x) j
            ∙ ap (λ (d : Char). String.◌∷◌ d s)
                (Char-path x c (sym ((nat_eq_iff (code c) (code x)).0 same))),
        (refl, a),
        cc,
      )
      | inr other ↦ rw other (join-put x c w ws ∙ ap (String.◌∷◌ c) j, (ground arith, a.1), cc)
    ]
