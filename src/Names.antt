-- ===== src/Names.antt =====
-- internal/k8s/main.go: references to an object by its namespace and name.
use Prim.Native.Char.{char}
use Prim.Native.String.{String}
use mathlib.Core.Path.{subst}
use panda_k8s.Prelude.{
  text_append, contains_char, split, split_whole, split-append, IsSplit, split-IsSplit, false, ◌≡◌,
  refl, sym, ap, ◌↔◌, List, [], ◌∷◌, Option, none, some, some_eq,
}

-- `len(nsName) != 2`
abbrev two_parts : List String → Option (String × String)
two_parts (a ∷ b ∷ []) = some (a, b)
two_parts _ = none

-- `ParseNameNS`
unfoldable pub parse_name_ns : String → Option (String × String)
unfolding split
parse_name_ns input = two_parts (split b'/' input)

abbrev pub with_slash : String → String → String
with_slash ns name = text_append ns (String.◌∷◌ (char b'/' tt) name)

two_parts-some : (ws : List String) (a b : String) → two_parts ws ≡ some (a, b) → ws ≡ a ∷ b ∷ []
two_parts-some (c ∷ d ∷ []) a b h =
    let e : (c, d) ≡ (a, b) = some_eq h in ap (λ (p : String × String). p.0 ∷ p.1 ∷ []) e
two_parts-some [] a b h = cc
two_parts-some (c ∷ []) a b h = cc
two_parts-some (c ∷ d ∷ e ∷ ws) a b h = cc

-- `ParseNameNS` answers a namespace and a name exactly for the text that joins the two by a slash,
-- neither of them with a slash of its own.
pub parse_name_ns_iff :
    (input ns name : String)
    → (parse_name_ns input ≡ some (ns, name)) ↔ (
        (input ≡ with_slash ns name)
        × (contains_char ns b'/' ≡ false)
        × (contains_char name b'/' ≡ false))
unfolding parse_name_ns
parse_name_ns_iff input ns name = (there, back)
  where
    there :
        two_parts (split b'/' input) ≡ some (ns, name)
        → (input ≡ with_slash ns name)
          × (contains_char ns b'/' ≡ false)
          × (contains_char name b'/' ≡ false)
    there h =
        let (j, a, n) =
          subst (IsSplit (char b'/' tt) input) (two_parts-some (split b'/' input) ns name h)
            (split-IsSplit (char b'/' tt) input) in
        (sym j, a.0, a.1.0)

    back :
        (input ≡ with_slash ns name)
          × (contains_char ns b'/' ≡ false)
          × (contains_char name b'/' ≡ false)
        → two_parts (split b'/' input) ≡ some (ns, name)
    back (e, h, k) =
        rw e
          (rw (split-append b'/' ns (char b'/' tt) name h refl) (rw (split_whole b'/' name k) refl))
