-- ===== src/Controller/Certificates/Wildcards.antt =====
-- What a pattern with a star in front matches.
use Prim.Native.Char.{Char, char}
use Prim.Native.String.{String}
use text.Mathlib.TextLemmas.{cons-append, nil-append}
use panda_k8s.Controller.Certificates.{same_parts, parts_match, match_hostnames}
use panda_k8s.Prelude.{
  text_append, contains_char, trim_dot, is_empty, split, split-append, split-IsSplit, IsSplit, join,
  true, false, ==_iff, ◌≡◌, refl, sym, ap, subst, ◌∙◌, ◌↔◌, ◌≢◌, List, [], ◌∷◌, inl, inr,
  Bool-cases, arith,
}

same_parts_iff : (ps hs : List String) → (same_parts ps hs ≡ true) ↔ (ps ≡ hs)
unfolding same_parts
same_parts_iff [] [] = (λ h. refl, λ h. refl)
same_parts_iff (p ∷ ps) (h ∷ hs) = ground (arith, ==_iff p h, same_parts_iff ps hs)
same_parts_iff [] (h ∷ hs) = (λ h. cc, λ h. cc)
same_parts_iff (p ∷ ps) [] = (λ h. cc, λ h. cc)

starred :
    (ds hs : List String) → parts_match ("*" ∷ ds) hs ≡ true → (label : String) × (hs ≡ label ∷ ds)
unfolding parts_match
starred ds [] h = cc
starred ds (x ∷ hs) h = (x, ap (λ (r : List String). x ∷ r) (sym ((same_parts_iff ds hs).0 h)))

starred_back : (ds : List String) (label : String) → parts_match ("*" ∷ ds) (label ∷ ds) ≡ true
unfolding parts_match
starred_back ds label = (same_parts_iff ds ds).1 refl

-- a label, a dot and the domain
abbrev pub dotted : String → String → String
dotted label domain = text_append label (String.◌∷◌ (char b'.' tt) domain)

dotted_full : (label domain : String) → is_empty (dotted label domain) ≡ false
dotted_full String.[] domain = rw nil-append refl
dotted_full (String.◌∷◌ c s) domain = rw cons-append refl

join_more :
    (x : Char) (w : String) (ws : List String)
    → ws ≢ []
    → join x (w ∷ ws) ≡ text_append w (String.◌∷◌ x (join x ws))
join_more x w [] n = absurd (n refl)
join_more x w (v ∷ ws) n = refl

-- A pattern whose first label is a star and whose rest is a domain matches exactly the hosts that
-- have one label in front of the domain, a final dot of the pattern or of the host aside. The label
-- may be empty.
pub match_hostnames_wildcard :
    (pattern host domain : String)
    → trim_dot pattern ≡ dotted "*" domain
    → (match_hostnames pattern host ≡ true) ↔ (
        (label : String) × (contains_char label b'.' ≡ false)
        × (trim_dot host ≡ dotted label domain))
unfolding match_hostnames parts_match
match_hostnames_wildcard pattern host domain e = (there, back)
  where
    dot : Char
    dot = char b'.' tt

    parts : split b'.' (trim_dot pattern) ≡ "*" ∷ split b'.' domain
    parts = rw e (split-append b'.' "*" dot domain refl refl)

    not_empty : is_empty (trim_dot pattern) ≡ false
    not_empty = rw e (dotted_full "*" domain)

    rejoined :
        (label : String)
        → split b'.' (trim_dot host) ≡ label ∷ split b'.' domain
        → (contains_char label b'.' ≡ false) × (trim_dot host ≡ dotted label domain)
    rejoined label k =
        let (j, a, _) = subst (IsSplit dot (trim_dot host)) k (split-IsSplit dot (trim_dot host)) in
        let (i, _, n) = split-IsSplit dot domain in
        (
          a.0,
          sym j
              ∙ join_more dot label (split b'.' domain) n
              ∙ ap (λ (d : String). text_append label (String.◌∷◌ dot d)) i,
        )

    there :
        match_hostnames pattern host ≡ true
        → (label : String) × (contains_char label b'.' ≡ false)
          × (trim_dot host ≡ dotted label domain)
    there h = elim (Bool-cases (is_empty (trim_dot host))) [
      | inl empty ↦ let k = rw (not_empty, empty) at h in cc
      | inr full ↦
          let (label, k) =
            starred (split b'.' domain) (split b'.' (trim_dot host))
              (rw (not_empty, full, parts) at h) in
          let (free, l) = rejoined label k in (label, free, l)
    ]

    back :
        ((label : String) × (contains_char label b'.' ≡ false)
          × (trim_dot host ≡ dotted label domain))
        → match_hostnames pattern host ≡ true
    back (label, free, k) =
        rw
          (
            not_empty,
            k,
            parts,
            dotted_full label domain,
            split-append b'.' label dot domain free refl,
          )
          (starred_back (split b'.' domain) label)
