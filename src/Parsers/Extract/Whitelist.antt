-- ===== src/Parsers/Extract/Whitelist.antt =====
-- internal/ingress/annotations/annotations.go and ipwhitelist/main.go: what a list of addresses that
-- cannot be read does to the Ingress as a whole.
use panda_k8s.Annotations.Auth
use panda_k8s.Annotations.Parser.{Found}
use panda_k8s.Parsers.{Resolver, Annotated, Reply, string_of}
use panda_k8s.Parsers.Addresses.{whitelist}
use panda_k8s.Parsers.Addresses.Sound.{all_parsed, whitelist_given}
use panda_k8s.Parsers.Extract.{Parsed, Extracted, set, replies, extract, extract_all}
use panda_k8s.Parsers.Extract.Denials.{is_some, is_denied, extract_all_denied}
use panda_k8s.Pointers.{Ptr, at}
use panda_k8s.Prelude.{
  ℕ, zero, suc, String, true, false, List, [], ◌∷◌, Option, none, some, any, In, split, ◌≡◌, ◌∙◌,
  refl, inl, inr, arith,
}

any_at : (p : Parsed) (ps : List Parsed) → In p ps → is_denied p ≡ true → any is_denied ps ≡ true
any_at p [] i h = absurd i
any_at p (q ∷ ps) (inl e) h = rw (← e) (rw h refl)
any_at p (q ∷ ps) (inr i) h = ground (arith, any_at p ps i h)

abbrev drop : ℕ → List Parsed → List Parsed
drop zero ps = ps
drop (suc n) [] = []
drop (suc n) (p ∷ ps) = drop n ps

In-drop : (n : ℕ) (p : Parsed) (ps : List Parsed) → In p (drop n ps) → In p ps
In-drop zero p ps i = i
In-drop (suc n) p [] i = i
In-drop (suc n) p (q ∷ ps) i = inr (In-drop n p ps i)

reason_at :
    (slot : ℕ) (o : Option String)
    → is_some o ≡ true
    → (elim o as (λ _. Ptr String) [ none ↦ Ptr.nil | some _ ↦ Ptr.at slot ]) ≡ at slot
reason_at slot none h = cc
reason_at slot (some s) h = refl

module _ (r : Resolver) (auth : Annotated → Reply Auth.Config) (ing : Annotated) where
  -- the entry of the whitelist among the parsers
  abbrev entry : Parsed
  entry = ("Whitelist", set (λ v p. record p { whitelist = v }) (whitelist r ing))

  In-replies : In entry (replies r auth ing)
  unfolding replies
  In-replies = In-drop 31 entry (replies r auth ing) (inl refl)

  entry_denied :
      (s : String)
      → string_of r ing "whitelist-source-range" ≡ Found.value s
      → all_parsed r (split b',' s) ≡ false
      → is_denied entry ≡ true
  entry_denied s h bad = elim (whitelist_given r ing s h) [
    | inl (_, (reason, e)) ↦ rw e refl
    | inr (good, _) ↦ cc
  ]

  -- If the annotation whitelist-source-range has a part that is neither a network nor an address,
  -- Extract denies the location, in whatever order it visits the parsers, if it visits them all.
  pub extract_whitelist_denied :
      (s : String) (visited : List Parsed) (slot : ℕ)
      → string_of r ing "whitelist-source-range" ≡ Found.value s
      → all_parsed r (split b',' s) ≡ false
      → ((p : Parsed) → In p (replies r auth ing) → In p visited)
      → (extract r auth ing visited slot).denied ≡ at slot
  unfolding extract
  extract_whitelist_denied s visited slot h bad all =
      let denied = any_at entry visited (all entry In-replies) (entry_denied s h bad) in
      let start : Extracted = record { values = []; reason = none } in
      reason_at slot (extract_all visited start).reason (extract_all_denied visited start ∙ denied)
