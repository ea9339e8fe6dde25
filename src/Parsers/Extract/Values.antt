-- ===== src/Parsers/Extract/Values.antt =====
-- internal/ingress/annotations/annotations.go: which values of the parsers are kept.
use panda_k8s.Annotations.Parser.{Error}
use panda_k8s.Parsers.{Reply}
use panda_k8s.Parsers.Extract.{
  Setter, Parsed, Extracted, put_value, cert_error, deny, extract_one, extract_all, is_cert_error,
}
use panda_k8s.Parsers.Extract.Denials.{is_denial, is_denied}
use panda_k8s.Prelude.{
  String, Bool, true, false, ◌==◌, ==_iff, List, [], ◌∷◌, ◌++◌, All, Option, none, some, ◌≡◌, refl,
  ap, ◌∙◌, lookup, lookup-store, if◌then◌else◌, Option-cases, inl, inr,
}

-- the parsers have other names
abbrev pub Others : String → List Parsed → Type 0
Others j ps = All (λ p. (p.0 == j) ≡ false) ps

module _ (name j : String) (other : (name == j) ≡ false) where
  put_value-lookup :
      (o : Option Setter) (d : Extracted) → lookup j (put_value name o d).values ≡ lookup j d.values
  put_value-lookup none d = refl
  put_value-lookup (some v) d = lookup-store name j v d.values ∙ rw other refl

  noted-lookup :
      (b : Bool) (o : Option Setter) (d : Extracted)
      → lookup j (if b then put_value name o d else d).values ≡ lookup j d.values
  noted-lookup true o d = put_value-lookup o d
  noted-lookup false o d = refl

  pick :
      (o : Option String) (x y : Extracted) (w : Option Setter)
      → lookup j x.values ≡ w
      → lookup j y.values ≡ w
      → lookup j (elim o as (λ _. Extracted) [ none ↦ x | some _ ↦ y ]).values ≡ w
  pick none x y w h k = h
  pick (some s) x y w h k = k

  deny-lookup :
      (v : Option Setter) (e : String) (d : Extracted)
      → lookup j (deny name v e d).values ≡ lookup j d.values
  unfolding deny
  deny-lookup v e d =
      let first_cert = is_cert_error name d in
      let noted : Extracted = if first_cert then put_value name (some (cert_error e)) d else d in
      let kept = noted-lookup first_cert (some (cert_error e)) d in
      pick d.reason (record noted { reason = some e })
        (put_value name (if first_cert then none else v) noted) (lookup j d.values) kept
        (put_value-lookup (if first_cert then none else v) noted ∙ kept)

  refused :
      (v : Option Setter) (e : Error) (d : Extracted)
      → lookup j
          (elim e as (λ _. Extracted) [ Error.denied reason ↦ deny name v reason d | _ ↦ d ]).values
        ≡ lookup j d.values
  refused v (Error.denied reason) d = deny-lookup v reason d
  refused v Error.missing d = refl
  refused v Error.invalid_name d = refl
  refused v Error.invalid_content d = refl
  refused v Error.invalid_configuration d = refl
  refused v Error.other d = refl

  extract_one-lookup :
      (m : Reply Setter) (d : Extracted)
      → lookup j (extract_one (name, m) d).values ≡ lookup j d.values
  unfolding extract_one
  extract_one-lookup m d = elim (Option-cases m.error) [
    | inl fine ↦ rw fine (put_value-lookup m.value d)
    | inr (e, h) ↦ rw h (refused m.value e d)
  ]

extract_all-lookup :
    (j : String) (ps : List Parsed) (d : Extracted)
    → Others j ps
    → lookup j (extract_all ps d).values ≡ lookup j d.values
unfolding extract_all
extract_all-lookup j [] d h = refl
extract_all-lookup j ((name, m) ∷ ps) d h =
    extract_all-lookup j ps (extract_one (name, m) d) h.1 ∙ extract_one-lookup name j h.0 m d

extract_all-append :
    (ps qs : List Parsed) (d : Extracted)
    → extract_all (ps ++ qs) d ≡ extract_all qs (extract_all ps d)
unfolding extract_all
extract_all-append [] qs d = refl
extract_all-append (p ∷ ps) qs d = extract_all-append ps qs (extract_one p d)

answered :
    (name : String) (o : Option Setter) (d : Extracted)
    → lookup name d.values ≡ none
    → lookup name (put_value name o d).values ≡ o
answered name none d h = h
answered name (some v) d h = lookup-store name name v d.values ∙ rw ((==_iff name name).1 refl) refl

-- what a parser that does not deny the location leaves: its value if it answers no error
abbrev pub kept : Reply Setter → Option Setter
kept m = elim m.error [ none ↦ m.value | some e ↦ none ]

after_error :
    (name : String) (v : Option Setter) (e : Error) (d : Extracted)
    → is_denial e ≡ false
    → lookup name d.values ≡ none
    → lookup name
        (elim e as (λ _. Extracted) [ Error.denied reason ↦ deny name v reason d | _ ↦ d ]).values
      ≡ none
after_error name v (Error.denied s) d h k = cc
after_error name v Error.missing d h k = k
after_error name v Error.invalid_name d h k = k
after_error name v Error.invalid_content d h k = k
after_error name v Error.invalid_configuration d h k = k
after_error name v Error.other d h k = k

-- Of parsers with different names, in any order, take one that does not deny the location: if it
-- answers no error, its value is found under its name, and otherwise none, whatever the others
-- answer.
pub extract_all-values :
    (before after : List Parsed) (name : String) (m : Reply Setter)
    → Others name before
    → Others name after
    → is_denied (name, m) ≡ false
    → lookup name
        (extract_all (before ++ (name, m) ∷ after) (record { values = []; reason = none })).values
      ≡ kept m
unfolding extract_all extract_one lookup
extract_all-values before after name m hb ha h = elim (Option-cases m.error) [
  | inl fine ↦ reached ∙ rw fine (answered name m.value (extract_all before start) empty)
  | inr (e, k) ↦
      reached ∙ rw k (after_error name m.value e (extract_all before start) (rw k at h) empty)
]
  where
    start : Extracted
    start = record { values = []; reason = none }

    reached :
        lookup name (extract_all (before ++ (name, m) ∷ after) start).values
        ≡ lookup name (extract_one (name, m) (extract_all before start)).values
    reached =
        ap (λ (d : Extracted). lookup name d.values)
          (extract_all-append before ((name, m) ∷ after) start)
        ∙ extract_all-lookup name after (extract_one (name, m) (extract_all before start)) ha

    empty : lookup name (extract_all before start).values ≡ none
    empty = extract_all-lookup name before start hb
