-- ===== src/Parsers/Extract/Denials.antt =====
-- internal/ingress/annotations/annotations.go: which Ingresses are denied, whatever the order in
-- which the parsers are visited.
use panda_k8s.Annotations.Parser.{Error}
use panda_k8s.Parsers.Extract.{
  Setter, Parsed, Extracted, put_value, deny, extract_one, extract_all, is_cert_error, cert_error,
}
use panda_k8s.Prelude.{
  String, Bool, true, false, ◌||◌, List, [], ◌∷◌, Option, none, some, any, ◌≡◌, refl, ap, ◌∙◌,
  if◌then◌else◌, arith, Option-cases, inl, inr,
}

abbrev pub is_some : {A : Type 0} → Option A → Bool
is_some none = false
is_some (some a) = true

-- `IsLocationDenied`
abbrev pub is_denial : Error → Bool
is_denial e = elim e [ Error.denied reason ↦ true | _ ↦ false ]

-- the parser denies the location
abbrev pub is_denied : Parsed → Bool
is_denied (name, m) = elim m.error [ none ↦ false | some e ↦ is_denial e ]

put_value-reason :
    (name : String) (o : Option Setter) (d : Extracted) → (put_value name o d).reason ≡ d.reason
put_value-reason name none d = refl
put_value-reason name (some v) d = refl

noted-reason :
    (b : Bool) (name : String) (o : Option Setter) (d : Extracted)
    → (if b then put_value name o d else d).reason ≡ d.reason
noted-reason true name o d = put_value-reason name o d
noted-reason false name o d = refl

pick :
    (o : Option String) (x y : Extracted)
    → is_some x.reason ≡ true
    → y.reason ≡ o
    → is_some (elim o as (λ _. Extracted) [ none ↦ x | some _ ↦ y ]).reason ≡ true
pick none x y h k = h
pick (some s) x y h k = rw k refl

deny-reason :
    (name : String) (v : Option Setter) (e : String) (d : Extracted)
    → is_some (deny name v e d).reason ≡ true
unfolding deny
deny-reason name v e d =
    let first_cert = is_cert_error name d in
    let noted : Extracted = if first_cert then put_value name (some (cert_error e)) d else d in
    pick d.reason (record noted { reason = some e })
      (put_value name (if first_cert then none else v) noted) refl
      (put_value-reason name (if first_cert then none else v) noted
        ∙ noted-reason first_cert name (some (cert_error e)) d)

extract_one-reason :
    (p : Parsed) (d : Extracted)
    → is_some (extract_one p d).reason ≡ (is_denied p || is_some d.reason)
unfolding extract_one
extract_one-reason (name, m) d = elim (Option-cases m.error) [
  | inl fine ↦ rw fine (ap is_some (put_value-reason name m.value d))
  | inr (e, h) ↦ rw h (one e)
]
  where
    one :
        (e : Error)
        → is_some
            (elim e as (λ _. Extracted) [
              | Error.denied reason ↦ deny name m.value reason d
              | _ ↦ d
            ]).reason
          ≡ (elim e as (λ _. Bool) [ Error.denied reason ↦ true | _ ↦ false ] || is_some d.reason)
    one (Error.denied reason) = deny-reason name m.value reason d
    one Error.missing = refl
    one Error.invalid_name = refl
    one Error.invalid_content = refl
    one Error.invalid_configuration = refl
    one Error.other = refl

-- Whatever the order in which the parsers are visited: the location is denied exactly if it was, or
-- one of the parsers denies it.
pub extract_all_denied :
    (ps : List Parsed) (d : Extracted)
    → is_some (extract_all ps d).reason ≡ (is_some d.reason || any is_denied ps)
unfolding extract_all
extract_all_denied [] d = ground arith
extract_all_denied (p ∷ ps) d =
    extract_all_denied ps (extract_one p d) ∙ ground (arith, extract_one-reason p d)
