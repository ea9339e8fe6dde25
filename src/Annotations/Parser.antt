-- ===== src/Annotations/Parser.antt =====
-- internal/ingress/annotations/parser/main.go and internal/ingress/errors/errors.go: the value of
-- one annotation. The prefix of the annotations is a variable of the code, and a parameter here.
pub mod References
use Prim.Native.Char.{char}
use panda_k8s.Prelude.{
  String, text_append, Bool, true, false, ◌||◌, ◌==◌, List, [], ◌∷◌, none, some, lookup, map, ℤ,
  if◌then◌else◌, is_empty, split, join, trim_space, atoi,
}

-- what an annotation is refused for; `other` is an error of another package or of `fmt.Errorf`
pub data Error : Type 0 where
  missing invalid_name invalid_content invalid_configuration other : Error
  denied : String → Error

-- a value without an error, or an error
pub data Found (A : Type 0) : Type 0 where
  value : A → Found A
  failed : Error → Found A

-- the value that stands in where there is an error
abbrev pub or_default : {A : Type 0} → A → Found A → A
or_default d (Found.value a) = a
or_default d (Found.failed e) = d

-- `IsMissingAnnotations`
abbrev pub is_missing : {A : Type 0} → Found A → Bool
is_missing (Found.failed Error.missing) = true
is_missing _ = false

-- the Boolean that comes with the error
abbrev pub is_enabled : Found Bool → Bool
is_enabled f = or_default false f

-- `strconv.ParseBool`
unfoldable pub parse_bool : String → Found Bool
parse_bool s =
    if s == "1" || s == "t" || s == "T" || s == "true" || s == "TRUE" || s == "True"
    then Found.value true
    else if s == "0" || s == "f" || s == "F" || s == "false" || s == "FALSE" || s == "False"
    then Found.value false
    else Found.failed Error.invalid_content

-- `normalizeString`
unfoldable pub normalize_string : String → String
unfolding split trim_space
normalize_string s = join (char 10 tt) (map trim_space (split 10 s))

-- the end of `parseString`
unfoldable pub parse_string : String → Found String
unfolding normalize_string
parse_string s =
    let t = normalize_string s in
    if is_empty t then Found.failed Error.invalid_content else Found.value t

-- the end of `parseInt`
unfoldable pub parse_int : String → Found ℤ
unfolding atoi
parse_int s =
    let n = atoi s in
    if n.is_error then Found.failed Error.invalid_content else Found.value n.number

-- `GetAnnotationWithPrefix`
abbrev pub with_prefix : String → String → String
with_prefix prefix name = text_append prefix (text_append "/" name)

-- `checkAnnotation`, and the look into the map that each `parse` function starts with
unfoldable pub get_annotation :
    {A : Type 0} → (String → Found A) → String → String → List (String × String) → Found A
get_annotation parse prefix name [] = Found.failed Error.missing
get_annotation parse prefix name (a ∷ annotations) =
    let v = with_prefix prefix name in
    if is_empty v then Found.failed Error.invalid_name else elim (lookup v (a ∷ annotations)) [
      | none ↦ Found.failed Error.missing
      | some val ↦ parse val
    ]

-- `GetBoolAnnotation`, on the annotations of an Ingress
unfoldable pub get_bool_annotation : String → String → List (String × String) → Found Bool
unfolding parse_bool get_annotation
get_bool_annotation = get_annotation parse_bool

-- `GetStringAnnotation`
unfoldable pub get_string_annotation : String → String → List (String × String) → Found String
unfolding parse_string get_annotation
get_string_annotation = get_annotation parse_string

-- `GetIntAnnotation`
unfoldable pub get_int_annotation : String → String → List (String × String) → Found ℤ
unfolding parse_int get_annotation
get_int_annotation = get_annotation parse_int
