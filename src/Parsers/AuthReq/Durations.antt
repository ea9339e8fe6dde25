-- ===== src/Parsers/AuthReq/Durations.antt =====
-- internal/ingress/annotations/authreq/main.go: the durations for which an answer is kept.
use Prim.Native.Char.{code}
use Prim.Native.String.{String}
use panda_k8s.Annotations.Parser.{Error}
use panda_k8s.Parsers.{Reply, answer, refuse_with}
use panda_k8s.Prelude.{
  text_append, Bool, true, false, ◌&&◌, ◌||◌, ◌==◌, nat_eq, List, [], ◌∷◌, ◌++◌, split, trim_space,
  is_empty, is_digit, all_chars, byte_length, if◌then◌else◌, ◌≡◌, arith,
}

-- `statusCodeRegex`: three digits
unfoldable pub is_status_code : String → Bool
unfolding all_chars
is_status_code s = nat_eq (byte_length s) 3 && all_chars is_digit s

abbrev is_unit : String → Bool
is_unit s =
    s == "ms" || s == "s" || s == "m" || s == "h" || s == "d" || s == "w" || s == "M" || s == "y"

-- `(digits)*(ms|s|m|h|d|w|M|y)$`
unfoldable pub ends_in_unit : String → Bool
ends_in_unit String.[] = false
ends_in_unit (String.◌∷◌ c s) =
    if is_digit (code c) then ends_in_unit s else is_unit (String.◌∷◌ c s)

-- `durationRegex`: a digit at least, and a unit
unfoldable pub is_duration : String → Bool
unfolding ends_in_unit
is_duration String.[] = false
is_duration (String.◌∷◌ c s) = is_digit (code c) && ends_in_unit s

-- the loop of `ValidCacheDuration`
unfoldable pub valid_elements : List String → Bool → Bool
unfolding is_status_code is_duration
valid_elements [] seen = seen
valid_elements (e ∷ es) seen =
    let skipped = valid_elements es seen in
    let found = valid_elements es true in
    if is_empty e
    then skipped
    else if is_status_code e
    then (if seen then false else skipped)
    else if is_duration e
    then found
    else skipped

-- `ValidCacheDuration`
unfoldable pub valid_cache_duration : String → Bool
unfolding valid_elements split
valid_cache_duration duration = valid_elements (split b' ' duration) false

abbrev pub def_cache_duration : String
def_cache_duration = "200 202 401 5m"

abbrev invalid_duration : String → Error
invalid_duration d =
    Error.denied (text_append "Location denied, reason: invalid cache duration: " d)

abbrev pub or_def_duration : List String → List String
or_def_duration [] = def_cache_duration ∷ []
or_def_duration (d ∷ ds) = d ∷ ds

-- the loop of `ParseStringToCacheDurations`, with the durations so far
unfoldable pub durations_of : List String → List String → Reply (List String)
unfolding valid_cache_duration trim_space
durations_of [] durations = answer (or_def_duration durations)
durations_of (w ∷ ws) durations =
    let d = trim_space w in
    let skipped = durations_of ws durations in
    let added = durations_of ws (durations ++ d ∷ []) in
    if is_empty d
    then skipped
    else if valid_cache_duration d
    then added
    else refuse_with (def_cache_duration ∷ []) (invalid_duration d)

-- `ParseStringToCacheDurations`
unfoldable pub parse_string_to_cache_durations : String → Reply (List String)
unfolding durations_of split
parse_string_to_cache_durations input =
    if is_empty input then answer (or_def_duration []) else durations_of (split b',' input) []

-- An element that is no status code and no duration is passed over, wherever it stands: the text is
-- valid with it exactly if it is valid without.
pub valid_elements_foreign :
    (es fs : List String) (e : String) (seen : Bool)
    → is_status_code e ≡ false
    → is_duration e ≡ false
    → valid_elements (es ++ e ∷ fs) seen ≡ valid_elements (es ++ fs) seen
unfolding valid_elements
valid_elements_foreign [] fs e seen c d = ground (arith, c, d)
valid_elements_foreign (x ∷ es) fs e seen c d =
    ground (arith, valid_elements_foreign es fs e seen c d, valid_elements_foreign es fs e true c d)
