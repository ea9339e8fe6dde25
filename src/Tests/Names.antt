-- ===== src/Tests/Names.antt =====
-- `ParseNameNS`.
use panda_k8s.Names.{parse_name_ns, with_slash, parse_name_ns_iff}
use panda_k8s.Prelude.{contains_char, split, false, ◌≡◌, refl, ◌↔◌, none, some}

-- a second slash is an error
two_slashes_run : parse_name_ns "a/b/c" ≡ none
unfolding parse_name_ns split
two_slashes_run = refl

parse_name_ns_iff_example : (parse_name_ns "default/web" ≡ some ("default", "web")) ↔ (
    ("default/web" ≡ with_slash "default" "web")
    × (contains_char "default" b'/' ≡ false)
    × (contains_char "web" b'/' ≡ false))
parse_name_ns_iff_example = parse_name_ns_iff "default/web" "default" "web"
