-- ===== src/Parsers/Cors/Characters.antt =====
-- internal/ingress/annotations/cors/main.go: the characters of the texts that its regular expressions
-- accept.
use Prim.Native.Char.{Char, code}
use Prim.Native.String.{String}
use panda_k8s.Parsers.Cors.{
  is_host_char, is_port, is_host, after_text, is_pattern, after_http, is_url, is_origin, Place,
  is_blank, listing, is_header_char,
}
use panda_k8s.Prelude.{
  ℕ, nat_eq, is_digit, is_letter, all_chars, contains_char, is_empty, ◌&&◌, ◌||◌, ◌==◌, ==_iff,
  Bool, true, false, ◌≡◌, refl, sym, subst, ◌∙◌, nat_eq_iff, Bool-cases, inl, inr, arith,
}

-- A character of names, of addresses or between the items of a list.
abbrev pub is_safe : ℕ → Bool
is_safe n =
    is_letter n
    || is_digit n
    || is_blank n
    || nat_eq n b'-'
    || nat_eq n b'_'
    || nat_eq n b'.'
    || nat_eq n b':'
    || nat_eq n b'/'
    || nat_eq n b'*'
    || nat_eq n b','

-- a word with safe characters only
abbrev pub Within : (ℕ → Bool) → Type 0
Within w = (n : ℕ) → w n ≡ true → is_safe n ≡ true

pub letter-Within : Within is_letter
letter-Within n h = rw h refl

digit-Within : Within is_digit
digit-Within n h = rw h (ground arith)

host_char-Within : Within is_host_char
host_char-Within n h = ground arith

colon-Within : Within (λ n. nat_eq n b':')
colon-Within n h = ground arith

pub header_char-Within : Within is_header_char
header_char-Within n h = ground arith

blank-Within : Within is_blank
blank-Within n h = ground arith

pub star-Within : Within (λ n. is_header_char n || nat_eq n b'*')
star-Within n h = ground arith

comma-Within : Within (λ n. nat_eq n b',')
comma-Within n h = ground arith

module _ (x : ℕ) (unsafe : is_safe x ≡ false) where
  apart : (w : ℕ → Bool) (n : ℕ) → Within w → w n ≡ true → nat_eq n x ≡ false
  apart w n safe h = elim (Bool-cases (nat_eq n x)) [
    | inl same ↦
        absurd (clash (subst (λ (m : ℕ). is_safe m ≡ true) ((nat_eq_iff n x).0 same) (safe n h)))
    | inr other ↦ other
  ]
    where
      clash : is_safe x ≡ true → ⊥
      clash k = absurd (cc (sym unsafe ∙ k))

  pub is_not : (n : ℕ) → is_safe n ≡ true → nat_eq n x ≡ false
  is_not n h = apart is_safe n (λ m k. k) h

  parts : (a b : Bool) → (a && b) ≡ true → (a ≡ true) × (b ≡ true)
  parts a b h = ground (arith, h)

  empty_safe : (s : String) → is_empty s ≡ true → contains_char s x ≡ false
  empty_safe String.[] h = refl
  empty_safe (String.◌∷◌ c s) h = cc

  digits_safe : (s : String) → all_chars is_digit s ≡ true → contains_char s x ≡ false
  unfolding all_chars
  digits_safe String.[] h = refl
  digits_safe (String.◌∷◌ c s) h = elim (Bool-cases (is_digit (code c))) [
    | inl d ↦ rw (apart is_digit (code c) digit-Within d) (digits_safe s (rw d at h))
    | inr d ↦ cc (rw d at h)
  ]

  port_safe : (s : String) → is_port s ≡ true → contains_char s x ≡ false
  unfolding is_port
  port_safe String.[] h = refl
  port_safe (String.◌∷◌ c s) h = elim (Bool-cases (nat_eq (code c) b':')) [
    | inl d ↦
        rw (apart (λ n. nat_eq n b':') (code c) colon-Within d)
          (digits_safe s (ground (arith, h, d)))
    | inr d ↦ cc (rw d at h)
  ]

  host_safe : (s : String) → is_host s ≡ true → contains_char s x ≡ false
  unfolding is_host
  host_safe String.[] h = refl
  host_safe (String.◌∷◌ c s) h = elim (Bool-cases (is_host_char (code c))) [
    | inl d ↦ rw (apart is_host_char (code c) host_char-Within d) (host_safe s (rw d at h))
    | inr d ↦ port_safe (String.◌∷◌ c s) (rw d at h)
  ]

  -- what a match says of a text
  abbrev pub IsSafeFor : (String → Bool) → Type 0
  IsSafeFor p = (s : String) → p s ≡ true → contains_char s x ≡ false

  after_text_safe :
      (p : String) (follows : String → Bool)
      → all_chars is_safe p ≡ true
      → IsSafeFor follows
      → IsSafeFor (after_text p follows)
  unfolding after_text all_chars
  after_text_safe String.[] follows a f s h = f s h
  after_text_safe (String.◌∷◌ d p) follows a f String.[] h = cc
  after_text_safe (String.◌∷◌ d p) follows a f (String.◌∷◌ c s) h =
      let (first, a') = parts (is_safe (code d)) (all_chars is_safe p) a in
      let (same, h') = parts (nat_eq (code c) (code d)) (after_text p follows s) h in
      rw ((nat_eq_iff (code c) (code d)).0 same, is_not (code d) first)
        (after_text_safe p follows a' f s h')

  either_safe : (p q : String → Bool) → IsSafeFor p → IsSafeFor q → IsSafeFor (λ s. p s || q s)
  either_safe p q f g s h = elim (Bool-cases (p s)) [ inl d ↦ f s d | inr d ↦ g s (rw d at h) ]

  pattern_safe : IsSafeFor is_pattern
  unfolding is_pattern all_chars
  pattern_safe =
      either_safe (after_text "*." is_host) is_host (after_text_safe "*." is_host refl host_safe)
        host_safe

  http_safe : IsSafeFor after_http
  unfolding after_http all_chars
  http_safe =
      either_safe (after_text "s://" is_pattern) (after_text "://" is_pattern)
        (after_text_safe "s://" is_pattern refl pattern_safe)
        (after_text_safe "://" is_pattern refl pattern_safe)

  url_safe : IsSafeFor is_url
  unfolding is_url all_chars
  url_safe = after_text_safe "http" after_http refl http_safe

  pub origin_safe : IsSafeFor is_origin
  unfolding is_origin
  origin_safe s h = elim (Bool-cases (is_empty s)) [
    | inl d ↦ empty_safe s d
    | inr d ↦ elim (Bool-cases (s == "*")) [
      | inl star ↦ rw ((==_iff s "*").0 star) (rw (is_not b'*' refl) refl)
      | inr other ↦ url_safe s (rw (d, other) at h)
    ]
  ]

  listing_step :
      (w : ℕ → Bool) (p : Place) (c : Char) (s : String)
      → Within w
      → listing w p (String.◌∷◌ c s) ≡ true
      → (is_safe (code c) ≡ true) × ((q : Place) × (listing w q s ≡ true))
  unfolding listing
  listing_step w p c s safe h = elim (Bool-cases (w (code c))) [
    | inl d ↦ (safe (code c) d, (Place.word, at_word p h d))
    | inr d ↦ behind p h d
  ]
    where
      at_word :
          (p : Place)
          → listing w p (String.◌∷◌ c s) ≡ true
          → w (code c) ≡ true
          → listing w Place.word s ≡ true
      at_word Place.start h d = rw d at h
      at_word Place.word h d = rw d at h
      at_word Place.comma h d = rw d at h
      at_word Place.space h d = rw d at h

      behind :
          (p : Place)
          → listing w p (String.◌∷◌ c s) ≡ true
          → w (code c) ≡ false
          → (is_safe (code c) ≡ true) × ((q : Place) × (listing w q s ≡ true))
      behind Place.start h d = cc (rw d at h)
      behind Place.space h d = cc (rw d at h)
      behind Place.comma h d = elim (Bool-cases (is_blank (code c))) [
        | inl b ↦ (blank-Within (code c) b, (Place.space, rw b at (rw d at h)))
        | inr b ↦ cc (rw b at (rw d at h))
      ]
      behind Place.word h d = elim (Bool-cases (nat_eq (code c) b',')) [
        | inl k ↦ (comma-Within (code c) k, (Place.comma, rw k at (rw d at h)))
        | inr k ↦ elim (Bool-cases (is_blank (code c))) [
          | inl b ↦ (blank-Within (code c) b, (Place.space, rw b at (rw k at (rw d at h))))
          | inr b ↦ cc (rw b at (rw k at (rw d at h)))
        ]
      ]

  pub listing_safe : (w : ℕ → Bool) (p : Place) → Within w → IsSafeFor (listing w p)
  listing_safe w p safe String.[] h = refl
  listing_safe w p safe (String.◌∷◌ c s) h =
      let (first, (q, rest)) = listing_step w p c s safe h in
      rw (is_not (code c) first) (listing_safe w q safe s rest)

  pub all_safe : (s : String) → all_chars is_safe s ≡ true → contains_char s x ≡ false
  unfolding all_chars
  all_safe String.[] h = refl
  all_safe (String.◌∷◌ c s) h =
      let (first, rest) = parts (is_safe (code c)) (all_chars is_safe s) h in
      rw (is_not (code c) first) (all_safe s rest)
