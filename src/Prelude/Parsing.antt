-- ===== src/Prelude/Parsing.antt =====
-- `strconv.Atoi`, with the value that comes with its error, and the conversion to int32.
use Prim.Native.Nat.{ℕ, zero, suc, ◌+◌, ◌-◌, ◌*◌, ◌^◌, ◌%◌}
use Prim.Native.Char.{code}
use Prim.Native.String.{String}
use mathlib.Core.Bool.{Bool, true, false, ◌||◌}
use mathlib.Core.Path.{◌≡◌}
use native.Mathlib.Omega.{arith}
use panda_k8s.Prelude.Int.{ℤ, pos, negsuc}
use panda_k8s.Prelude.Tests.{nat_eq, ltb, if◌then◌else◌}

-- what the loop of `ParseUint` ends with
pub data Scan : Type 0 where
  syntax range : Scan
  value : ℕ → Scan

scan : String → ℕ → Scan
scan String.[] n = Scan.value n
scan (String.◌∷◌ c s) n =
    let d = code c - b'0' in
    let rest = scan s (n * 10 + d) in
    if ltb (code c) b'0' || ltb b'9' (code c)
    then Scan.syntax
    else if ltb (2 ^ 64 - 1) (n * 10 + d)
    then Scan.range
    else rest

digits : String → Scan
unfolding scan
digits String.[] = Scan.syntax
digits (String.◌∷◌ c s) = scan (String.◌∷◌ c s) 0

pub record Atoi : Type 0 where
  pub number : ℤ
  pub is_error : Bool

abbrev up : Scan → Atoi
up Scan.syntax = record { number = pos 0; is_error = true }
up Scan.range = record { number = pos (2 ^ 63 - 1); is_error = true }
up (Scan.value n) =
    if ltb n (2 ^ 63)
    then record { number = pos n; is_error = false }
    else record { number = pos (2 ^ 63 - 1); is_error = true }

abbrev down : Scan → Atoi
down Scan.syntax = record { number = pos 0; is_error = true }
down Scan.range = record { number = negsuc (2 ^ 63 - 1); is_error = true }
down (Scan.value zero) = record { number = pos 0; is_error = false }
down (Scan.value (suc n)) =
    if ltb n (2 ^ 63)
    then record { number = negsuc n; is_error = false }
    else record { number = negsuc (2 ^ 63 - 1); is_error = true }

unfoldable pub atoi : String → Atoi
unfolding digits
atoi String.[] = up Scan.syntax
atoi (String.◌∷◌ c s) =
    if nat_eq (code c) b'-'
    then down (digits s)
    else if nat_eq (code c) b'+'
    then up (digits s)
    else up (digits (String.◌∷◌ c s))

-- `int32(n)`
unfoldable pub to_int32 : ℤ → ℤ
to_int32 (pos n) = let m = n % 2 ^ 32 in if ltb m (2 ^ 31) then pos m else negsuc (2 ^ 32 - 1 - m)
to_int32 (negsuc n) =
    let m = n % 2 ^ 32 in if ltb m (2 ^ 31) then negsuc m else pos (2 ^ 32 - 1 - m)

-- the range of int32
abbrev pub is_int32 : ℤ → Bool
is_int32 (pos n) = ltb n (2 ^ 31)
is_int32 (negsuc n) = ltb n (2 ^ 31)

pub to_int32_same : (n : ℤ) → is_int32 n ≡ true → to_int32 n ≡ n
unfolding to_int32
to_int32_same (pos n) h = ground arith
to_int32_same (negsuc n) h = ground arith

-- `int64(n)`
unfoldable pub to_int64 : ℤ → ℤ
to_int64 (pos n) = let m = n % 2 ^ 64 in if ltb m (2 ^ 63) then pos m else negsuc (2 ^ 64 - 1 - m)
to_int64 (negsuc n) =
    let m = n % 2 ^ 64 in if ltb m (2 ^ 63) then negsuc m else pos (2 ^ 64 - 1 - m)

-- -n
abbrev negated : ℕ → ℤ
negated zero = pos zero
negated (suc n) = negsuc n

-- the product without a bound
abbrev pub int_mul : ℤ → ℤ → ℤ
int_mul (pos m) (pos n) = pos (m * n)
int_mul (pos m) (negsuc n) = negated (m * suc n)
int_mul (negsuc m) (pos n) = negated (suc m * n)
int_mul (negsuc m) (negsuc n) = pos (suc m * suc n)

-- the range of int64, which `int` is on the machines that the controller is built for
abbrev pub is_int64 : ℤ → Bool
is_int64 (pos n) = ltb n (2 ^ 63)
is_int64 (negsuc n) = ltb n (2 ^ 63)

pub to_int64-bounds : (n : ℤ) → is_int64 (to_int64 n) ≡ true
unfolding to_int64
to_int64-bounds (pos n) = ground arith
to_int64-bounds (negsuc n) = ground arith

pub to_int64_same : (n : ℤ) → is_int64 n ≡ true → to_int64 n ≡ n
unfolding to_int64
to_int64_same (pos n) h = ground arith
to_int64_same (negsuc n) h = ground arith
