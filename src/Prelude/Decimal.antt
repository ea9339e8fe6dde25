-- ===== src/Prelude/Decimal.antt =====
-- `strconv.Itoa`, and `fmt`'s `%v` and `%d` of an integer.
use Prim.Native.Nat.{ℕ, zero, suc, ◌/◌, ◌%◌}
use Prim.Native.String.{String, ◌++◌}
use panda_k8s.Prelude.Int.{ℤ, pos, negsuc}
use panda_k8s.Prelude.Tests.{ltb, if◌then◌else◌}

digit : ℕ → String
digit zero = "0"
digit (suc zero) = "1"
digit (suc (suc zero)) = "2"
digit (suc (suc (suc zero))) = "3"
digit (suc (suc (suc (suc zero)))) = "4"
digit (suc (suc (suc (suc (suc zero))))) = "5"
digit (suc (suc (suc (suc (suc (suc zero)))))) = "6"
digit (suc (suc (suc (suc (suc (suc (suc zero))))))) = "7"
digit (suc (suc (suc (suc (suc (suc (suc (suc zero)))))))) = "8"
digit _ = "9"

-- A number below 10 to the power of the fuel has as many digits at most: `suc n` is enough for `n`.
decimal : ℕ → ℕ → String
unfolding digit
decimal zero n = ""
decimal (suc fuel) n =
    let higher = decimal fuel (n / 10) in if ltb n 10 then digit n else higher ++ digit (n % 10)

unfoldable pub itoa : ℤ → String
unfolding decimal
itoa (pos n) = decimal (suc n) n
itoa (negsuc n) = "-" ++ decimal (suc (suc n)) (suc n)
