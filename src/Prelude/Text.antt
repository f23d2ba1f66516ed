-- ===== src/Prelude/Text.antt =====
-- What the source uses of Python's `str` and `int`: decimal and hexadecimal numerals, joining with a
-- separator, and a prefix of some length.
use Prim.Native.Nat.{ℕ, zero, suc, ◌+◌, ◌-◌, ◌*◌, ◌/◌, ◌%◌}
use Prim.Native.Char.{code}
use Prim.Native.String.{String, ◌++◌}
use mathlib.Core.List.{List, [], ◌∷◌}
use llama_agents.Prelude.Tests.{leb, ◌==◌, if◌then◌else◌}

-- One decimal digit.
digit : ℕ → String
digit zero = "0"
digit (suc zero) = "1"
digit (suc (suc zero)) = "2"
digit (suc (suc (suc zero))) = "3"
digit (suc (suc (suc (suc zero)))) = "4"
digit (suc (suc (suc (suc (suc zero))))) = "5"
digit (suc (suc (suc (suc (suc (suc zero)))))) = "6"
digit (suc (suc (suc (suc (suc (suc (suc zero))))))) = "7"
digit (suc (suc (suc (suc (suc (suc (suc (suc zero)))))))) = "8"
digit (suc (suc (suc (suc (suc (suc (suc (suc (suc _))))))))) = "9"

-- The digits of `n` before `out`; a number has at most as many digits as its successor.
digits : ℕ → ℕ → String → String
digits zero n out = out
digits (suc fuel) n out =
    let out' = digit (n % 10) ++ out in
    let rest = digits fuel (n / 10) out' in if n / 10 == 0 then out' else rest

-- `str(n)`
unfoldable pub decimal : ℕ → String
unfolding digit digits
decimal n = digits (suc n) n ""

-- `sep.join(parts)`
unfoldable pub join : String → List String → String
join sep [] = ""
join sep (s ∷ []) = s
join sep (s ∷ t ∷ rest) = s ++ (sep ++ join sep (t ∷ rest))

-- `s[:n]`
unfoldable pub prefix : ℕ → String → String
prefix zero s = String.[]
prefix (suc n) String.[] = String.[]
prefix (suc n) (String.◌∷◌ c s) = String.◌∷◌ c (prefix n s)

-- The value of one lower-case hexadecimal digit.
hex_digit : ℕ → ℕ
hex_digit c = if leb c b'9' then c - b'0' else c + 10 - b'a'

hex_from : ℕ → String → ℕ
hex_from acc String.[] = acc
hex_from acc (String.◌∷◌ c s) = hex_from (acc * 16 + hex_digit (code c)) s

-- `int(s, 16)` of a lower-case hexadecimal digest
unfoldable pub parse_hex : String → ℕ
unfolding hex_digit hex_from
parse_hex s = hex_from 0 s
