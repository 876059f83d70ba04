-- ===== src/Common/Strings.antt =====
-- Text as the list of its code points.
use Prim.Native.Nat.{ℕ, zero, suc, ◌+◌, ◌/◌, ◌%◌}
use Prim.Native.Char.{code}
use Prim.Native.String.{String}
use mathlib.Core.List.{List, [], ◌∷◌, ◌++◌}

abbrev pub codes : String → List ℕ
codes String.[] = []
codes (String.◌∷◌ c s) = code c ∷ codes s

abbrev digits : ℕ → ℕ → List ℕ
digits zero n = []
digits (suc fuel) n =
    let rest = digits fuel (n / 10) in
    elim (n / 10) [ zero ↦ (b'0' + n) ∷ [] | suc m ↦ rest ++ ((b'0' + n % 10) ∷ []) ]

-- `Display` of an unsigned integer of at most 64 bits, which has at most 20 digits.
abbrev pub decimal : ℕ → List ℕ
decimal n = digits 20 n
