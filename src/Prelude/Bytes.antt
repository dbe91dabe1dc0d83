-- ===== src/Prelude/Bytes.antt =====
-- NUL-terminated C strings as the bytes before the NUL, `strcmp` as a test for equality, text
-- literals, and the decimal digits that `%zu` and `%d` print.
use Prim.Native.Char.{code}
use Prim.Native.Nat.{ℕ, zero, suc, ◌+◌, ◌/◌, ◌%◌}
use Prim.Native.String.{String}
use mathlib.Core.Path.{◌≡◌, refl}
use mathlib.Core.Logic.{◌↔◌}
use mathlib.Core.Bool.{Bool, true, false, ◌&&◌}
use mathlib.Core.List.{List, [], ◌∷◌}
use native.Mathlib.Omega.{arith}
use c2sql.Prelude.Tests.{◌==◌, ltb, if◌then◌else◌}

abbrev pub CStr : Type 0
CStr = List ℕ

-- strcmp(a, b) == 0
unfoldable pub str_eq : CStr → CStr → Bool
str_eq [] [] = true
str_eq (a ∷ s) (b ∷ t) = a == b && str_eq s t
str_eq _ _ = false

pub str_eq_iff : (s t : CStr) → (str_eq s t ≡ true) ↔ (s ≡ t)
unfolding str_eq
str_eq_iff [] [] = ground arith
str_eq_iff [] (b ∷ t) = ground arith
str_eq_iff (a ∷ s) [] = ground arith
str_eq_iff (a ∷ s) (b ∷ t) = ground (arith, str_eq_iff s t)

pub str_eq_refl : (s : CStr) → str_eq s s ≡ true
str_eq_refl s = (str_eq_iff s s).1 refl

-- A string literal.
unfoldable pub lit : String → CStr
lit String.[] = []
lit (String.◌∷◌ c s) = code c ∷ lit s

-- The decimal digits of `n` in front of `acc`; `suc n` rounds are enough, since `n / 10 < n`.
unfoldable pub digits_before : ℕ → ℕ → CStr → CStr
digits_before zero n acc = acc
digits_before (suc fuel) n acc =
    let digit = 48 + n % 10 in
    let rest = digits_before fuel (n / 10) (digit ∷ acc) in if ltb n 10 then digit ∷ acc else rest

unfoldable pub decimal : ℕ → CStr
unfolding digits_before
decimal n = digits_before (suc n) n []
