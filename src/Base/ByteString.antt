-- ===== src/Base/ByteString.antt =====
-- Byte strings: `std::string` and `ByteVector` are both lists of numbers below 256.
use Prim.Native.Nat.{ℕ, ◌<◌}
use Prim.Native.Char.{code}
use Prim.Native.String.{String}
use mathlib.Core.Path.{◌≡◌, refl}
use mathlib.Core.Logic.{◌↔◌}
use mathlib.Core.Bool.{Bool, true, false, ◌&&◌}
use mathlib.Core.List.{List, [], ◌∷◌}
use native.Mathlib.Omega.{arith}
use cpp_data_protection_core.Base.Tests.{◌==◌}
use cpp_data_protection_core.Base.Lists.{All}

abbrev pub Bytes : Type 0
Bytes = List ℕ

abbrev pub IsByte : ℕ → Type 0
IsByte b = b < 256

abbrev pub IsBytes : Bytes → Type 0
IsBytes = All IsByte

-- The bytes of an ASCII literal.
abbrev pub codes : String → Bytes
codes String.[] = []
codes (String.◌∷◌ c s) = code c ∷ codes s

-- `==` on `std::string`.
unfoldable pub equal : Bytes → Bytes → Bool
equal [] [] = true
equal (x ∷ a) (y ∷ b) = (x == y) && equal a b
equal _ _ = false

-- The comparison decides equality.
pub equal_iff : (v w : Bytes) → (equal v w ≡ true) ↔ (v ≡ w)
unfolding equal
equal_iff [] w = ground arith
equal_iff (c ∷ v) [] = ground arith
equal_iff (c ∷ v) (d ∷ w) = ground (arith, equal_iff v w)

pub equal_refl : (a : Bytes) → equal a a ≡ true
equal_refl a = (equal_iff a a).1 refl
