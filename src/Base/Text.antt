-- ===== src/Base/Text.antt =====
-- Texts, read character by character.
use Prim.Native.Char.{code}
use Prim.Native.Nat.{ℕ, suc}
use Prim.Native.String.{String, [], ◌∷◌}
use mathlib.Core.Bool.{Bool, true, ◌&&◌}
use mathlib.Core.List.{List}
use flick_drop.Base.Tests.{leb}

abbrev pub str_length : String → ℕ
str_length [] = 0
str_length (c ∷ s) = suc (str_length s)

abbrev pub codes : String → List ℕ
codes [] = List.[]
codes (c ∷ s) = List.◌∷◌ (code c) (codes s)

-- Printable ASCII.
unfoldable pub is_printable : String → Bool
is_printable [] = true
is_printable (c ∷ s) = leb 32 (code c) && leb (code c) 126 && is_printable s
