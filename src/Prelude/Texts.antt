-- ===== src/Prelude/Texts.antt =====
-- Go's strings are sequences of bytes: lists of numbers, written as literals by `codes`.
use Prim.Native.Nat.{ℕ}
use Prim.Native.Char.{code}
use Prim.Native.String.{String}
use mathlib.Core.List.{List, [], ◌∷◌}

abbrev pub Bytes : Type 0
Bytes = List ℕ

-- The code points of a literal, which are its bytes when it is ASCII.
abbrev pub codes : String → Bytes
codes String.[] = []
codes (String.◌∷◌ c s) = code c ∷ codes s
