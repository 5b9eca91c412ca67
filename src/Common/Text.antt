-- ===== src/Common/Text.antt =====
-- Texts of the sources as lists of bytes.
use Prim.Native.Nat.{ℕ}
use Prim.Native.Char.{code}
use Prim.Native.String.{String}
use mathlib.Core.List.{List, [], ◌∷◌}

-- A literal's bytes; all literals of the sources are ASCII.
abbrev pub bytes : String → List ℕ
bytes String.[] = []
bytes (String.◌∷◌ c rest) = code c ∷ bytes rest
