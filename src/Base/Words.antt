-- ===== src/Base/Words.antt =====
-- The words of a line, as `strtok(line, " \n")` cuts it, which both command loops of the repository do.
use Prim.Native.Nat.{ℕ}
use mathlib.Core.Bool.{Bool, true, false, ◌||◌}
use mathlib.Core.List.{List, [], ◌∷◌, ◌++◌}
use ece.Base.Tests.{◌==◌, if◌then◌else◌}
use ece.Base.Str.{Bytes}

unfoldable pub is_delimiter : ℕ → Bool
is_delimiter c = c == b' ' || c == b'\n'

-- The tokens of a line; the first argument is the token that is being read.
unfoldable pub tokens : Bytes → Bytes → List Bytes
unfolding is_delimiter
tokens [] [] = []
tokens (w ∷ word) [] = (w ∷ word) ∷ []
tokens [] (c ∷ line) = tokens (if is_delimiter c then [] else c ∷ []) line
tokens (w ∷ word) (c ∷ line) = elim (is_delimiter c) [
  | true ↦ (w ∷ word) ∷ tokens [] line
  | false ↦ tokens ((w ∷ word) ++ c ∷ []) line
]
