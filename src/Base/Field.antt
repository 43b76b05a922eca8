-- ===== src/Base/Field.antt =====
-- The loop that every parser of the repository uses to cut a field off at a colon.
use Prim.Native.Nat.{ℕ, zero, suc, ◌<◌}
use mathlib.Core.Path.{◌≡◌, refl}
use mathlib.Core.Option.{Option, none, some}
use mathlib.Core.List.{[], ◌∷◌, ◌++◌}
use native.Mathlib.Omega.{arith}
use ece.Base.Tests.{◌==◌, if◌then◌else◌, ◌>>=◌}
use ece.Base.Lists.{length}
use ece.Base.Str.{Bytes, Lacks}

-- `while (buffer[count] != ':')`: the field, in an array of `cap` bytes with its NUL, and what
-- stands behind the colon.
unfoldable pub take_field : ℕ → Bytes → Option (Bytes × Bytes)
take_field cap [] = none
take_field zero (c ∷ s) = none
take_field (suc cap) (c ∷ s) =
    let rest = take_field cap s in
    if c == b':' then some ([], s) else rest >>= λ r. some (c ∷ r.0, r.1)

pub take_field-append :
    (cap : ℕ) (f rest : Bytes)
    → Lacks b':' f
    → length f < cap
    → take_field cap (f ++ b':' ∷ rest) ≡ some (f, rest)
unfolding take_field
take_field-append zero f rest h n = absurd (omega arith)
take_field-append (suc cap) [] rest h n = refl
take_field-append (suc cap) (c ∷ f) rest h n =
    ground (arith, take_field-append cap f rest h.1 (omega arith))

-- Without a colon the loop runs out of its array, or out of the text.
pub take_field_missing : (cap : ℕ) (s : Bytes) → Lacks b':' s → take_field cap s ≡ none
unfolding take_field
take_field_missing cap [] h = refl
take_field_missing zero (c ∷ s) h = refl
take_field_missing (suc cap) (c ∷ s) h = ground (arith, take_field_missing cap s h.1)
