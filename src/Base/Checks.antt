-- ===== src/Base/Checks.antt =====
-- Tests that decide, at concrete texts, the predicates that theorems ask for.
use Prim.Native.Nat.{ℕ}
use mathlib.Core.Path.{◌≡◌}
use mathlib.Core.Bool.{Bool, true, not, ◌&&◌}
use mathlib.Core.List.{[], ◌∷◌}
use native.Mathlib.Omega.{arith}
use web_library.Base.Tests.{◌==◌}
use web_library.Base.Text.{Bytes, Lacks}

abbrev pub lacks : ℕ → Bytes → Bool
lacks b [] = true
lacks b (c ∷ s) = not (c == b) && lacks b s

pub lacks_sound : (b : ℕ) (s : Bytes) → lacks b s ≡ true → Lacks b s
lacks_sound b [] h = tt
lacks_sound b (c ∷ s) h = (ground arith, lacks_sound b s (ground arith))
