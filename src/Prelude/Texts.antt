-- ===== src/Prelude/Texts.antt =====
-- Texts: `+`, and their order by Python's `<=`.
use Prim.Native.Char.{code}
use Prim.Native.String
use Prim.Native.String.{String}
use mathlib.Core.Bool.{Bool, true, false}
use Prim.Native.Nat.{ℕ, zero, suc}
use axcalib.Prelude.Tests.{ltb, nat_beq, if◌then◌else◌}

infixr 65 ◌+++◌
abbrev pub ◌+++◌ : String → String → String
a +++ b = String.◌++◌ a b

-- `<=` by code points.
unfoldable pub text_leb : String → String → Bool
text_leb String.[] b = true
text_leb (String.◌∷◌ x a) String.[] = false
text_leb (String.◌∷◌ x a) (String.◌∷◌ y b) =
    let rest = text_leb a b in if nat_beq (code x) (code y) then rest else ltb (code x) (code y)

-- At most `n` characters.
unfoldable pub fits : ℕ → String → Bool
fits n String.[] = true
fits zero (String.◌∷◌ c s) = false
fits (suc n) (String.◌∷◌ c s) = fits n s
