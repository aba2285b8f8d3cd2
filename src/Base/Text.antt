-- ===== src/Base/Text.antt =====
-- Texts as Python uses them here: equality, membership in a tuple, and `in` between two texts.
use Prim.Native.Char.{code}
use Prim.Native.String.{String}
use phyllonix.Base.{ℕ, Bool, true, false, ◌&&◌, ◌||◌, List, [], ◌∷◌, ◌==◌}

abbrev pub codes : String → List ℕ
codes String.[] = []
codes (String.◌∷◌ c s) = code c ∷ codes s

pub starts : List ℕ → List ℕ → Bool
starts [] ys = true
starts (x ∷ xs) [] = false
starts (x ∷ xs) (y ∷ ys) = x == y && starts xs ys

-- `x in y` for texts: x stands somewhere in y; the empty text stands everywhere.
pub within : List ℕ → List ℕ → Bool
unfolding starts
within xs [] = starts xs []
within xs (y ∷ ys) = starts xs (y ∷ ys) || within xs ys

unfoldable pub is_substring : String → String → Bool
unfolding within
is_substring s t = within (codes s) (codes t)
