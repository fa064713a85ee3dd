-- ===== src/Prelude/Search.antt =====
-- Python's searches in a `str`: `in`, `endswith`, and what stands before a character.
use Prim.Native.Nat.{ℕ}
use Prim.Native.Char.{code}
use Prim.Native.String.{String}
use mathlib.Core.Bool.{Bool, ◌||◌}
use text.Mathlib.Text.{starts_with}
use jove_mage.Prelude.Tests.{◌==◌, str_eq, if◌then◌else◌}

-- fragment in text
unfoldable pub has_part : String → String → Bool
has_part fragment String.[] = str_eq fragment ""
has_part fragment (String.◌∷◌ c text) =
    let rest = has_part fragment text in starts_with (String.◌∷◌ c text) fragment || rest

-- text.endswith(ending)
unfoldable pub ends_with : String → String → Bool
ends_with ending String.[] = str_eq ending ""
ends_with ending (String.◌∷◌ c text) =
    let rest = ends_with ending text in str_eq (String.◌∷◌ c text) ending || rest

-- text.split(mark, 1)[0], for a mark of one character, given by its code.
unfoldable pub before : ℕ → String → String
before mark String.[] = ""
before mark (String.◌∷◌ c text) =
    let rest = before mark text in if code c == mark then "" else String.◌∷◌ c rest

-- text.rstrip(mark)
unfoldable pub rstrip_mark : ℕ → String → String
rstrip_mark mark String.[] = ""
rstrip_mark mark (String.◌∷◌ c text) = elim (rstrip_mark mark text) [
  | String.[] ↦ if code c == mark then "" else String.◌∷◌ c ""
  | String.◌∷◌ d t ↦ String.◌∷◌ c (String.◌∷◌ d t)
]
