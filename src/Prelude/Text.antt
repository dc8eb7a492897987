-- ===== src/Prelude/Text.antt =====
-- Python's `str.strip`, for the white space of ASCII.
use Prim.Native.Char.{Char, code}
use Prim.Native.String.{String}
use mathlib.Core.Bool.{Bool, ◌&&◌, ◌||◌}
use text.Mathlib.Text.{◌==◌ as str_eq}
use agent_notes.Prelude.Tests.{leb, ◌==◌, if◌then◌else◌}

abbrev is_space : Char → Bool
is_space c = code c == 32 || leb 9 (code c) && leb (code c) 13

strip_left : String → String
strip_left String.[] = ""
strip_left (String.◌∷◌ c s) = if is_space c then strip_left s else String.◌∷◌ c s

strip_right : String → String
strip_right String.[] = ""
strip_right (String.◌∷◌ c s) =
    let rest = strip_right s in if is_space c && str_eq rest "" then "" else String.◌∷◌ c rest

unfoldable pub strip : String → String
unfolding strip_left strip_right
strip s = strip_right (strip_left s)
