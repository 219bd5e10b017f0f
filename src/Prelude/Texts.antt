-- ===== src/Prelude/Texts.antt =====
-- `str.strip` of Python, and tests on texts.
use Prim.Native.Char.{Char, code}
use Prim.Native.String.{String}
use mathlib.Core.Path.{◌≡◌, refl}
use mathlib.Core.Bool.{Bool, ◌&&◌, ◌||◌}
use mathlib.Core.List.{List, [], ◌∷◌}
use text.Mathlib.Text.{◌==◌ as str_eq}
use aso_node_recovery.Prelude.Lists.{contains}
use aso_node_recovery.Prelude.Tests.{eqb, if◌then◌else◌, leb, string_eq}

-- The characters for which `str.isspace` holds.
unfoldable pub is_space : Char → Bool
is_space c =
    let n = code c in
    leb 9 n && leb n 13
    || leb 28 n && leb n 32
    || eqb n 133
    || eqb n 160
    || eqb n 5760
    || leb 8192 n && leb n 8202
    || eqb n 8232
    || eqb n 8233
    || eqb n 8239
    || eqb n 8287
    || eqb n 12288

unfoldable pub strip_left : String → String
unfolding is_space
strip_left String.[] = String.[]
strip_left (String.◌∷◌ c s) = if is_space c then strip_left s else String.◌∷◌ c s

abbrev keep_right : Char → String → String
keep_right c String.[] = if is_space c then String.[] else String.◌∷◌ c String.[]
keep_right c (String.◌∷◌ d s) = String.◌∷◌ c (String.◌∷◌ d s)

unfoldable pub strip_right : String → String
unfolding is_space
strip_right String.[] = String.[]
strip_right (String.◌∷◌ c s) = keep_right c (strip_right s)

unfoldable pub strip : String → String
unfolding strip_left strip_right
strip s = strip_right (strip_left s)

abbrev pub is_blank : String → Bool
is_blank s = str_eq (strip s) ""

-- `dict.fromkeys(texts)`: the first of equal texts stays.
unfoldable pub unique_from : List String → List String → List String
unique_from seen [] = []
unique_from seen (s ∷ texts) =
    let rest = unique_from seen texts in
    let new = s ∷ unique_from (s ∷ seen) texts in if contains seen s then rest else new

strips : strip " \t a b \n" ≡ "a b"
unfolding strip
strips = refl
