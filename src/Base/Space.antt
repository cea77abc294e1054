-- ===== src/Base/Space.antt =====
-- `strings.TrimSpace`: the white space of `unicode.IsSpace`, in UTF-8, taken off both ends.
use Prim.Native.Nat.{ℕ, zero, suc}
use mathlib.Core.Option.{Option, none, some}
use mathlib.Core.List.{List, [], ◌∷◌, map, reverse}
use fast_bypass.Base.Bools.{if◌then◌else◌}
use fast_bypass.Base.Bytes.{Text, length, drop, has_prefix}

-- The encodings of the white space characters.
abbrev spaces : List Text
spaces =
    (9 ∷ [])
    ∷ (10 ∷ [])
    ∷ (11 ∷ [])
    ∷ (12 ∷ [])
    ∷ (13 ∷ [])
    ∷ (32 ∷ [])
    ∷ (0xC2 ∷ 0x85 ∷ [])
    ∷ (0xC2 ∷ 0xA0 ∷ [])
    ∷ (0xE1 ∷ 0x9A ∷ 0x80 ∷ [])
    ∷ (0xE2 ∷ 0x80 ∷ 0x80 ∷ [])
    ∷ (0xE2 ∷ 0x80 ∷ 0x81 ∷ [])
    ∷ (0xE2 ∷ 0x80 ∷ 0x82 ∷ [])
    ∷ (0xE2 ∷ 0x80 ∷ 0x83 ∷ [])
    ∷ (0xE2 ∷ 0x80 ∷ 0x84 ∷ [])
    ∷ (0xE2 ∷ 0x80 ∷ 0x85 ∷ [])
    ∷ (0xE2 ∷ 0x80 ∷ 0x86 ∷ [])
    ∷ (0xE2 ∷ 0x80 ∷ 0x87 ∷ [])
    ∷ (0xE2 ∷ 0x80 ∷ 0x88 ∷ [])
    ∷ (0xE2 ∷ 0x80 ∷ 0x89 ∷ [])
    ∷ (0xE2 ∷ 0x80 ∷ 0x8A ∷ [])
    ∷ (0xE2 ∷ 0x80 ∷ 0xA8 ∷ [])
    ∷ (0xE2 ∷ 0x80 ∷ 0xA9 ∷ [])
    ∷ (0xE2 ∷ 0x80 ∷ 0xAF ∷ [])
    ∷ (0xE2 ∷ 0x81 ∷ 0x9F ∷ [])
    ∷ (0xE3 ∷ 0x80 ∷ 0x80 ∷ [])
    ∷ []

-- The text without the first of the patterns that it begins with.
strip : List Text → Text → Option Text
strip [] s = none
strip (p ∷ ps) s = if has_prefix s p then some (drop (length p) s) else strip ps s

-- Every round takes at least one byte off, so the length of the text is fuel enough.
trim_front : ℕ → List Text → Text → Text
trim_front zero ps s = s
trim_front (suc fuel) ps s = elim (strip ps s) [ none ↦ s | some r ↦ trim_front fuel ps r ]

unfoldable pub trim_space : Text → Text
unfolding trim_front strip
trim_space s =
    let r = trim_front (length s) spaces s in
    reverse (trim_front (length r) (map reverse spaces) (reverse r))
