-- ===== src/App/Ovpn.antt =====
-- The text of an OpenVPN profile (backend/internal/app/cert.go and vpn_service.go).
use fast_bypass.Base.{
  ℕ, Text, codes, length, drop, has_prefix, contains, trim_space, Option, none, some, List, [], ◌∷◌,
  ◌++◌, ◌==◌, if◌then◌else◌,
}

-- `userOvpnFileName`
abbrev pub user_ovpn_file_name : Text → Text
user_ovpn_file_name name = codes "open-vpns/config-" ++ (name ++ codes ".ovpn")

abbrev pub newline : ℕ
newline = 10

abbrev cons_line : ℕ → List Text → List Text
cons_line c [] = (c ∷ []) ∷ []
cons_line c (l ∷ ls) = (c ∷ l) ∷ ls

-- `strings.Split(s, "\n")`
unfoldable pub split_lines : Text → List Text
split_lines [] = [] ∷ []
split_lines (c ∷ s) =
    let rest = split_lines s in if c == newline then [] ∷ rest else cons_line c rest

-- `strings.Join(lines, "\n")`
unfoldable pub join_lines : List Text → Text
join_lines [] = []
join_lines (l ∷ []) = l
join_lines (l ∷ m ∷ ls) = l ++ (newline ∷ join_lines (m ∷ ls))

-- The loop over the lines: the first that begins with the key, but for white space, is replaced.
unfoldable pub replace_line : Text → Text → List Text → Option (List Text)
replace_line key line [] = none
replace_line key line (l ∷ ls) =
    let rest = replace_line key line ls in
    if has_prefix (trim_space l) key
    then some (line ∷ ls)
    else elim rest [ none ↦ none | some ms ↦ some (l ∷ ms) ]

-- The shape of `patchOvpnFriendlyName` and `patchOvpnServerAddress`.
abbrev pub patch_line : Text → Text → Text → Text
patch_line key line s =
    elim (if contains s key then replace_line key line (split_lines s) else none) [
      | some ls ↦ join_lines ls
      | none ↦ line ++ (newline ∷ s)
    ]

unfoldable pub patch_ovpn_friendly_name : Text → Text → Text
unfolding replace_line split_lines join_lines
patch_ovpn_friendly_name body name =
    patch_line (codes "setenv FRIENDLY_NAME")
      (codes "setenv FRIENDLY_NAME \"Sabalan " ++ (name ++ codes "\"")) body

unfoldable pub patch_ovpn_server_address : Text → Text → Text
unfolding replace_line split_lines join_lines
patch_ovpn_server_address body server =
    patch_line (codes "remote ") (codes "remote " ++ (server ++ codes " 1194 tcp")) body

-- `strings.ReplaceAll(s, old, new)` for an `old` that is not empty. The number counts the bytes
-- of a match that are still to be skipped.
unfoldable pub replace_from : ℕ → Text → Text → Text → Text
replace_from skip old new [] = []
replace_from ℕ.zero old new (c ∷ s) =
    let here = has_prefix (c ∷ s) old in
    let rest = replace_from (if here then length (drop 1 old) else 0) old new s in
    if here then new ++ rest else c ∷ rest
replace_from (ℕ.suc n) old new (c ∷ s) = replace_from n old new s

abbrev pub replace_all : Text → Text → Text → Text
replace_all = replace_from 0

-- `renderOvpn`, on the template that was read.
unfoldable pub fill_template : Text → Text → Text → Text → Text
unfolding replace_from
fill_template template username pass key_pass =
    replace_all (codes "{{openvpn_key_password}}") key_pass (
      replace_all (codes "{{password}}") pass
        (replace_all (codes "{{username}}") username template))
