-- ===== src/Mikrotik/Script.antt =====
-- The script text of `GenerateCertificate` and its quoting (backend/internal/mikrotik/files.go).
use fast_bypass.Base.{not, ◌||◌, ℕ, Text, codes, Bool, [], ◌∷◌, ◌++◌, ◌==◌, if◌then◌else◌}

-- `strings.ReplaceAll(s, old, new)` for an `old` of one byte.
unfoldable pub replace_byte : ℕ → Text → Text → Text
replace_byte old new [] = []
replace_byte old new (c ∷ s) =
    let rest = replace_byte old new s in if c == old then new ++ rest else c ∷ rest

abbrev backslash : ℕ
backslash = 92

abbrev quote : ℕ
quote = 34

unfoldable pub ros_quote : Text → Text
unfolding replace_byte
ros_quote s =
    let escaped =
      replace_byte quote (backslash ∷ quote ∷ [])
        (replace_byte backslash (backslash ∷ backslash ∷ []) s) in
    quote ∷ (escaped ++ (quote ∷ []))

-- The script that the panel runs, with the title and the passphrase quoted.
unfoldable pub certificate_source : Text → Text → Text → Text
unfolding ros_quote
certificate_source script title passphrase =
    codes ":global TITLE "
    ++ (ros_quote title
        ++ (codes "; :global PASSPHRASE "
            ++ (ros_quote passphrase
                ++ (codes "; /system script run [find name=" ++ (script ++ codes "]")))))

-- The bytes that a quoted string of RouterOS takes as they are: a quote ends it, a backslash
-- escapes, and a dollar sign stands for a variable.
abbrev pub taken_literally : ℕ → Bool
taken_literally c = not (c == quote || c == backslash || c == b'$')
