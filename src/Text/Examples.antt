-- ===== src/Text/Examples.antt =====
-- Runs of the text functions, and the theorems at concrete texts.
use cryptofiend.Prelude.{◌≡◌, refl, [], ◌∷◌, Text, codes}
use cryptofiend.Text.{split, trim}

abbrev comma : Text
comma = codes ","

split_run : split (codes "USD,,EUR") comma ≡ codes "USD" ∷ [] ∷ codes "EUR" ∷ []
unfolding split
split_run = refl

trim_run : trim (codes "--a-b-") (codes "-") ≡ codes "a-b"
unfolding trim
trim_run = refl
