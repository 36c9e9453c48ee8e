-- ===== src/Text.antt =====
-- The functions of Go's package strings that the program calls, over bytes. Case mapping is that of
-- ASCII, which is what currency codes, exchange names and settings are written in.
pub mod Case
pub mod Parts
pub mod Search
pub mod Examples
use cryptofiend.Prelude.{
  ℕ, zero, suc, ◌+◌, ◌-◌, Bool, true, false, ◌&&◌, ◌||◌, Option, none, some, List, [], ◌∷◌, ◌++◌,
  map, leb, ◌==◌, if◌then◌else◌, Text, codes, text_eq, length, any_of,
}

-- The byte of an upper-case letter for that of a lower-case one.
unfoldable pub upper_byte : ℕ → ℕ
upper_byte c = if leb b'a' c && leb c b'z' then c - 32 else c

unfoldable pub lower_byte : ℕ → ℕ
lower_byte c = if leb b'A' c && leb c b'Z' then c + 32 else c

-- strings.ToUpper, strings.ToLower
unfoldable pub to_upper : Text → Text
unfolding upper_byte
to_upper s = map upper_byte s

unfoldable pub to_lower : Text → Text
unfolding lower_byte
to_lower s = map lower_byte s

-- strings.HasPrefix(s, p), the prefix first
unfoldable pub has_prefix : Text → Text → Bool
has_prefix [] s = true
has_prefix (p ∷ ps) [] = false
has_prefix (p ∷ ps) (c ∷ s) = (p == c) && has_prefix ps s

-- strings.Contains(s, sub)
unfoldable pub contains : Text → Text → Bool
unfolding has_prefix
contains [] sub = has_prefix sub []
contains (c ∷ s) sub = has_prefix sub (c ∷ s) || contains s sub

abbrev next_index : Option ℕ → Option ℕ
next_index none = none
next_index (some i) = some (suc i)

-- strings.Index(s, sub); `none` is -1
unfoldable pub index : Text → Text → Option ℕ
unfolding has_prefix
index [] sub = if has_prefix sub [] then some 0 else none
index (c ∷ s) sub = if has_prefix sub (c ∷ s) then some 0 else next_index (index s sub)

-- The scan of strings.Split: `skip` bytes of a separator are still to be passed over, `cur` is the
-- part that is being read.
unfoldable pub cut : Text → Text → ℕ → Text → List Text
unfolding has_prefix
cut sep [] skip cur = cur ∷ []
cut sep (c ∷ s) (suc skip) cur = cut sep s skip cur
cut sep (c ∷ s) zero cur = elim (has_prefix sep (c ∷ s)) [
  | true ↦ cur ∷ cut sep s (length sep - 1) []
  | false ↦ cut sep s zero (cur ++ c ∷ [])
]

-- strings.Split(s, sep); an empty separator splits after each byte.
unfoldable pub split : Text → Text → List Text
unfolding cut
split s [] = map (λ c. c ∷ []) s
split s (x ∷ sep) = cut (x ∷ sep) s zero []

-- strings.Join(parts, sep)
unfoldable pub join : List Text → Text → Text
join [] sep = []
join (p ∷ []) sep = p
join (p ∷ q ∷ ps) sep = p ++ (sep ++ join (q ∷ ps) sep)

-- strings.Trim(s, cutset): bytes of the cutset are dropped at both ends.
unfoldable pub in_set : Text → ℕ → Bool
in_set cutset c = any_of (λ x. x == c) cutset

unfoldable pub trim_left : Text → Text → Text
unfolding in_set
trim_left cutset [] = []
trim_left cutset (c ∷ s) = if in_set cutset c then trim_left cutset s else c ∷ s

-- A byte before what is left of the rest: dropped if it is of the cutset and nothing is left.
abbrev pub put_front : Text → ℕ → Text → Text
put_front cutset c [] = if in_set cutset c then [] else c ∷ []
put_front cutset c (d ∷ t) = c ∷ d ∷ t

unfoldable pub trim_right : Text → Text → Text
unfolding in_set
trim_right cutset [] = []
trim_right cutset (c ∷ s) = put_front cutset c (trim_right cutset s)

unfoldable pub trim : Text → Text → Text
unfolding trim_left trim_right
trim s cutset = trim_right cutset (trim_left cutset s)

-- common.DataContains
unfoldable pub data_contains : List Text → Text → Bool
unfolding join contains
data_contains haystack needle = contains (join haystack (codes ",")) needle

-- common.YesOrNo
unfoldable pub yes_or_no : Text → Bool
unfolding to_lower
yes_or_no input =
    if text_eq (to_lower input) (codes "y") || text_eq (to_lower input) (codes "yes")
    then true
    else false

-- common.IsEnabled
unfoldable pub enabled_text : Bool → Text
enabled_text is_enabled = if is_enabled then codes "Enabled" else codes "Disabled"
