-- ===== src/Pair/Parse.antt =====
-- Currency pairs from texts, and back.
use cryptofiend.Prelude.{
  ℕ, zero, suc, ◌≤◌, ◌<◌, ◌≡◌, refl, sym, ◌∙◌, ◌⊎◌, inl, inr, Bool, true, false, ◌||◌, Option, none,
  some, [], ◌∷◌, arith, leb, ◌==◌, if◌then◌else◌, Bool-cases, Text, length, take, drop,
  take-append-drop,
}
use cryptofiend.Text.{has_prefix, contains, index}
use cryptofiend.Text.Parts.{Lacks, split_two, split-contains}
use cryptofiend.Text.Search.{is_some-index}
use cryptofiend.Pair.{
  CurrencyPair, pair, new_currency_pair, new_currency_pair_delimiter, cut_at,
  new_currency_pair_from_index, new_currency_pair_from_string, underscore, hyphen,
}

-- A pair that is written out with a delimiter of one byte, which neither currency holds, is read
-- back as it was.
pub new_currency_pair_delimiter-pair :
    (p : CurrencyPair) (x : ℕ)
    → p.delimiter ≡ x ∷ []
    → Lacks x p.first_currency
    → Lacks x p.second_currency
    → new_currency_pair_delimiter (pair p) p.delimiter ≡ some p
unfolding new_currency_pair_delimiter pair
new_currency_pair_delimiter-pair p x e hf hs =
    ground (arith, split_two p.first_currency p.second_currency x hf hs)

-- strings.Index is inside the text.
index-le-length : (s sub : Text) (i : ℕ) → index s sub ≡ some i → i ≤ length s
unfolding index
index-le-length [] sub i h = ground arith
index-le-length (c ∷ s) sub zero h = omega arith
index-le-length (c ∷ s) sub (suc i) h = ground (arith, index-le-length s sub i)

has_prefix-length : (p s : Text) → has_prefix p s ≡ true → length p ≤ length s
unfolding has_prefix
has_prefix-length [] s h = omega arith
has_prefix-length (x ∷ p) [] h = cc
has_prefix-length (x ∷ p) (c ∷ s) h = ground (arith, has_prefix-length p s)

index_zero : (s sub : Text) → index s sub ≡ some 0 → has_prefix sub s ≡ true
unfolding index
index_zero [] sub h = ground arith
index_zero (c ∷ s) sub h = ground arith

-- What a cut inside the text yields.
abbrev IsCut : Text → ℕ → Option CurrencyPair → Type 0
IsCut c i result =
    (p : CurrencyPair) × (result ≡ some p)
    × (p.delimiter ≡ [])
    × (p.first_currency ≡ take i c)
    × (pair p ≡ c)

cut_at-IsCut : (c : Text) (i : ℕ) → i ≤ length c → IsCut c i (cut_at c i)
unfolding cut_at new_currency_pair pair
cut_at-IsCut c i h = (
  record { delimiter = []; first_currency = take i c; second_currency = drop i c },
  ground arith,
  refl,
  refl,
  take-append-drop i c,
)

-- The place of the cut: the index, or behind it if the text starts with it.
abbrev pub cut_place : Text → ℕ → ℕ
cut_place idx i = if i == 0 then length idx else i

cut_place-le : (c idx : Text) (i : ℕ) → index c idx ≡ some i → cut_place idx i ≤ length c
cut_place-le c idx zero h = has_prefix-length idx c (index_zero c idx h)
cut_place-le c idx (suc i) h = ground (arith, index-le-length c idx (suc i))

from_index-some :
    (c idx : Text) (i : ℕ)
    → index c idx ≡ some i
    → new_currency_pair_from_index c idx ≡ cut_at c (cut_place idx i)
unfolding new_currency_pair_from_index
from_index-some c idx i h = rw h (ground arith)

from_index-none : (c idx : Text) → index c idx ≡ none → new_currency_pair_from_index c idx ≡ none
unfolding new_currency_pair_from_index
from_index-none c idx h = rw h

-- `NewCurrencyPairFromIndex` panics exactly where the text does not contain the index; otherwise it
-- cuts the text in two, with no delimiter, and `Pair` spells the text again.
pub new_currency_pair_from_index-pair :
    (c idx : Text)
    → ((contains c idx ≡ false) × (new_currency_pair_from_index c idx ≡ none))
      ⊎ ((contains c idx ≡ true)
          × ((p : CurrencyPair) × (new_currency_pair_from_index c idx ≡ some p)
              × (p.delimiter ≡ [])
              × (pair p ≡ c)))
new_currency_pair_from_index-pair c idx = go (index c idx) refl
  where
    go :
        (o : Option ℕ)
        → index c idx ≡ o
        → ((contains c idx ≡ false) × (new_currency_pair_from_index c idx ≡ none))
          ⊎ ((contains c idx ≡ true)
              × ((p : CurrencyPair) × (new_currency_pair_from_index c idx ≡ some p)
                  × (p.delimiter ≡ [])
                  × (pair p ≡ c)))
    go none e = inl (sym (is_some-index c idx) ∙ rw e refl, from_index-none c idx e)
    go (some i) e =
        let r = cut_at-IsCut c (cut_place idx i) (cut_place-le c idx i e) in
        inr
          (sym (is_some-index c idx) ∙ rw e refl, (r.0, from_index-some c idx i e ∙ r.1, r.2, r.4))

-- The text holds one of the two delimiters.
abbrev pub has_delimiter : Text → Bool
has_delimiter s = contains s underscore || contains s hyphen

delimiter_some :
    (s : Text) (x : ℕ)
    → contains s (x ∷ []) ≡ true
    → (p : CurrencyPair) × (new_currency_pair_delimiter s (x ∷ []) ≡ some p)
unfolding new_currency_pair_delimiter
delimiter_some s x h =
    let parts = split-contains x [] s h in
    (record { delimiter = x ∷ []; first_currency = parts.0; second_currency = parts.1 }, rw parts.3)

from_string_delimited :
    (s : Text)
    → has_delimiter s ≡ true
    → (p : CurrencyPair) × (new_currency_pair_from_string s ≡ some p)
unfolding new_currency_pair_from_string
from_string_delimited s h = elim (Bool-cases (contains s underscore)) [
  | inl under ↦ rw under (delimiter_some s b'_' under)
  | inr no_under ↦
      let dash : contains s hyphen ≡ true = ground (arith, no_under) in
      rw (no_under, dash) (delimiter_some s b'-' dash)
]

from_string_plain :
    (s : Text) → has_delimiter s ≡ false → new_currency_pair_from_string s ≡ cut_at s 3
unfolding new_currency_pair_from_string
from_string_plain s h = ground arith

cut_at_short : (s : Text) (i : ℕ) → leb i (length s) ≡ false → cut_at s i ≡ none
unfolding cut_at
cut_at_short s i h = rw h

-- `NewCurrencyPairFromString` on a text with a delimiter does not panic; without one it panics on less
-- than three bytes, and otherwise the first three bytes are one currency and the rest the other.
pub new_currency_pair_from_string_cases :
    (s : Text)
    → ((has_delimiter s ≡ true) × ((p : CurrencyPair) × (new_currency_pair_from_string s ≡ some p)))
      ⊎ ((has_delimiter s ≡ false) × (length s < 3) × (new_currency_pair_from_string s ≡ none))
      ⊎ ((has_delimiter s ≡ false)
          × ((p : CurrencyPair) × (new_currency_pair_from_string s ≡ some p)
              × (p.first_currency ≡ take 3 s)
              × (pair p ≡ s)))
new_currency_pair_from_string_cases s = elim (Bool-cases (has_delimiter s)) [
  | inl held ↦ inl (held, from_string_delimited s held)
  | inr plain ↦ elim (Bool-cases (leb 3 (length s))) [
    | inl long ↦
        let r = cut_at-IsCut s 3 (ground arith) in
        inr (inr (plain, (r.0, from_string_plain s plain ∙ r.1, r.3, r.4)))
    | inr short ↦
        inr (inl (plain, ground arith, from_string_plain s plain ∙ cut_at_short s 3 short))
  ]
]
