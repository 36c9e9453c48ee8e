-- ===== src/Text/Search.antt =====
-- What strings.HasPrefix, strings.Contains and strings.Index decide.
use cryptofiend.Prelude.{
  ◌≡◌, refl, sym, ap, inl, inr, true, [], ◌∷◌, ◌++◌, arith, Bool-cases, Text, is_some, length, drop,
}
use cryptofiend.Text.{has_prefix, contains, index}

-- A prefix, and what follows it, spell the text.
pub has_prefix-eq : (p s : Text) → has_prefix p s ≡ true → p ++ drop (length p) s ≡ s
unfolding has_prefix
has_prefix-eq [] s h = refl
has_prefix-eq (x ∷ p) [] h = cc
has_prefix-eq (x ∷ p) (c ∷ s) h = ground (arith, has_prefix-eq p s)

pub has_prefix-append : (p s : Text) → has_prefix p (p ++ s) ≡ true
unfolding has_prefix
has_prefix-append [] s = refl
has_prefix-append (x ∷ p) s = ground (arith, has_prefix-append p s)

-- What `strings.Contains` decides.
abbrev pub Occurs : Text → Text → Type 0
Occurs sub s = (before : Text) × (after : Text) × (s ≡ before ++ (sub ++ after))

pub contains-Occurs : (s sub : Text) → contains s sub ≡ true → Occurs sub s
unfolding contains
contains-Occurs [] sub h = ([], drop (length sub) [], sym (has_prefix-eq sub [] h))
contains-Occurs (c ∷ s) sub h = elim (Bool-cases (has_prefix sub (c ∷ s))) [
  | inl here ↦ ([], drop (length sub) (c ∷ s), sym (has_prefix-eq sub (c ∷ s) here))
  | inr not_here ↦
      let later = contains-Occurs s sub (rw not_here at h) in
      (c ∷ later.0, later.1, ap (λ l. c ∷ l) later.2)
]

pub contains-middle : (before sub after : Text) → contains (before ++ (sub ++ after)) sub ≡ true
unfolding contains
contains-middle [] [] [] = refl
contains-middle [] [] (c ∷ s) = refl
contains-middle [] (x ∷ sub) after = rw (has_prefix-append (x ∷ sub) after)
contains-middle (c ∷ before) sub after = ground (arith, contains-middle before sub after)

-- strings.Index is -1 exactly on a text that does not contain the other.
pub is_some-index : (s sub : Text) → is_some (index s sub) ≡ contains s sub
unfolding index contains
is_some-index [] sub = ground arith
is_some-index (c ∷ s) sub = ground (arith, is_some-index s sub)
