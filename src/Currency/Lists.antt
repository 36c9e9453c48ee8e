-- ===== src/Currency/Lists.antt =====
-- The list that `CheckAndAddCurrency` builds.
use cryptofiend.Prelude.{
  ◌≡◌, refl, ◌⊎◌, inl, inr, Bool, true, false, ◌||◌, List, [], ◌∷◌, ◌++◌, arith, Bool-cases, Text,
  text_eq, text_eq_comm, any_of, All,
}
use cryptofiend.Currency.{
  passes, check_and_add_currency, is_default_currency, is_default_cryptocurrency,
}

abbrev occurs : Text → List Text → Bool
occurs x l = any_of (text_eq x) l

-- No string stands twice.
abbrev pub IsDistinct : List Text → Type 0
IsDistinct [] = Unit
IsDistinct (x ∷ r) = (occurs x r ≡ false) × IsDistinct r

occurs-append : (x c : Text) (l : List Text) → occurs x (l ++ c ∷ []) ≡ (occurs x l || text_eq x c)
occurs-append x c [] = ground arith
occurs-append x c (y ∷ r) = ground (arith, occurs-append x c r)

IsDistinct-append :
    (l : List Text) (c : Text) → occurs c l ≡ false → IsDistinct l → IsDistinct (l ++ c ∷ [])
IsDistinct-append [] c o h = (refl, tt)
IsDistinct-append (x ∷ r) c o h = (
  ground (arith, occurs-append x c r, text_eq_comm x c),
  IsDistinct-append r c (ground arith) h.1,
)

passes_absent : (l : List Text) (c : Text) → passes l c ≡ true → occurs c l ≡ false
unfolding passes
passes_absent [] c h = refl
passes_absent (x ∷ r) c h = ground (arith, passes_absent r c)

-- Where every default currency is of one kind: all that stand in a list are, or none has been added.
abbrev pub SameKind : Text → Text → Type 0
SameKind check x =
    ((is_default_currency x ≡ true) × (is_default_currency check ≡ true))
    ⊎ ((is_default_cryptocurrency x ≡ true) × (is_default_cryptocurrency check ≡ true))

passes-SameKind : (l : List Text) (c : Text) → passes l c ≡ true → All (SameKind c) l
unfolding passes
passes-SameKind [] c h = tt
passes-SameKind (x ∷ r) c h = (ground arith, passes-SameKind r c (ground arith))

-- CheckAndAddCurrency keeps a list free of repetitions; it changes the list only by adding the currency at
-- the end, and only where each currency in the list is a default one of the kind of the one that is added.
pub check_and_add_currency-IsDistinct :
    (input : List Text) (check : Text)
    → IsDistinct input
    → IsDistinct (check_and_add_currency input check)
      × ((check_and_add_currency input check ≡ input)
          ⊎ ((check_and_add_currency input check ≡ input ++ check ∷ [])
              × All (SameKind check) input))
unfolding check_and_add_currency
check_and_add_currency-IsDistinct input check h = elim (Bool-cases (passes input check)) [
  | inl added ↦ rw added (
    IsDistinct-append input check (passes_absent input check added) h,
    inr (refl, passes-SameKind input check added),
  )
  | inr kept ↦ rw kept (h, inl refl)
]
