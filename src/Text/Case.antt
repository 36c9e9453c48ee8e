-- ===== src/Text/Case.antt =====
-- Laws of the case mapping (strings.ToUpper, strings.ToLower).
use cryptofiend.Prelude.{ℕ, ◌≡◌, refl, ap, [], ◌∷◌, ◌++◌, arith, Text}
use cryptofiend.Text.{upper_byte, lower_byte, to_upper, to_lower}

upper_byte_idem : (c : ℕ) → upper_byte (upper_byte c) ≡ upper_byte c
unfolding upper_byte
upper_byte_idem c = ground arith

lower_byte_idem : (c : ℕ) → lower_byte (lower_byte c) ≡ lower_byte c
unfolding lower_byte
lower_byte_idem c = ground arith

upper_byte-lower_byte : (c : ℕ) → upper_byte (lower_byte c) ≡ upper_byte c
unfolding upper_byte lower_byte
upper_byte-lower_byte c = ground arith

lower_byte-upper_byte : (c : ℕ) → lower_byte (upper_byte c) ≡ lower_byte c
unfolding upper_byte lower_byte
lower_byte-upper_byte c = ground arith

pub to_upper_idem : (s : Text) → to_upper (to_upper s) ≡ to_upper s
unfolding to_upper
to_upper_idem [] = refl
to_upper_idem (c ∷ s) = cc (upper_byte_idem c, to_upper_idem s)

pub to_lower_idem : (s : Text) → to_lower (to_lower s) ≡ to_lower s
unfolding to_lower
to_lower_idem [] = refl
to_lower_idem (c ∷ s) = cc (lower_byte_idem c, to_lower_idem s)

pub to_upper-to_lower : (s : Text) → to_upper (to_lower s) ≡ to_upper s
unfolding to_upper to_lower
to_upper-to_lower [] = refl
to_upper-to_lower (c ∷ s) = cc (upper_byte-lower_byte c, to_upper-to_lower s)

pub to_lower-to_upper : (s : Text) → to_lower (to_upper s) ≡ to_lower s
unfolding to_upper to_lower
to_lower-to_upper [] = refl
to_lower-to_upper (c ∷ s) = cc (lower_byte-upper_byte c, to_lower-to_upper s)

pub to_upper-append : (s t : Text) → to_upper (s ++ t) ≡ to_upper s ++ to_upper t
unfolding to_upper
to_upper-append [] t = refl
to_upper-append (c ∷ s) t = ap (λ l. upper_byte c ∷ l) (to_upper-append s t)

pub to_lower-append : (s t : Text) → to_lower (s ++ t) ≡ to_lower s ++ to_lower t
unfolding to_lower
to_lower-append [] t = refl
to_lower-append (c ∷ s) t = ap (λ l. lower_byte c ∷ l) (to_lower-append s t)
