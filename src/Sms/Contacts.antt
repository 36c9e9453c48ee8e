-- ===== src/Sms/Contacts.antt =====
-- The contact list holds no contact twice.
use cryptofiend.Prelude.{
  ◌≡◌, refl, ◌∙◌, Bool, true, false, not, ◌&&◌, ◌||◌, List, [], ◌∷◌, ◌++◌, arith, if◌then◌else◌,
  text_eq, text_eq_comm, is_empty, any_of, All, All-append,
}
use cryptofiend.Text.{to_lower}
use cryptofiend.Sms.{Contact, Base, is_same_name, add_contact, remove_contact, without_first}

-- Both are one contact for `ContactExists`.
abbrev pub is_same : Contact → Contact → Bool
is_same a c = text_eq c.number a.number && is_same_name a.name c

abbrev pub Lacks : Contact → List Contact → Type 0
Lacks a = All (λ c. is_same a c ≡ false)

abbrev pub IsDistinct : List Contact → Type 0
IsDistinct [] = Unit
IsDistinct (c ∷ r) = Lacks c r × IsDistinct r

is_same_comm : (a c : Contact) → is_same a c ≡ is_same c a
is_same_comm a c =
    ground (arith, text_eq_comm a.number c.number, text_eq_comm (to_lower a.name) (to_lower c.name))

Lacks-of-exists : (a : Contact) (l : List Contact) → any_of (is_same a) l ≡ false → Lacks a l
Lacks-of-exists a [] h = tt
Lacks-of-exists a (c ∷ r) h = ground (arith, Lacks-of-exists a r)

append-IsDistinct :
    (l : List Contact) (a : Contact) → Lacks a l → IsDistinct l → IsDistinct (l ++ a ∷ [])
append-IsDistinct [] a h d = (tt, tt)
append-IsDistinct (c ∷ r) a h d =
    (All-append _ r (a ∷ []) d.0 (is_same_comm c a ∙ h.0, tt), append-IsDistinct r a h.1 d.1)

Lacks-without_first : (a b : Contact) (l : List Contact) → Lacks a l → Lacks a (without_first b l)
unfolding without_first
Lacks-without_first a b [] h = tt
Lacks-without_first a b (c ∷ r) h = ground (arith, Lacks-without_first a b r h.1)

without_first-IsDistinct :
    (b : Contact) (l : List Contact) → IsDistinct l → IsDistinct (without_first b l)
unfolding without_first
without_first-IsDistinct b [] d = tt
without_first-IsDistinct b (c ∷ r) d =
    ground (arith, Lacks-without_first c b r d.0, without_first-IsDistinct b r d.1)

IsDistinct-if :
    (b : Bool) (x y : Base)
    → (b ≡ true → IsDistinct x.contacts)
    → (b ≡ false → IsDistinct y.contacts)
    → IsDistinct (if b then x else y).contacts
IsDistinct-if true x y hx hy = hx refl
IsDistinct-if false x y hx hy = hy refl

-- Adding and removing contacts keeps them distinct: no two have one number and one name up to case.
pub contacts-IsDistinct :
    (s : Base) (c : Contact)
    → IsDistinct s.contacts
    → IsDistinct (add_contact s c).contacts × IsDistinct (remove_contact s c).contacts
unfolding add_contact remove_contact
contacts-IsDistinct s c d = (
  IsDistinct-if (is_empty c.name || is_empty c.number) _ _ (λ e. d)
      (λ e.
        IsDistinct-if (any_of (is_same c) s.contacts) _ _ (λ x. d)
          (λ x. append-IsDistinct s.contacts c (Lacks-of-exists c s.contacts x) d)),
  IsDistinct-if (not (any_of (is_same c) s.contacts)) _ _ (λ e. d)
      (λ e. without_first-IsDistinct c s.contacts d),
)
