-- ===== src/Sms/Examples.antt =====
-- Runs of the contact list, and the theorem at a concrete one.
use cryptofiend.Text.{to_lower}
use cryptofiend.Prelude.{◌≡◌, refl, true, some, [], ◌∷◌, codes, text_eq}
use cryptofiend.Sms.{
  Contact, Base, add_contact, remove_contact, get_contact_by_name, message_recipients,
}
use cryptofiend.Sms.Contacts.{IsDistinct, contacts-IsDistinct}

abbrev bob : Contact
bob = record { name = codes "Bob"; number = codes "12345"; enabled = true }

abbrev base : Base
base = record {
  contacts = bob ∷ [];
  username = codes "u";
  password = codes "p";
  send_from = codes "bot";
}

bob_found : get_contact_by_name base (codes "bob") ≡ some bob
unfolding get_contact_by_name text_eq to_lower
bob_found = refl

sent_to : message_recipients base ≡ codes "Bob" ∷ []
unfolding message_recipients
sent_to = refl

contacts-IsDistinct_example :
    IsDistinct (add_contact base bob).contacts × IsDistinct (remove_contact base bob).contacts
contacts-IsDistinct_example = contacts-IsDistinct base bob (tt, tt)
