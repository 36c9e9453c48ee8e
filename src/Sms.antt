-- ===== src/Sms.antt =====
-- smsglobal/smsglobal.go: the contacts for SMS notices. Sending a message is an HTTP request, and is not
-- modelled beyond its recipient.
pub mod Contacts
pub mod Examples
use cryptofiend.Prelude.{
  ℕ, suc, Bool, not, ◌&&◌, ◌||◌, Option, none, some, List, [], ◌∷◌, ◌++◌, map, if◌then◌else◌, Text,
  text_eq, is_empty, keep_if, any_of, find_first,
}
use cryptofiend.Text.{to_lower}

pub record Contact : Type 0 where
  pub name : Text
  pub number : Text
  pub enabled : Bool

pub record Base : Type 0 where
  pub contacts : List Contact
  pub username : Text
  pub password : Text
  pub send_from : Text

-- `New`; `none` is the nil pointer
unfoldable pub new : Text → Text → Text → List Contact → Option Base
new username password send_from contacts =
    if is_empty username || (is_empty password || (is_empty send_from || is_empty contacts))
    then none
    else some (record {
      contacts = keep_if (λ c. not (is_empty c.name) || not (is_empty c.number)) contacts;
      username = username;
      password = password;
      send_from = send_from;
    })

abbrev pub count_enabled : List Contact → ℕ
count_enabled [] = 0
count_enabled (c ∷ r) = if c.enabled then suc (count_enabled r) else count_enabled r

unfoldable pub get_enabled_contacts : Base → ℕ
get_enabled_contacts s = count_enabled s.contacts

abbrev pub is_same_name : Text → Contact → Bool
is_same_name name c = text_eq (to_lower c.name) (to_lower name)

unfoldable pub get_contact_by_number : Base → Text → Option Contact
get_contact_by_number s number = find_first (λ c. text_eq c.number number) s.contacts

unfoldable pub get_contact_by_name : Base → Text → Option Contact
get_contact_by_name s name = find_first (is_same_name name) s.contacts

unfoldable pub contact_exists : Base → Contact → Bool
contact_exists s contact =
    any_of (λ c. text_eq c.number contact.number && is_same_name contact.name c) s.contacts

unfoldable pub add_contact : Base → Contact → Base
unfolding contact_exists
add_contact s contact =
    if is_empty contact.name || is_empty contact.number
    then s
    else if contact_exists s contact
    then s
    else record s { contacts = s.contacts ++ contact ∷ [] }

unfoldable pub without_first : Contact → List Contact → List Contact
without_first contact [] = []
without_first contact (c ∷ r) =
    if text_eq c.name contact.name && text_eq c.number contact.number
    then r
    else c ∷ without_first contact r

unfoldable pub remove_contact : Base → Contact → Base
unfolding contact_exists without_first
remove_contact s contact =
    if not (contact_exists s contact)
    then s
    else record s { contacts = without_first contact s.contacts }

-- The recipients that `SendMessageToAll` sends to.
unfoldable pub message_recipients : Base → List Text
message_recipients s = map (λ c. c.name) (keep_if (λ c. c.enabled) s.contacts)
