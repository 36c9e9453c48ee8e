-- ===== src/Events.antt =====
-- events/events.go: the list of events, and the validation of a new one. `sms` is the package's contact
-- list, `none` while SMS is not set up, where its nil pointer panics; `exchanges` are the configuration's;
-- a panic is `none`; the conditions and the actions are in the child Check.
pub mod Check
pub mod Rounds
pub mod History
pub mod Ids
pub mod Examples
use cryptofiend.Prelude.{
  ℕ, ◌+◌, Bool, true, false, not, ◌&&◌, ◌||◌, Option, none, some, List, [], ◌∷◌, ◌++◌, ◌==◌,
  if◌then◌else◌, Text, codes, text_eq, is_empty, is_some, length, get_elem?, keep_if, any_of, ◌>>=◌,
}
use cryptofiend.Text.{contains, split, to_upper}
use cryptofiend.Pair.{CurrencyPair}
use cryptofiend.Config.{ExchangeConfig}
use cryptofiend.Sms.{Base as Contacts, get_contact_by_name}

pub record Event : Type 0 where
  pub id : ℕ
  pub exchange : Text
  pub item : Text
  pub condition : Text
  pub pair : CurrencyPair
  pub asset : Text
  pub action : Text
  pub executed : Bool

pub data EventError : Type 0 where
  invalid_item invalid_condition invalid_action exchange_disabled : EventError

unfoldable pub is_valid_exchange : List ExchangeConfig → Text → Bool
is_valid_exchange exchanges exchange =
    any_of (λ x. text_eq x.name (to_upper exchange) && x.enabled) exchanges

unfoldable pub is_valid_condition : Text → Bool
is_valid_condition condition =
    any_of (text_eq condition) (codes ">" ∷ codes ">=" ∷ codes "<" ∷ codes "<=" ∷ codes "==" ∷ [])

unfoldable pub is_valid_action : Text → Bool
is_valid_action action =
    any_of (text_eq (to_upper action))
      (codes "SMS" ∷ codes "CONSOLE_PRINT" ∷ codes "ACTION_TEST" ∷ [])

unfoldable pub is_valid_item : Text → Bool
is_valid_item item = text_eq (to_upper item) (codes "PRICE")

-- An index into the parts of a split, which is in range behind the tests for the separator.
abbrev pub part : ℕ → Text → Text
part i text = elim (get_elem? (split text (codes ",")) i) [ none ↦ [] | some t ↦ t ]

-- Whether `GetContactByName` finds a contact.
abbrev pub has_contact : Option Contacts → Text → Option Bool
has_contact sms name = do s ← sms; some (is_some (get_contact_by_name s name))

-- The inner `none` is the nil error.
unfoldable pub is_valid_event :
    List ExchangeConfig → Option Contacts → Text → Text → Text → Text → Option (Option EventError)
is_valid_event exchanges sms exchange item condition action =
    let action = to_upper action in
    if not (is_valid_exchange exchanges (to_upper exchange))
    then some (some exchange_disabled)
    else if not (is_valid_item (to_upper item))
    then some (some invalid_item)
    else if not (contains condition (codes ","))
    then some (some invalid_condition)
    else if not (is_valid_condition (part 0 condition)) || is_empty (part 1 condition)
    then some (some invalid_condition)
    else if contains action (codes ",")
    then if not (text_eq (part 0 action) (codes "SMS"))
      then some (some invalid_action)
      else if not (text_eq (part 1 action) (codes "ALL"))
      then (do
        known ← has_contact sms (part 1 action)
        some (if known then none else some invalid_action))
      else some none
    else if not (text_eq action (codes "CONSOLE_PRINT"))
        && not (text_eq action (codes "ACTION_TEST"))
    then some (some invalid_action)
    else some none

pub data Added : Type 0 where
  refused : EventError → Added
  added : List Event → ℕ → Added

unfoldable pub add_event :
    List ExchangeConfig
    → Option Contacts
    → List Event
    → Text
    → Text
    → Text
    → CurrencyPair
    → Text
    → Text
    → Option Added
add_event exchanges sms events exchange item condition p asset action =
    let id = if is_empty events then 0 else length events + 1 in
    elim (is_valid_event exchanges sms exchange item condition action) [
      | none ↦ none
      | some (some error) ↦ some (refused error)
      | some none ↦ some (
          added
            (events
              ++ record {
                id = id;
                exchange = exchange;
                item = item;
                condition = condition;
                pair = p;
                asset = asset;
                action = action;
                executed = false;
              }
                ∷ [])
            id)
    ]

unfoldable pub remove_event : List Event → ℕ → List Event × Bool
remove_event [] event_id = ([], false)
remove_event (x ∷ r) event_id =
    let rest = remove_event r event_id in
    if x.id == event_id then (r, true) else (x ∷ rest.0, rest.1)

-- The total, and those that have been executed.
unfoldable pub get_event_counter : List Event → ℕ × ℕ
get_event_counter events = (length events, length (keep_if (λ x. x.executed) events))
