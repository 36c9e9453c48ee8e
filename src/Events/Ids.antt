-- ===== src/Events/Ids.antt =====
-- The IDs of events, and actions in lower case.
use cryptofiend.Prelude.{
  ℕ, ◌+◌, ◌<◌, ◌≡◌, refl, Bool, true, false, Option, none, some, List, [], ◌∷◌, ◌++◌, arith, ◌==◌,
  Text, codes, text_eq, is_empty, length, any_of, length-append,
}
use cryptofiend.Text.{contains, split, to_upper}
use cryptofiend.Pair.{CurrencyPair}
use cryptofiend.Config.{ExchangeConfig}
use cryptofiend.Sms.{Base as Contacts}
use cryptofiend.Events.Check.{execute_action}
use cryptofiend.Events.{Event, added, add_event, remove_event, is_valid_event}

abbrev pub has_id : ℕ → List Event → Bool
has_id id events = any_of (λ e. e.id == id) events

length-remove_event :
    (r : List Event) (last : Event) (id : ℕ)
    → has_id id r ≡ true
    → length (remove_event (r ++ last ∷ []) id).0 ≡ length r
unfolding remove_event
length-remove_event [] last id h = absurd (ground arith)
length-remove_event (e ∷ r) last id h =
    ground (arith, length-remove_event r last id, length-append r (last ∷ []))

has_id-last : (r : List Event) (last : Event) → has_id last.id (r ++ last ∷ []) ≡ true
has_id-last [] last = ground arith
has_id-last (e ∷ r) last = ground (arith, has_id-last r last)

nonempty : (l : List Event) (n : ℕ) → length l ≡ n → 0 < n → is_empty l ≡ false
nonempty [] n e h = absurd (omega arith)
nonempty (x ∷ l) n e h = refl

has_id-length : (id : ℕ) (r : List Event) → has_id id r ≡ true → 0 < length r
has_id-length id [] h = absurd (ground arith)
has_id-length id (e ∷ r) h = omega arith

has_id-remove_event :
    (r : List Event) (last : Event) (id : ℕ)
    → has_id id r ≡ true
    → has_id last.id (remove_event (r ++ last ∷ []) id).0 ≡ true
unfolding remove_event
has_id-remove_event [] last id h = absurd (ground arith)
has_id-remove_event (e ∷ r) last id h =
    ground (arith, has_id-remove_event r last id, has_id-last r last)

add_event_accepted :
    (exchanges : List ExchangeConfig) (sms : Option Contacts) (events : List Event) (id : ℕ)
    (exchange item condition : Text) (p : CurrencyPair) (asset action : Text)
    → is_empty events ≡ false
    → id ≡ length events + 1
    → is_valid_event exchanges sms exchange item condition action ≡ some none
    → (after : List Event) × (add_event exchanges sms events exchange item condition p asset action
        ≡ some (added after id))
unfolding add_event
add_event_accepted exchanges sms events id ex item c p asset action f n v =
    let new : Event = record {
      id = id;
      exchange = ex;
      item = item;
      condition = c;
      pair = p;
      asset = asset;
      action = action;
      executed = false;
    } in
    (events ++ new ∷ [], rw (v, f, n, add_event) refl)

-- Where the last of the events has their number for its ID, as AddEvent gives it from the second event on,
-- and another one is removed, the next event that AddEvent accepts is given an ID that is still in use.
pub add_event-remove_event_clash :
    (exchanges : List ExchangeConfig) (sms : Option Contacts) (r : List Event) (last : Event)
    (id : ℕ) (exchange item condition : Text) (p : CurrencyPair) (asset action : Text)
    → last.id ≡ length r + 1
    → has_id id r ≡ true
    → is_valid_event exchanges sms exchange item condition action ≡ some none
    → let left = (remove_event (r ++ last ∷ []) id).0 in
      (has_id last.id left ≡ true)
      × ((after : List Event) × (add_event exchanges sms left exchange item condition p asset action
            ≡ some (added after last.id)))
add_event-remove_event_clash exchanges sms r last id ex item c p asset action n h v =
    let left = (remove_event (r ++ last ∷ []) id).0 in
    let size = length-remove_event r last id h in
    let full = nonempty left (length r) size (has_id-length id r h) in
    let next : last.id ≡ length left + 1 = omega arith in
    (
      has_id-remove_event r last id h,
      add_event_accepted exchanges sms left last.id ex item c p asset action full next v,
    )

not_sms :
    (sms : Option Contacts) (e : Event) (kind name : Text)
    → contains e.action (codes ",") ≡ true
    → split e.action (codes ",") ≡ kind ∷ name ∷ []
    → text_eq kind (codes "SMS") ≡ false
    → execute_action sms e ≡ some (true, [])
unfolding execute_action
not_sms sms e kind name c s k = rw (c, s, k) refl

in_parts :
    (contains (codes "sms,all") (codes ",") ≡ true)
    × (split (codes "sms,all") (codes ",") ≡ codes "sms" ∷ codes "all" ∷ [])
    × (text_eq (codes "sms") (codes "SMS") ≡ false)
unfolding contains split text_eq
in_parts = (refl, refl, refl)

-- What AddEvent accepts with the action "SMS,ALL" it also accepts with "sms,all", and keeps that as it
-- is: its execution then sends nothing, and counts as one all the same.
pub execute_action_lower_case :
    (exchanges : List ExchangeConfig) (sms : Option Contacts) (exchange item condition : Text)
    (e : Event)
    → e.action ≡ codes "sms,all"
    → (is_valid_event exchanges sms exchange item condition (codes "sms,all")
        ≡ is_valid_event exchanges sms exchange item condition (codes "SMS,ALL"))
      × (execute_action sms e ≡ some (true, []))
unfolding is_valid_event to_upper
execute_action_lower_case exchanges sms exchange item condition e a =
    (refl, not_sms sms e (codes "sms") (codes "all") (rw a in_parts.0) (rw a in_parts.1) in_parts.2)
