-- ===== src/Events/History.antt =====
-- Every list of events that the program can have.
use cryptofiend.Prelude.{
  subst, ℕ, ◌+◌, ◌≡◌, refl, sym, ◌∙◌, inl, inr, Bool, true, false, Option, none, some, List, [],
  ◌∷◌, ◌++◌, map, arith, ◌==◌, if◌then◌else◌, Bool-cases, Text, codes, is_empty, length, any_of,
  All, All-append,
}
use cryptofiend.Text.{contains}
use cryptofiend.Float.{Float}
use cryptofiend.Pair.{CurrencyPair}
use cryptofiend.Config.{ExchangeConfig}
use cryptofiend.Ticker.{Tickers}
use cryptofiend.Sms.{Base as Contacts}
use cryptofiend.Events.{Event, EventError, added, add_event, remove_event, is_valid_event}
use cryptofiend.Events.Check.{Notice, check_events_round}
use cryptofiend.Events.Rounds.{IsRunnable, checked, is_stuck, round_of}

-- The lists of events that the program can have: from the empty list on, events are added where they are
-- accepted, removed, and checked, at any prices and with any contacts, or none.
pub data History (F : Float) (parse_float : Text → F.Num) : List Event → Type 1 where
  start : History F parse_float []
  grow :
      {events : List Event}
      → History F parse_float events
      → (exchanges : List ExchangeConfig) (sms : Option Contacts) (exchange item condition : Text)
        (p : CurrencyPair) (asset action : Text) (after : List Event) (id : ℕ)
      → add_event exchanges sms events exchange item condition p asset action
        ≡ some (added after id)
      → History F parse_float after
  shrink :
      {events : List Event}
      → History F parse_float events
      → (id : ℕ) → History F parse_float (remove_event events id).0
  recheck :
      {events : List Event}
      → History F parse_float events
      → (tickers : Tickers F) (sms : Option Contacts) (after : List Event) (notices : List Notice)
      → check_events_round parse_float tickers sms events ≡ some (after, notices)
      → History F parse_float after

valid-IsRunnable :
    (exchanges : List ExchangeConfig) (sms : Option Contacts)
    (exchange item condition action : Text)
    → is_valid_event exchanges sms exchange item condition action ≡ some none
    → contains condition (codes ",") ≡ true
unfolding is_valid_event
valid-IsRunnable exchanges sms exchange item condition action h = ground arith

add_event-IsRunnable :
    (exchanges : List ExchangeConfig) (sms : Option Contacts) (events : List Event)
    (exchange item condition : Text) (p : CurrencyPair) (asset action : Text) (after : List Event)
    (id : ℕ) (error : Option (Option EventError))
    → is_valid_event exchanges sms exchange item condition action ≡ error
    → All IsRunnable events
    → add_event exchanges sms events exchange item condition p asset action ≡ some (added after id)
    → All IsRunnable after
unfolding add_event
add_event-IsRunnable x sms events ex item c p asset action after id none v h k =
    absurd (ground arith)
add_event-IsRunnable x sms events ex item c p asset action after id (some (some e)) v h k =
    absurd (ground arith)
add_event-IsRunnable x sms events ex item c p asset action after id (some none) v h k =
    let new : Event = record {
      id = if is_empty events then 0 else length events + 1;
      exchange = ex;
      item = item;
      condition = c;
      pair = p;
      asset = asset;
      action = action;
      executed = false;
    } in
    let grown : events ++ new ∷ [] ≡ after = ground arith in
    subst (λ l. All IsRunnable l) grown
      (All-append _ events _ h (valid-IsRunnable x sms ex item c action v, tt))

remove_event-IsRunnable :
    (events : List Event) (id : ℕ)
    → All IsRunnable events
    → All IsRunnable (remove_event events id).0
unfolding remove_event
remove_event-IsRunnable [] id h = tt
remove_event-IsRunnable (e ∷ r) id h = elim (Bool-cases (e.id == id)) [
  | inl here ↦ rw here h.1
  | inr other ↦ rw other (h.0, remove_event-IsRunnable r id h.1)
]

checked-IsRunnable :
    (F : Float) (parse_float : Text → F.Num) (tickers : Tickers F) (events : List Event)
    → All IsRunnable events
    → All IsRunnable (map (checked F parse_float tickers) events)
checked-IsRunnable F parse_float tickers [] h = tt
checked-IsRunnable F parse_float tickers (e ∷ r) h =
    (h.0, checked-IsRunnable F parse_float tickers r h.1)

left_over :
    (stuck : Bool) (seen after : List Event) (sent notices : List Notice)
    → if◌then◌else◌ {A = Option (List Event × List Notice)} stuck none (some (seen, sent))
      ≡ some (after, notices)
    → seen ≡ after
left_over true seen after sent notices h = cc
left_over false seen after sent notices h = ground arith

History-IsRunnable :
    {F : Float} {parse_float : Text → F.Num} {events : List Event}
    → History F parse_float events
    → All IsRunnable events
History-IsRunnable start = tt
History-IsRunnable (grow {events = events} past x sms ex item c p asset action after id k) =
    add_event-IsRunnable x sms events ex item c p asset action after id
      (is_valid_event x sms ex item c action) refl (History-IsRunnable past) k
History-IsRunnable (shrink {events = events} past id) =
    remove_event-IsRunnable events id (History-IsRunnable past)
History-IsRunnable {F} {parse_float} (recheck {events = events} past tickers sms after notices k) =
    let h = History-IsRunnable past in
    let same : map (checked F parse_float tickers) events ≡ after =
      left_over (any_of (is_stuck F parse_float tickers sms) events) _ after _ notices
        (sym (round_of F parse_float tickers sms events h).1 ∙ k) in
    subst (λ l. All IsRunnable l) same (checked-IsRunnable F parse_float tickers events h)

-- Whatever events have been added, removed and checked, a round over them panics exactly if SMS is not
-- set up and an event's action is an SMS, the event is not yet executed, and its condition holds: the last
-- price is known, not zero, and stands to the condition's price as the operator says. Otherwise it leaves
-- all events in their order, and those executed that were so already, or whose condition holds.
pub check_events_round_runs :
    (F : Float) (parse_float : Text → F.Num) (events : List Event) (tickers : Tickers F)
    (sms : Option Contacts)
    → History F parse_float events
    → (notices : List Notice) × (check_events_round parse_float tickers sms events ≡ (
        if any_of (is_stuck F parse_float tickers sms) events
        then none
        else some (map (checked F parse_float tickers) events, notices)))
check_events_round_runs F parse_float events tickers sms past =
    round_of F parse_float tickers sms events (History-IsRunnable past)
