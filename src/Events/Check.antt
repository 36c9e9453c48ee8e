-- ===== src/Events/Check.antt =====
-- events/events.go: the check of an event's condition against the tickers, its action, and a round over
-- the events. `none` is the panic of an index. `parse_float` is strconv.ParseFloat, whose value is used
-- also where it fails. What is sent by SMS are the notices.
use cryptofiend.Prelude.{
  Bool, true, false, not, ◌&&◌, Option, none, some, List, [], ◌∷◌, ◌++◌, map, ltb, ◌==◌,
  if◌then◌else◌, Text, codes, text_eq, get_elem?, ◌>>=◌,
}
use cryptofiend.Text.{contains, split}
use cryptofiend.Float.{Float}
use cryptofiend.Ticker.{Tickers, Price, Result, ok, err, get_ticker}
use cryptofiend.Sms.{Base as Contacts, Contact, get_contact_by_name, message_recipients}
use cryptofiend.Events.{Event, get_event_counter}

-- A recipient and a message.
abbrev pub Notice : Type 0
Notice = Text × Text

-- `String`, with the verbs of its format filled in.
unfoldable pub to_string : Event → Option Text
to_string e = do
  first ← get_elem? (split e.condition (codes ",")) 0
  second ← get_elem? (split e.condition (codes ",")) 1
  some (
      codes "If the "
      ++ (e.pair.first_currency
          ++ (e.pair.second_currency
              ++ (codes " ["
                  ++ (e.asset
                      ++ (codes "] "
                          ++ (e.item
                              ++ (codes " on "
                                  ++ (e.exchange
                                      ++ (codes " is "
                                          ++ (first
                                              ++ (codes " "
                                                  ++ (second
                                                      ++ (codes " then "
                                                          ++ (e.action ++ codes ".")))))))))))))))

-- The number of the contact, which is empty where there is none.
abbrev pub number_of : Option Contact → Text
number_of none = []
number_of (some contact) = contact.number

-- What is sent, with the action's part `action[1]` and the message.
abbrev pub notify : Contacts → Text → Text → List Notice
notify sms name message =
    if text_eq name (codes "ALL")
    then map (λ to. (to, message)) (message_recipients sms)
    else (number_of (get_contact_by_name sms name), message) ∷ []

-- The branch of an action in two parts.
abbrev pub act : Option Contacts → Text → Text → Option Text → Option (List Notice)
act sms kind name message =
    if text_eq kind (codes "SMS")
    then (do text ← message; s ← sms; some (notify s name (codes "Event triggered: " ++ text)))
    else some []

unfoldable pub execute_action : Option Contacts → Event → Option (Bool × List Notice)
execute_action sms e =
    if contains e.action (codes ",")
    then (do
      kind ← get_elem? (split e.action (codes ",")) 0
      name ← get_elem? (split e.action (codes ",")) 1
      notices ← act sms kind name (to_string e)
      some (true, notices))
    else (do text ← to_string e; some (true, []))

module _ (F : Float) where
  -- The switch over the operator, with the last price and the target.
  unfoldable pub is_met : Text → F.Num → F.Num → Bool
  is_met operator last target =
      if text_eq operator (codes ">")
      then F.lt target last
      else if text_eq operator (codes ">=")
      then F.le target last
      else if text_eq operator (codes "<")
      then F.lt last target
      else if text_eq operator (codes "<=")
      then F.le last target
      else if text_eq operator (codes "==")
      then F.eq last target
      else false

module _ {F : Float} where
  -- The last price, where there is one and it is not zero.
  abbrev pub last_price : Result (Price F) → Option F.Num
  last_price (err e) = none
  last_price (ok t) = if F.eq t.last F.zero then none else some t.last

  unfoldable pub check_condition :
      (Text → F.Num) → Tickers F → Option Contacts → Event → Option (Bool × List Notice)
  unfolding is_met execute_action
  check_condition parse_float tickers sms e = do
    operator ← get_elem? (split e.condition (codes ",")) 0
    price ← get_elem? (split e.condition (codes ",")) 1
    let target = parse_float price
    elim (last_price (get_ticker tickers e.exchange e.pair e.asset)) [
      | none ↦ some (false, [])
      | some last ↦ if is_met F operator last target then execute_action sms e else some (false, [])
    ]

  -- The loop over the events.
  unfoldable pub check_all :
      (Text → F.Num) → Tickers F → Option Contacts → List Event → Option (List Event × List Notice)
  unfolding check_condition
  check_all parse_float tickers sms [] = some ([], [])
  check_all parse_float tickers sms (e ∷ r) = do
    now ←
        if not e.executed then check_condition parse_float tickers sms e else some (e.executed, [])
    later ← check_all parse_float tickers sms r
    some (record e { executed = now.0 } ∷ later.0, now.1 ++ later.1)

  -- One round of `CheckEvents`.
  unfoldable pub check_events_round :
      (Text → F.Num) → Tickers F → Option Contacts → List Event → Option (List Event × List Notice)
  unfolding check_all get_event_counter
  check_events_round parse_float tickers sms events =
      let (total, executed) = get_event_counter events in
      if ltb 0 total && not (executed == total)
      then check_all parse_float tickers sms events
      else some (events, [])
