-- ===== src/Events/Rounds.antt =====
-- A round over events whose conditions have a comma, which is what their checks rely on.
use cryptofiend.Prelude.{
  ◌≤◌, ◌≡◌, refl, inl, inr, Bool, true, false, not, ◌&&◌, Option, none, some, List, [], ◌∷◌, ◌++◌,
  map, arith, ltb, ◌==◌, if◌then◌else◌, Bool-cases, Text, codes, text_eq, is_some, length, keep_if,
  any_of, ◌>>=◌, All,
}
use cryptofiend.Text.{contains}
use cryptofiend.Text.Parts.{split-contains}
use cryptofiend.Float.{Float}
use cryptofiend.Ticker.{Tickers, get_ticker}
use cryptofiend.Sms.{Base as Contacts}
use cryptofiend.Events.{Event, part, get_event_counter}
use cryptofiend.Events.Check.{
  Notice, to_string, execute_action, is_met, last_price, check_condition, check_all,
  check_events_round, notify, act,
}

abbrev pub IsRunnable : Event → Type 0
IsRunnable e = contains e.condition (codes ",") ≡ true

defined {ℓ} : {A : Type ℓ} (o : Option A) → is_some o ≡ true → (a : A) × (o ≡ some a)
defined none h = absurd (ground arith)
defined (some a) h = (a, refl)

pub to_string_runs : (e : Event) → IsRunnable e → (text : Text) × (to_string e ≡ some text)
unfolding to_string
to_string_runs e h =
    let parts = split-contains b',' [] e.condition h in defined (to_string e) (rw parts.3 refl)

-- The event's action is an SMS, and SMS is not set up.
abbrev pub lacks_sms : Option Contacts → Event → Bool
lacks_sms sms e =
    not (is_some sms) && (contains e.action (codes ",") && text_eq (part 0 e.action) (codes "SMS"))

act_runs :
    (sms : Option Contacts) (kind name text : Text)
    → (notices : List Notice) × (act sms kind name (some text)
        ≡ (if not (is_some sms) && text_eq kind (codes "SMS") then none else some notices))
act_runs none kind name text = ([], refl)
act_runs (some s) kind name text = elim (Bool-cases (text_eq kind (codes "SMS"))) [
  | inl notice ↦ (notify s name (codes "Event triggered: " ++ text), rw notice refl)
  | inr other ↦ ([], rw other refl)
]

with_notices :
    (lacks : Bool) (notices : List Notice)
    → ◌>>=◌ {B = Bool × List Notice} (if lacks then none else some notices) (λ n. some (true, n))
      ≡ (if lacks then none else some (true, notices))
with_notices true notices = refl
with_notices false notices = refl

execute_action_runs :
    (sms : Option Contacts) (e : Event)
    → IsRunnable e
    → (notices : List Notice) × (execute_action sms e
        ≡ (if lacks_sms sms e then none else some (true, notices)))
unfolding execute_action
execute_action_runs sms e h = elim (Bool-cases (contains e.action (codes ","))) [
  | inl several ↦
      let text = to_string_runs e h in
      let parts = split-contains b',' [] e.action several in
      let run = act_runs sms parts.0 parts.1 text.0 in
      let lacks : lacks_sms sms e ≡ (not (is_some sms) && text_eq parts.0 (codes "SMS")) =
        rw (several, parts.3, part) refl in
      (
        run.0,
        rw (lacks, several, parts.3, text.1, run.1)
            (with_notices (not (is_some sms) && text_eq parts.0 (codes "SMS")) run.0),
      )
  | inr one ↦
      let text = to_string_runs e h in
      let lacks : lacks_sms sms e ≡ false = ground (arith, one) in
      ([], rw (lacks, one, text.1) refl)
]

length-keep_if : (events : List Event) → length (keep_if (λ x. x.executed) events) ≤ length events
length-keep_if [] = omega arith
length-keep_if (e ∷ r) = ground (arith, length-keep_if r)

module _ (F : Float) (parse_float : Text → F.Num) where
  -- Whether a price is known, and stands to the condition's price as its operator says.
  abbrev pub holds_at : Event → Option F.Num → Bool
  holds_at e none = false
  holds_at e (some last) = is_met F (part 0 e.condition) last (parse_float (part 1 e.condition))

  abbrev pub holds : Tickers F → Event → Bool
  holds tickers e = holds_at e (last_price (get_ticker tickers e.exchange e.pair e.asset))

  abbrev pub checked : Tickers F → Event → Event
  checked tickers e = record e { executed = if e.executed then true else holds tickers e }

  -- A check of the event panics: it is open, its condition holds, and its SMS cannot be sent.
  abbrev pub is_stuck : Tickers F → Option Contacts → Event → Bool
  is_stuck tickers sms e = not e.executed && (holds tickers e && lacks_sms sms e)

  check_at :
      (tickers : Tickers F) (sms : Option Contacts) (e : Event) (price : Option F.Num)
      → IsRunnable e
      → last_price (get_ticker tickers e.exchange e.pair e.asset) ≡ price
      → (notices : List Notice) × (check_condition parse_float tickers sms e ≡ (
          if holds_at e price && lacks_sms sms e then none else some (holds_at e price, notices)))
  unfolding check_condition
  check_at tickers sms e none h p =
      let parts = split-contains b',' [] e.condition h in ([], rw (parts.3, p) refl)
  check_at tickers sms e (some last) h p =
      let parts = split-contains b',' [] e.condition h in
      let first : part 0 e.condition ≡ parts.0 = rw (parts.3, part) refl in
      let second : part 1 e.condition ≡ parts.1 = rw (parts.3, part) refl in
      elim (Bool-cases (is_met F parts.0 last (parse_float parts.1))) [
        | inl met ↦
            let run = execute_action_runs sms e h in
            (run.0, rw (first, second, parts.3, p, met, run.1) refl)
        | inr unmet ↦ ([], rw (first, second, parts.3, p, unmet) refl)
      ]

  -- One event of the loop, and the others.
  step_of :
      (e : Event) (met lacks stuck : Bool) (first rest : List Notice) (after : List Event)
      → (notices : List Notice) × (◌>>=◌ {A = Bool × List Notice} {B = List Event × List Notice}
            (if not e.executed
              then (if met && lacks then none else some (met, first))
              else some (e.executed, []))
            (λ now.
              ◌>>=◌ {A = List Event × List Notice}
                (if stuck then none else some (after, rest))
                (λ later. some (record e { executed = now.0 } ∷ later.0, now.1 ++ later.1)))
          ≡ (if (if not e.executed && (met && lacks) then true else stuck)
              then none
              else some
                  (record e { executed = if e.executed then true else met } ∷ after, notices)))
  step_of e met lacks stuck first rest after =
      ((if e.executed then [] else first) ++ rest, ground arith)

  check_all_runs :
      (tickers : Tickers F) (sms : Option Contacts) (events : List Event)
      → All IsRunnable events
      → (notices : List Notice) × (check_all parse_float tickers sms events ≡ (
          if any_of (is_stuck tickers sms) events
          then none
          else some (map (checked tickers) events, notices)))
  unfolding check_all
  check_all_runs tickers sms [] h = ([], refl)
  check_all_runs tickers sms (e ∷ r) h =
      let rest = check_all_runs tickers sms r h.1 in
      let now = check_at tickers sms e _ h.0 refl in
      let step =
        step_of e (holds tickers e) (lacks_sms sms e) (any_of (is_stuck tickers sms) r) now.0 rest.0
          (map (checked tickers) r) in
      (step.0, rw (now.1, rest.1) step.1)

  all_executed :
      (tickers : Tickers F) (sms : Option Contacts) (events : List Event)
      → length events ≡ length (keep_if (λ x. x.executed) events)
      → (map (checked tickers) events ≡ events) × (any_of (is_stuck tickers sms) events ≡ false)
  all_executed tickers sms [] h = (refl, refl)
  all_executed tickers sms (e ∷ r) h = ground (arith, all_executed tickers sms r, length-keep_if r)

  pub round_of :
      (tickers : Tickers F) (sms : Option Contacts) (events : List Event)
      → All IsRunnable events
      → (notices : List Notice) × (check_events_round parse_float tickers sms events ≡ (
          if any_of (is_stuck tickers sms) events
          then none
          else some (map (checked tickers) events, notices)))
  unfolding check_events_round get_event_counter
  round_of tickers sms events h =
      let run = check_all_runs tickers sms events h in
      let executed = length (keep_if (λ x. x.executed) events) in
      elim (Bool-cases (ltb 0 (length events) && not (executed == length events))) [
        | inl open_ ↦ (run.0, rw (open_, run.1) refl)
        | inr shut ↦
            let all = all_executed tickers sms events (ground (arith, length-keep_if events)) in
            ([], rw (shut, all.0, all.1) refl)
      ]
