-- ===== src/Nonce/Increasing.antt =====
-- The nonces of an exchange grow from call to call, whatever the other exchanges do in between.
use cryptofiend.Prelude.{
  ℕ, zero, suc, ◌+◌, ◌≤◌, ◌<◌, ◌≡◌, refl, ap, ◌∙◌, ◌⊎◌, inl, inr, Bool, List, [], ◌∷◌, arith,
  if◌then◌else◌, Bool-cases, Text, text_eq, text_eq_iff, length, All,
}
use cryptofiend.GoMap.{lookup, lookup-insert}
use cryptofiend.Nonce.{
  ℤ, pos, negsuc, pos_part, ◌<ℤ◌, half, succ64, is_zero, Nonce, Now, or_zero, get_value,
}

-- A call of `GetValue`.
pub record Call : Type 0 where
  pub exch_name : Text
  pub nano_precision : Bool
  pub now : Now

-- A schedule of calls, each with the value that it returned.
unfoldable pub run : Nonce → List Call → List (Text × ℤ)
run s [] = []
run s (c ∷ r) =
    let (s', v) = get_value s c.exch_name c.nano_precision c.now in (c.exch_name, v) ∷ run s' r

abbrev pub values_of : Text → List (Text × ℤ) → List ℤ
values_of name [] = []
values_of name ((k, v) ∷ r) = if text_eq k name then v ∷ values_of name r else values_of name r

abbrev pub IsIncreasingFrom : ℤ → List ℤ → Type 0
IsIncreasingFrom low [] = Unit
IsIncreasingFrom low (v ∷ r) = (low <ℤ v) × IsIncreasingFrom v r

abbrev pub current : Nonce → Text → ℤ
current s name = or_zero (lookup name s.bounded_call)

-- The clock reads a positive time up to the bound, whatever precision a call asks for.
abbrev pub Reads : ℕ → Call → Type 0
Reads high c =
    (pos 0 <ℤ c.now.unix)
    × (pos_part c.now.unix ≤ high)
    × (pos 0 <ℤ c.now.unix_nano)
    × (pos_part c.now.unix_nano ≤ high)

current-get_value :
    (s : Nonce) (c : Call) (name : Text)
    → current (get_value s c.exch_name c.nano_precision c.now).0 name ≡ (
        if text_eq c.exch_name name
        then (get_value s c.exch_name c.nano_precision c.now).1
        else current s name)
unfolding get_value
current-get_value s c name =
    let next : ℤ = (get_value s c.exch_name c.nano_precision c.now).1 in
    ground (arith, lookup-insert c.exch_name name next s.bounded_call)

succ64-lt :
    (v : ℤ) → pos_part v + 1 < half → (v <ℤ succ64 v) × (pos_part (succ64 v) ≤ pos_part v + 1)
succ64-lt (pos n) h = ground arith
succ64-lt (negsuc zero) h = omega arith
succ64-lt (negsuc (suc n)) h = omega arith

-- A value is larger than the last, and at most one more, or it is the clock's.
next_bounds :
    (v fresh : ℤ) (high : ℕ)
    → pos 0 <ℤ fresh
    → pos_part fresh ≤ high
    → pos_part v + 1 < half
    → (v <ℤ (if is_zero v then fresh else succ64 v))
      × ((pos_part (if is_zero v then fresh else succ64 v) ≤ pos_part v + 1)
          ⊎ (pos_part (if is_zero v then fresh else succ64 v) ≤ high))
next_bounds (pos n) fresh high h k m = ground (arith, succ64-lt (pos n))
next_bounds (negsuc n) fresh high h k m = let b = succ64-lt (negsuc n) m in (b.0, inl b.1)

value_bounds :
    (s : Nonce) (c : Call) (high : ℕ)
    → Reads high c
    → pos_part (current s c.exch_name) + 1 < half
    → (current s c.exch_name <ℤ (get_value s c.exch_name c.nano_precision c.now).1)
      × ((pos_part (get_value s c.exch_name c.nano_precision c.now).1
            ≤ pos_part (current s c.exch_name) + 1)
          ⊎ (pos_part (get_value s c.exch_name c.nano_precision c.now).1 ≤ high))
unfolding get_value
value_bounds s c high h m = elim (Bool-cases c.nano_precision) [
  | inl nano ↦ rw nano (next_bounds (current s c.exch_name) c.now.unix_nano high h.2 h.3 m)
  | inr coarse ↦ rw coarse (next_bounds (current s c.exch_name) c.now.unix high h.0 h.1 m)
]

-- The values that GetValue gives one exchange are strictly increasing as signed numbers, also above
-- the value it had before, whatever the other exchanges do in between, as long as the clock's times
-- are positive, and they and the old value are so far below 2 ^ 63 that the calls cannot wrap.
pub run-IsIncreasing :
    (calls : List Call) (s : Nonce) (name : Text) (high : ℕ)
    → All (Reads high) calls
    → high + length calls < half
    → pos_part (current s name) + length calls < half
    → IsIncreasingFrom (current s name) (values_of name (run s calls))
unfolding run
run-IsIncreasing [] s name high h k m = tt
run-IsIncreasing (c ∷ r) s name high h k m =
    let after = (get_value s c.exch_name c.nano_precision c.now).0 in
    elim (Bool-cases (text_eq c.exch_name name)) [
      | inl same ↦
          let v = (get_value s c.exch_name c.nano_precision c.now).1 in
          let e : current s c.exch_name ≡ current s name =
            ap (current s) ((text_eq_iff c.exch_name name).0 same) in
          let now_v : current after name ≡ v = current-get_value s c name ∙ rw same refl in
          let e' : pos_part (current s c.exch_name) ≡ pos_part (current s name) = ap pos_part e in
          let now_v' : pos_part (current after name) ≡ pos_part v = ap pos_part now_v in
          let b = value_bounds s c high h.0 (omega arith) in
          let rest = run-IsIncreasing r after name high h.1 (omega arith) (omega arith) in
          rw same (rw e at b.0, rw now_v at rest)
      | inr other ↦
          let same_v : current after name ≡ current s name =
            current-get_value s c name ∙ rw other refl in
          let same_v' : pos_part (current after name) ≡ pos_part (current s name) =
            ap pos_part same_v in
          rw (other, ← same_v) (run-IsIncreasing r after name high h.1 (omega arith) (omega arith))
    ]
