-- ===== src/Nonce.antt =====
-- exchanges/nonce/nonce.go: nonces. A value is an int64, a signed number, and `++` wraps from the highest
-- to the lowest; both mutexes make each method one step. The clock's readings are arguments.
pub mod Increasing
pub mod Examples
use cryptofiend.Prelude.{
  ℕ, zero, suc, ◌+◌, ◌-◌, ◌^◌, ◌<◌, Bool, true, false, Option, none, some, ◌==◌, if◌then◌else◌,
  Text,
}
use cryptofiend.GoMap.{GoMap, lookup, insert}

-- `negsuc n` is -(n + 1).
pub data ℤ : Type 0 where
  pos : ℕ → ℤ
  negsuc : ℕ → ℤ

abbrev pub pos_part : ℤ → ℕ
pos_part (pos n) = n
pos_part (negsuc n) = 0

abbrev pub neg_part : ℤ → ℕ
neg_part (pos n) = 0
neg_part (negsuc n) = suc n

infix 50 ◌<ℤ◌
abbrev pub ◌<ℤ◌ : ℤ → ℤ → Type 0
a <ℤ b = pos_part a + neg_part b < pos_part b + neg_part a

-- One more than the highest int64, and the negative of the lowest.
abbrev pub half : ℕ
half = 2 ^ 63

-- `v++`
abbrev pub succ64 : ℤ → ℤ
succ64 (pos n) = if n + 1 == half then negsuc (half - 1) else pos (n + 1)
succ64 (negsuc zero) = pos 0
succ64 (negsuc (suc n)) = negsuc n

-- `v == 0`
abbrev pub is_zero : ℤ → Bool
is_zero (pos n) = n == 0
is_zero (negsuc n) = false

pub record Nonce : Type 0 where
  pub n : ℤ
  -- a nil map and an empty one read alike, and `GetValue` makes the map
  pub bounded_call : GoMap ℤ

-- time.Now().Unix() and time.Now().UnixNano()
pub record Now : Type 0 where
  pub unix : ℤ
  pub unix_nano : ℤ

unfoldable pub inc : Nonce → Nonce
inc s = record s { n = succ64 s.n }

unfoldable pub get : Nonce → ℤ
get s = s.n

unfoldable pub get_inc : Nonce → Nonce × ℤ
get_inc s = let n = succ64 s.n in (record s { n = n }, n)

unfoldable pub set : Nonce → ℤ → Nonce
set s val = record s { n = val }

-- `boundedCall[exchName]`, which is 0 where the key is missing
abbrev pub or_zero : Option ℤ → ℤ
or_zero none = pos 0
or_zero (some v) = v

unfoldable pub get_value : Nonce → Text → Bool → Now → Nonce × ℤ
get_value s exch_name nano_precision now =
    let v = or_zero (lookup exch_name s.bounded_call) in
    let next = if is_zero v then if nano_precision then now.unix_nano else now.unix else succ64 v in
    (record s { bounded_call = insert exch_name next s.bounded_call }, next)
