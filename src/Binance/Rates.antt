-- ===== src/Binance/Rates.antt =====
-- The spacing of requests, over any sequence of calls.
use cryptofiend.Prelude.{
  ℕ, ◌+◌, ◌/◌, ◌≤◌, ◌<◌, ◌≡◌, refl, ◌≢◌, Bool, true, false, not, ◌&&◌, List, [], ◌∷◌, arith,
  if◌then◌else◌, Text, text_eq, text_eq_iff, All,
}
use cryptofiend.GoMap.{lookup, lookup-insert}
use cryptofiend.Binance.{
  Limiter, Answer, received, refused, or_zero, skip_request, send_rate_limited_http_request,
}

-- A call of `SendRateLimitedHTTPRequest`, but for the rate, which the code fixes for each method and path.
pub record Call {ℓ} (R : Type ℓ) : Type ℓ where
  pub key : Text
  pub now : ℕ
  pub answer : Answer R
  pub default_value : R

abbrev pub is_received {ℓ} : {R : Type ℓ} → Answer R → Bool
is_received (received result) = true
is_received (refused too_many result) = false

-- At least the delay lies between any time and the one before.
abbrev pub IsSpaced : ℕ → ℕ → List ℕ → Type 0
IsSpaced delay last [] = Unit
IsSpaced delay last (t ∷ r) = (last + delay ≤ t) × IsSpaced delay t r

abbrev last_of : Text → Limiter → ℕ
last_of key s = or_zero (lookup key s.rate_limits)

not_skipped :
    (s : Limiter) (n : ℕ) (key : Text) (now : ℕ)
    → skip_request s n key now ≡ false
    → last_of key s + 60_000 / n ≤ now
unfolding skip_request
not_skipped s n key now h = ground arith

in_ban :
    (s : Limiter) (n : ℕ) (key : Text) (now : ℕ)
    → s.ip_ban_start_time ≢ 0
    → now < s.ip_ban_start_time + 300_000
    → skip_request s n key now ≡ true
unfolding skip_request
in_ban s n key now b h = ground arith

skipped {ℓ} :
    {R : Type ℓ} (s : Limiter) (n : ℕ) (key : Text) (now : ℕ) (answer : Answer R) (d : R)
    → skip_request s n key now ≡ true
    → (send_rate_limited_http_request s n key now answer d).0 ≡ s
unfolding send_rate_limited_http_request
skipped s n key now answer d h = rw h refl

last_of-send {ℓ} :
    {R : Type ℓ} (other : Text) (s : Limiter) (n : ℕ) (key : Text) (now : ℕ) (answer : Answer R)
    (d : R)
    → skip_request s n key now ≡ false
    → last_of other (send_rate_limited_http_request s n key now answer d).0
      ≡ (if is_received answer && text_eq key other then now else last_of other s)
unfolding send_rate_limited_http_request
last_of-send other s n key now (received result) d h =
    rw (h, lookup-insert key other now s.rate_limits) (ground arith)
last_of-send other s n key now (refused true result) d h = rw h refl
last_of-send other s n key now (refused false result) d h = rw h refl

module _ {ℓ} {R : Type ℓ} (rate : Text → ℕ) where
  abbrev pub after : Limiter → Call R → Limiter
  after s c = (send_rate_limited_http_request s (rate c.key) c.key c.now c.answer c.default_value).0

  -- When requests went out, and when those went out that had a result, for one method and path.
  abbrev pub sent : Limiter → List (Call R) → List ℕ
  sent s [] = []
  sent s (c ∷ r) =
      let rest = sent (after s c) r in
      if skip_request s (rate c.key) c.key c.now then rest else c.now ∷ rest

  abbrev pub successes : Text → Limiter → List (Call R) → List ℕ
  successes key s [] = []
  successes key s (c ∷ r) =
      let rest = successes key (after s c) r in
      if not (skip_request s (rate c.key) c.key c.now)
        && (is_received c.answer && text_eq c.key key)
      then c.now ∷ rest
      else rest

  -- Whatever is called, at whatever times, with whatever answers: the requests with one method and path
  -- that had a result are a minute divided by their rate apart, and as far from the last before them.
  pub successes-IsSpaced :
      (key : Text) (s : Limiter) (calls : List (Call R))
      → IsSpaced (60_000 / rate key) (or_zero (lookup key s.rate_limits)) (successes key s calls)
  successes-IsSpaced key s [] = tt
  successes-IsSpaced key s (c ∷ r) = ground (
    arith,
    successes-IsSpaced key (after s c) r,
    skipped s (rate c.key) c.key c.now c.answer c.default_value,
    last_of-send key s (rate c.key) c.key c.now c.answer c.default_value,
    not_skipped s (rate c.key) c.key c.now,
    text_eq_iff c.key key,
  )

  -- While the time is less than 5 minutes after the start of a ban, no request goes out.
  pub sent_banned :
      (s : Limiter) (calls : List (Call R))
      → s.ip_ban_start_time ≢ 0
      → All (λ c. c.now < s.ip_ban_start_time + 300_000) calls
      → sent s calls ≡ []
  sent_banned s [] b h = refl
  sent_banned s (c ∷ r) b h =
      let held = in_ban s (rate c.key) c.key c.now b h.0 in
      let same = skipped s (rate c.key) c.key c.now c.answer c.default_value held in
      rw (held, same) (sent_banned s r b h.1)
