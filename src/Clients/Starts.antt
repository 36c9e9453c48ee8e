-- ===== src/Clients/Starts.antt =====
-- What Setup does with the configuration, and what it leaves of the order books.
use cryptofiend.Prelude.{
  subst, ◌≡◌, refl, ap, ◌∙◌, inl, inr, Bool, true, false, ◌&&◌, Option, none, some, List, [], ◌∷◌,
  arith, if◌then◌else◌, Bool-cases, Text, text_eq, text_eq_iff, text_eq_refl, is_empty, is_some,
}
use cryptofiend.Float.{Float}
use cryptofiend.Clients.{
  setup_with, common_setup, set_api_keys, Client, copy_config, set_formats_and_types,
}
use cryptofiend.Text.{split, join}
use cryptofiend.Config.{ExchangeConfig, is_named, get_exchange_config}
use cryptofiend.Config.Exchanges.{get-update_exchange_config}
use cryptofiend.Exchange.{
  set_api_keys, common_setup, Base, comma, or_format, write_config, set_currency_pair_format,
  set_asset_types,
}

found_name :
    (exchanges : List ExchangeConfig) (n : Text) (exch : ExchangeConfig)
    → get_exchange_config exchanges n ≡ some exch
    → text_eq exch.name n ≡ true
unfolding get_exchange_config
found_name [] n exch h = cc
found_name (x ∷ r) n exch h = elim (Bool-cases (is_named n x)) [
  | inl here ↦ ground arith
  | inr other ↦ found_name r n exch (rw other at h)
]

-- What a write of an exchange that is configured comes to.
write_config_runs :
    (e : Base) (exchanges : List ExchangeConfig) (n : Text) (known new : ExchangeConfig)
    → get_exchange_config exchanges n ≡ some known
    → new.name ≡ known.name
    → (after : List ExchangeConfig) × (write_config e exchanges new
        ≡ record { base = e; exchanges = after; succeeds = true })
      × (get_exchange_config after n ≡ some new)
write_config_runs e exchanges n known new h k =
    let same = (text_eq_iff known.name n).0 (found_name exchanges n known h) in
    let named : new.name ≡ n = k ∙ same in
    elim (get-update_exchange_config exchanges new) [
      | inl missing ↦
          let there : get_exchange_config exchanges new.name ≡ some known = rw named h in
          let absurd : ⊥ = cc in elim absurd [ ]
      | inr found ↦
          (found.0, rw (write_config, found.1) refl, found.2 n ∙ rw (named, text_eq_refl) refl)
    ]

abbrev formatted : Base → ExchangeConfig → Base
formatted e known = record e {
  request_currency_pair_format =
      or_format known.request_currency_pair_format e.request_currency_pair_format;
  config_currency_pair_format =
      or_format known.config_currency_pair_format e.config_currency_pair_format;
}

set_currency_pair_format_runs :
    (e : Base) (exchanges : List ExchangeConfig) (known : ExchangeConfig)
    → get_exchange_config exchanges e.name ≡ some known
    → (after : List ExchangeConfig) × (known' : ExchangeConfig) × (set_currency_pair_format e
          exchanges
        ≡ record { base = formatted e known; exchanges = after; succeeds = true })
      × (get_exchange_config after e.name ≡ some known')
      × (known'.asset_types ≡ known.asset_types)
      × (known'.request_currency_pair_format
          ≡ some (or_format known.request_currency_pair_format e.request_currency_pair_format))
unfolding set_currency_pair_format
set_currency_pair_format_runs e exchanges known h =
    elim (Bool-cases
      (is_some known.request_currency_pair_format && is_some known.config_currency_pair_format)) [
        | inl both ↦
            (exchanges, known, rw (set_currency_pair_format, h, both) refl, h, refl, ground arith)
        | inr one ↦
            let new : ExchangeConfig = record known {
              request_currency_pair_format =
                  some
                    (or_format known.request_currency_pair_format e.request_currency_pair_format);
              config_currency_pair_format =
                  some (or_format known.config_currency_pair_format e.config_currency_pair_format);
            } in
            let w = write_config_runs (formatted e known) exchanges e.name known new h refl in
            (w.0, new, rw (set_currency_pair_format, h, one) w.1, w.2, refl, refl)
      ]

-- The asset types that the client has after SetAssetTypes.
abbrev pub or_types : Text → List Text → List Text
or_types configured own = if is_empty configured then own else split configured comma

set_asset_types_runs :
    (e : Base) (exchanges : List ExchangeConfig) (known : ExchangeConfig)
    → get_exchange_config exchanges e.name ≡ some known
    → (after : List ExchangeConfig) × (known' : ExchangeConfig) × (set_asset_types e exchanges
        ≡ record {
          base = record e { asset_types = or_types known.asset_types e.asset_types };
          exchanges = after;
          succeeds = true;
        })
      × (get_exchange_config after e.name ≡ some known')
      × (known'.request_currency_pair_format ≡ known.request_currency_pair_format)
unfolding set_asset_types
set_asset_types_runs e exchanges known h = elim (Bool-cases (is_empty known.asset_types)) [
  | inl blank ↦
      let new : ExchangeConfig = record known { asset_types = join e.asset_types comma } in
      let w = write_config_runs e exchanges e.name known new h refl in
      (w.0, new, rw (set_asset_types, h, blank) w.1, w.2, refl)
  | inr set ↦ (exchanges, known, rw (set_asset_types, h, set) refl, h, refl)
]

module _ {F : Float} where
  -- What Setup copies: the client is enabled, its pairs and base currencies are the configured ones split
  -- at the commas, and its verbosity, its use of the web socket and its delay are the configured ones.
  abbrev pub IsConfigured : ExchangeConfig → Client F → Type 0
  IsConfigured exch c =
      (c.base.enabled ≡ true)
      × (c.base.available_pairs ≡ split exch.available_pairs comma)
      × (c.base.enabled_pairs ≡ split exch.enabled_pairs comma)
      × (c.base.base_currencies ≡ split exch.base_currencies comma)
      × (c.verbose ≡ exch.verbose)
      × (c.websocket ≡ exch.websocket)
      × (c.rest_polling_delay ≡ exch.rest_polling_delay)

  -- The client that a start of `c` left, and the exchanges: the formats and the types are those
  -- that the exchange `known` was configured with, or else the client's own; the exchange is
  -- configured with the client's request format now; the order books are those of before.
  abbrev pub IsStarted : Client F → Client F → ExchangeConfig → List ExchangeConfig → Type 0
  IsStarted c c' known after =
      ((exch : ExchangeConfig) → IsConfigured exch c → IsConfigured exch c')
      × (c'.base.request_currency_pair_format
          ≡ or_format known.request_currency_pair_format c.base.request_currency_pair_format)
      × (c'.base.asset_types ≡ or_types known.asset_types c.base.asset_types)
      × (c'.orderbooks ≡ c.orderbooks)
      × ((known' : ExchangeConfig) × (get_exchange_config after c.base.name ≡ some known')
          × (known'.request_currency_pair_format ≡ some c'.base.request_currency_pair_format))

  set_formats_and_types_runs :
      (c : Client F) (exchanges : List ExchangeConfig) (known : ExchangeConfig)
      → get_exchange_config exchanges c.base.name ≡ some known
      → (c' : Client F) × (after : List ExchangeConfig) × (set_formats_and_types c exchanges
          ≡ some (c', after))
        × IsStarted c c' known after
  set_formats_and_types_runs c exchanges known h =
      let (exchanges1, known1, runs1, found1, types1, request1) =
        set_currency_pair_format_runs c.base exchanges known h in
      let (exchanges2, known2, runs2, found2, request2) =
        set_asset_types_runs (formatted c.base known) exchanges1 known1 found1 in
      let base : Base = record (formatted c.base known) {
        asset_types = or_types known1.asset_types c.base.asset_types;
      } in
      (
        record c { base = base },
        exchanges2,
        rw (runs1, runs2) refl,
        (λ exch i. i, refl, rw types1 refl, refl, (known2, found2, request2 ∙ request1)),
      )

  set_formats_and_types_fatal :
      (c : Client F) (exchanges : List ExchangeConfig)
      → get_exchange_config exchanges c.base.name ≡ none
      → set_formats_and_types c exchanges ≡ none
  unfolding set_currency_pair_format
  set_formats_and_types_fatal c exchanges h = rw (set_currency_pair_format, h) refl

  -- The client with the URL of its sandbox, where it has one and it is used.
  abbrev prepare : Option Text → Bool → Client F → Client F
  prepare none use_sandbox c = c
  prepare (some url) use_sandbox c = if use_sandbox then record c { api_url = url } else c

  prepare-base :
      (sandbox : Option Text) (use_sandbox : Bool) (c : Client F)
      → ((prepare sandbox use_sandbox c).base ≡ c.base)
        × ((prepare sandbox use_sandbox c).orderbooks ≡ c.orderbooks)
        × ((exch : ExchangeConfig)
            → IsConfigured exch c
            → IsConfigured exch (prepare sandbox use_sandbox c))
  prepare-base none use_sandbox c = (refl, refl, λ exch i. i)
  prepare-base (some url) true c = (refl, refl, λ exch i. i)
  prepare-base (some url) false c = (refl, refl, λ exch i. i)

  setup_with-prepare :
      (base64_decode : Text → Option Text) (client_id : Text) (b64_decode : Bool)
      (sandbox : Option Text) (c : Client F) (exch : ExchangeConfig)
      (exchanges : List ExchangeConfig)
      → exch.enabled ≡ true
      → setup_with base64_decode client_id b64_decode sandbox c exch exchanges
        ≡ set_formats_and_types
            (prepare sandbox exch.use_sandbox
              (copy_config base64_decode client_id b64_decode c exch))
            exchanges
  setup_with-prepare base64_decode client_id b64_decode none c exch exchanges e =
      rw (setup_with, e) refl
  setup_with-prepare base64_decode client_id b64_decode (some url) c exch exchanges e =
      rw (setup_with, e) refl

  module _ (base64_decode : Text → Option Text) (client_id : Text) (b64_decode : Bool)
      (sandbox : Option Text) (c : Client F) (exch : ExchangeConfig)
      (exchanges : List ExchangeConfig) where
    copied : Client F
    copied = copy_config base64_decode client_id b64_decode c exch

    copy_config-base :
        (copied.base.name ≡ c.base.name)
        × IsConfigured exch copied
        × (copied.base.asset_types ≡ c.base.asset_types)
        × (copied.base.request_currency_pair_format ≡ c.base.request_currency_pair_format)
    unfolding copied set_api_keys common_setup
    copy_config-base = ground arith

    prepared : Client F
    unfolding copied
    prepared = prepare sandbox exch.use_sandbox copied

    prepared_base : prepared.base ≡ copied.base
    unfolding prepared
    prepared_base = (prepare-base sandbox exch.use_sandbox copied).0

    -- A Setup of an exchange that is enabled ends the program if the configuration has no exchange of the
    -- client's name; otherwise it returns: the client is enabled, its available and its enabled pairs and
    -- its base currencies are the configured ones split at the commas, its verbosity, its use of the web
    -- socket and its delay are the configured ones, its request format and its asset types are those configured under the name or else
    -- its own, and its order books are those of before; the exchange is then configured with the client's
    -- request format.
    pub setup_starts :
        exch.enabled ≡ true
        → (get_exchange_config exchanges c.base.name ≡ none
            → setup_with base64_decode client_id b64_decode sandbox c exch exchanges ≡ none)
          × ((known : ExchangeConfig)
              → get_exchange_config exchanges c.base.name ≡ some known
              → (c' : Client F) × (after : List ExchangeConfig) × (setup_with base64_decode
                    client_id b64_decode sandbox c exch exchanges
                  ≡ some (c', after))
                × IsConfigured exch c'
                × (c'.base.request_currency_pair_format
                    ≡ or_format known.request_currency_pair_format
                        c.base.request_currency_pair_format)
                × (c'.base.asset_types ≡ or_types known.asset_types c.base.asset_types)
                × (c'.orderbooks ≡ c.orderbooks)
                × ((known' : ExchangeConfig) × (get_exchange_config after c.base.name ≡ some known')
                    × (known'.request_currency_pair_format
                        ≡ some c'.base.request_currency_pair_format)))
    unfolding prepared copied
    setup_starts e =
        let (name, configured, types, request) = copy_config-base in
        let named : prepared.base.name ≡ c.base.name = ap (λ b. b.name) prepared_base ∙ name in
        (
          λ missing.
              setup_with-prepare base64_decode client_id b64_decode sandbox c exch exchanges e
              ∙ set_formats_and_types_fatal prepared exchanges (rw named missing),
          λ known h.
              let (c', after, runs, s) =
                set_formats_and_types_runs prepared exchanges known (rw named h) in
              (
                c',
                after,
                setup_with-prepare base64_decode client_id b64_decode sandbox c exch exchanges e
                    ∙ runs,
                s.0 exch ((prepare-base sandbox exch.use_sandbox copied).2 exch configured),
                s.1
                    ∙ ap (or_format known.request_currency_pair_format)
                        (ap (λ b. b.request_currency_pair_format) prepared_base ∙ request),
                s.2
                    ∙ ap (or_types known.asset_types)
                        (ap (λ b. b.asset_types) prepared_base ∙ types),
                s.3 ∙ (prepare-base sandbox exch.use_sandbox copied).1,
                let (known', found, same) = s.4 in
                    (
                      known',
                      subst (λ n. get_exchange_config after n ≡ some known') named found,
                      same,
                    ),
              ),
        )
