-- ===== src/Lib.antt =====
-- A verification of the core of the trading bot (Go): the data that it keeps about currencies,
-- order books, tickers, statistics, nonces, its own orders and the portfolio, with the operations
-- on that data.
--
-- Files and the code that they model (paths from the repository's root):
--
--   Text: the functions of Go's package strings behind the wrappers of common/common.go.
--   Pair: currency/pair/pair.go; currency pairs, their formats, and the pairs read from texts.
--   Currency: currency/currency.go; the lists of currencies and the conversion at the rates of
--     two services.
--   Orderbook: exchanges/orderbook/orderbook.go; the books of an exchange by currency pair and
--     type.
--   Ticker: exchanges/ticker/ticker.go; the package's list of exchanges' prices.
--   Stats: exchanges/stats/stats.go, and the queries of the highest and lowest price in
--     helpers.go.
--   Nonce: exchanges/nonce/nonce.go; the counters behind authenticated requests.
--   Orders: orders.go; the bot's own orders and their IDs.
--   Portfolio: portfolio/portfolio.go; addresses, balances and the totals by coin.
--   Sms: smsglobal/smsglobal.go; the contacts for notices.
--   Config: config/config.go; the checks of the configuration, and the exchanges in it.
--   Events: events/events.go; the list of events, their validation, and the rounds that check
--     them.
--   Binance: exchanges/binance/binance.go, binance_wrapper.go, and exchanges/exchange_limits.go;
--     a client that limits its requests.
--   Clients: exchanges/<name>/<name>.go and <name>_wrapper.go of eighteen exchanges; their
--     set-up, prices, order books and accounts, over what they share.
--   Hub: websocket.go; the clients of the web server's socket, and who of them may give commands.
--   Exchange: exchanges/exchange.go; the base that the exchanges share, its pairs and their
--     updates, and helpers.go; the accounts by coin.
--   Encryption: config/config_encryption.go; the container of the encrypted configuration.
--   GoMap, Float, Prelude: maps, the interface of float64, and what all the files share.
--
-- Conventions. A string is the list of its bytes, and case mapping is that of ASCII. A function
-- that can panic returns an Option, whose none is the panic; an error is a value of a result
-- type. A package variable is an argument and a result. A mutex makes each method one step on
-- the state; the socket's handlers, which hold none, are two steps each, before and after the
-- upgrade. The clock, the block explorers and number formatting are arguments. float64 is the
-- interface Float: a theorem that needs a law of the arithmetic has it as a hypothesis. An int64
-- that is counted up is a signed number, which wraps at 2 ^ 63. Loops are recursions on the list
-- that the code ranges over, so no fuel is needed; an endless loop is one round, whose
-- repetition a relation describes.
--
-- The parts work together as follows. Exchanges' wrappers, Binance's and those of Clients, store
-- prices and books through Ticker and Orderbook under the pairs of Pair; the price routine feeds
-- Stats; authenticated requests draw nonces; the portfolio watcher updates Portfolio; Events
-- reads the prices of Ticker and the contacts of Sms, and takes its exchanges from Config.
--
-- Not modelled: HTTP requests, JSON, logging, the web server, trading and the web sockets of the
-- exchanges, command line tools and the web front end, which are input and output around this
-- core.
pub mod Prelude
pub mod Text
pub mod GoMap
pub mod Float
pub mod Pair
pub mod Currency
pub mod Orderbook
pub mod Ticker
pub mod Stats
pub mod Nonce
pub mod Orders
pub mod Portfolio
pub mod Sms
pub mod Encryption
pub mod Config
pub mod Exchange
pub mod Events
pub mod Hub
pub mod Binance
pub mod Clients
