-- ===== src/Binance/Update.antt =====
-- An update of an order book, through the client's requests and the exchange's books.
use cryptofiend.Float.{Float}
use cryptofiend.Orderbook.{Books}
use cryptofiend.Binance.{Binance}
