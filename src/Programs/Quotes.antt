-- ===== src/Programs/Quotes.antt =====
-- examples/quotes_stream.cpp, and the stream of examples/paper_trade.cpp: the calls that are made between
-- the start of the stream and the sleep, and what the handlers print.
use tinkoff_invest_sdkv.Prelude.{false, List, [], ◌∷◌, ◌++◌, Option, none, some, Bytes}
use tinkoff_invest_sdkv.Prelude.Codes.{codes}
use tinkoff_invest_sdkv.Prelude.Digits.{int_to_string}
use tinkoff_invest_sdkv.Prelude.Int.{ℤ, pos}
use tinkoff_invest_sdkv.Error.{Error, error_to_string}
use tinkoff_invest_sdkv.Decimal.Text.{to_string}
use tinkoff_invest_sdkv.Decimal.Money.{Quotation, of_quotation}
use tinkoff_invest_sdkv.Streams.{StreamState, connecting, connected, disconnected, stopped}
use tinkoff_invest_sdkv.MarketData.Stream.{
  Call, subscribes_last_prices, subscribes_candles, subscribes_trades,
}
use tinkoff_invest_sdkv.Programs.{Line, out, instrument_of}

-- The fields of `LastPrice` and `Candle` of contracts/marketdata.proto that are read.
pub record LastPrice : Type 0 where
  pub instrument_uid : Bytes
  pub price : Quotation

pub record Candle : Type 0 where
  pub instrument_uid : Bytes
  pub open_price : Quotation
  pub high : Quotation
  pub low : Quotation
  pub close : Quotation
  pub volume : ℤ

abbrev pub one_minute : ℤ
one_minute = pos 1

abbrev pub show_price : Quotation → Bytes
show_price q = to_string (of_quotation q)

unfoldable pub show_last_price : LastPrice → Line
show_last_price p =
    out (codes "last_price " ++ p.instrument_uid ++ codes " = " ++ show_price p.price)

unfoldable pub show_candle : Candle → Line
show_candle c = out (
    codes "candle "
    ++ c.instrument_uid
    ++ codes " o="
    ++ show_price c.open_price
    ++ codes " h="
    ++ show_price c.high
    ++ codes " l="
    ++ show_price c.low
    ++ codes " c="
    ++ show_price c.close
    ++ codes " v="
    ++ int_to_string c.volume)

unfoldable pub state_name : StreamState → Bytes
state_name connecting = codes "connecting"
state_name connected = codes "connected"
state_name disconnected = codes "disconnected"
state_name stopped = codes "stopped"

abbrev pub because : Option Error → Bytes
because none = []
because (some e) = codes ": " ++ error_to_string e

-- `on_state` of both programs.
unfoldable pub show_state : StreamState → Option Error → Line
show_state s e = out (codes "[stream] " ++ state_name s ++ because e)

-- The instruments on the command line, or the default one.
unfoldable pub instruments_of : List Bytes → List Bytes
instruments_of [] = codes "BBG004730N88" ∷ []
instruments_of (id ∷ ids) = id ∷ ids

unfoldable pub quotes_calls : List Bytes → List Call
quotes_calls arguments =
    let ids = instruments_of arguments in
    subscribes_last_prices ids ∷ subscribes_candles ids one_minute false ∷ []

unfoldable pub paper_calls : Option Bytes → List Call
paper_calls argument =
    let instrument = instrument_of argument in
    subscribes_last_prices (instrument ∷ []) ∷ subscribes_trades (instrument ∷ []) false ∷ []
