-- ===== src/Programs/QuotesExamples.antt =====
-- A run of examples/quotes_stream.cpp on a new stream whose worker is quick.
use tinkoff_invest_sdkv.Decimal.{align, carry, make, normalize}
use tinkoff_invest_sdkv.Decimal.Money.{of_quotation}
use tinkoff_invest_sdkv.Decimal.Text.{abs_units, fill, fraction, strip_zeros, to_string}
use tinkoff_invest_sdkv.Prelude.Digits.{int_to_string, to_digits}
use tinkoff_invest_sdkv.Prelude.{◌≡◌, refl, false, [], ◌∷◌, some, Bytes, bytes_eq}
use tinkoff_invest_sdkv.Prelude.Dict.{lookup}
use tinkoff_invest_sdkv.Prelude.Codes.{codes}
use tinkoff_invest_sdkv.Streams.{default_options, disconnected}
use tinkoff_invest_sdkv.Streams.Progress.{absent, opening, calling, announce, enter, go_to}
use tinkoff_invest_sdkv.MarketData.Requests.{subscribe_last_prices, subscribe_candles}
use tinkoff_invest_sdkv.MarketData.Registry.{IsRegistry}
use tinkoff_invest_sdkv.MarketData.RegistryLaws.{has}
use tinkoff_invest_sdkv.MarketData.Stream.{
  Stream, Call, call, start, send, enqueue, connect, publish, maybe_write, subscribes_last_prices,
  subscribes_candles,
}
use tinkoff_invest_sdkv.MarketData.World.{idle, run, begun, published}
use tinkoff_invest_sdkv.MarketData.Thread.{
  Threaded, launched, beside, goes, announces, connects, publishes,
}
use tinkoff_invest_sdkv.MarketData.Users.{Session, makes, lets, is_internal}
use tinkoff_invest_sdkv.Programs.Quotes.{
  show_state, show_last_price, quotes_calls, instruments_of, one_minute, state_name,
}
use tinkoff_invest_sdkv.Programs.{out}
use tinkoff_invest_sdkv.Error.{new_error, error_to_string}
use tinkoff_invest_sdkv.Prelude.Int.{pos}
use tinkoff_invest_sdkv.Programs.Subscribed.{price_key, minute_key, quotes_calls-subscribes}

abbrev new_stream : Stream
new_stream = record {
  worker = false;
  stopping = false;
  done = false;
  got_data = false;
  broken = false;
  hold_released = false;
  status = record { code = 0; message = [] };
  ctx = false;
  reactor = false;
  write_queue = [];
  write_in_flight = false;
  subscriptions = [];
}

abbrev unstarted : Threaded
unstarted = record {
  world = record {
    stream = new_stream;
    phase = idle;
    active = false;
    held = false;
    writing = false;
    misuse = false;
    sent = [];
  };
  progress = record { place = absent; attempt = 0; log = []; heard = false };
  joining = false;
  doubled = false;
}

no_subscriptions-IsRegistry : IsRegistry []
no_subscriptions-IsRegistry = record { sorted = tt; entries = tt }

abbrev started_first : Threaded
started_first = launched unstarted

abbrev announced_next : Threaded
announced_next = goes started_first started_first.world (announce started_first.progress)

-- The call has begun, and its reactor is not published.
abbrev connects_first : Threaded
connects_first =
    goes announced_next (begun announced_next.world) (enter opening announced_next.progress)

abbrev says : Threaded → Call → Threaded
says t c = beside t (run t.world (call t.world.stream c))

abbrev share : Bytes
share = codes "BBG004730N88"

abbrev asks_prices : Threaded
asks_prices = says connects_first (subscribes_last_prices (share ∷ []))

abbrev asks_candles : Threaded
asks_candles = says asks_prices (subscribes_candles (share ∷ []) one_minute false)

abbrev settled : Threaded
settled = goes asks_candles (published asks_candles.world) (go_to calling asks_candles.progress)

quick : Session default_options unstarted (quotes_calls []) settled
unfolding launched start is_internal quotes_calls instruments_of connect run call send enqueue
    maybe_write publish
quick =
    lets
      (makes
        (makes
          (lets (lets Session.begins (announces started_first refl refl) refl)
            (connects announced_next refl refl) refl)
          (subscribes_last_prices (share ∷ [])))
        (subscribes_candles (share ∷ []) one_minute false))
      (publishes asks_candles refl) refl

quotes_calls-subscribes_example :
    (lookup (price_key share) settled.world.stream.subscriptions
      ≡ some (subscribe_last_prices (share ∷ [])))
    × (lookup (minute_key share) settled.world.stream.subscriptions
        ≡ some (subscribe_candles (share ∷ []) one_minute false))
unfolding instruments_of has bytes_eq
quotes_calls-subscribes_example =
    quotes_calls-subscribes default_options unstarted settled [] share refl
      no_subscriptions-IsRegistry quick refl

-- But nothing of it has been written to the call that runs, or waits to be.
lost_run : settled.world.sent ≡ []
unfolding launched start connect run call send enqueue maybe_write publish
lost_run = refl

idle_run : settled.world.stream.write_queue ≡ []
unfolding launched start connect run call send enqueue maybe_write publish
idle_run = refl

-- What is printed of a break without a message, and of a price.
state_run : show_state disconnected (some new_error) ≡ out (codes "[stream] disconnected: grpc=2")
unfolding show_state state_name error_to_string int_to_string to_digits
state_run = refl

price_run :
    show_last_price (record {
      instrument_uid = codes "uid";
      price = record { units = pos 5; nano = pos 500_000_000 };
    })
    ≡ out (codes "last_price uid = 5.5")
unfolding show_last_price to_string of_quotation make normalize align carry to_digits abs_units
    fraction strip_zeros fill
price_run = refl
