-- ===== src/Lib.antt =====
-- A model of tinvest-cpp, a C++20 SDK for the T-Invest API over gRPC: fixed-point numbers, the
-- predictive rate limiter, the retry loop of calls, the streams with their reconnection and registry
-- of subscriptions, and the library of trading algorithms.
--
-- How the parts interact. A user calls the stream or a service from any thread. A service call asks
-- the rate limiter first. The stream keeps a registry of subscriptions and a queue of writes; its
-- worker thread sets up a gRPC call, replays the registry on it, and sets it up again when it breaks,
-- while gRPC's threads report reads, writes and the end of the call. Prices are fixed-point numbers.
--
-- Files and code:
--   Prelude and below: lists, Boolean tests, integers, machine words (`to_i32`, `to_i64`, `to_i128`
--     wrap), decimal digits, association lists in the order of `std::map`.
--   Decimal.antt: `class Decimal` of include/tinvest/decimal.hpp. `units_` and `nano_` are the
--     fields, `make` is the constructor, `add`, `sub`, `negate`, `mul`, `scale`, `div_by` and `ratio`
--     are the operators, `eq` .. `ne` the comparisons. Decimal/Text: `to_string` and `from_string`
--     over bytes. Decimal/Money: `Quotation`, `MoneyValue` and `Money`. Canonical, Arith, Rounding,
--     Order, ReadBack, RoundTrip and Parsed hold the proofs.
--   RateLimiter.antt: `class RateLimiter` of include/tinvest/rate_limiter.hpp. The groups that C++
--     shares by `std::shared_ptr` are cells of a list, the method table maps to their indices, and
--     the clock is an argument. Serving, Bounds, Table and Waiting hold the proofs.
--   Error.antt: include/tinvest/error.hpp and `make_error` of include/tinvest/detail/unary.hpp.
--   Unary.antt: `unary_sync` and `unary_async` of include/tinvest/detail/unary.hpp; what gRPC makes of
--     each attempt is an argument, and the attempts, slots and sleeps are a list of events. Retry and
--     Single hold the proofs.
--   Client.antt: the constructor, `setup_context` and `load_rate_limits` of src/client.cpp.
--   Services.antt: include/tinvest/services.hpp. Services/Tables: the methods of each service, as its
--     uses of TINVEST_RPC. Services/Contracts: the RPCs that contracts/*.proto declare. `path` is
--     `kMethod`, the name under which a call is made and limited; `call_blocking` and `call_async` are
--     two of the overloads, the third is in Awaitable. Paths and Limits hold the proofs.
--   Awaitable.antt: include/tinvest/awaitable.hpp, as a machine on a heap of coroutine frames. A frame
--     is a promise with the place where it is suspended, and the code of a coroutine is a `Script`.
--     Meaning says what a task computes when an await is a plain call; Heaps, Steps, Refines and
--     Waiting hold the proofs. Ownership: the task objects and the frames that they own.
--   Streams.antt: the reconnection loop `run` that src/market_data_stream.cpp and
--     include/tinvest/streams/server_stream.hpp share, over what each round finds. Streams/Server: the
--     state and the handlers of `ServerStream`. Streams/Progress: how far a thread is in that loop,
--     what it has notified, and its moves. Streams/World: `ServerStream` beside its thread and its
--     call, and the steps of all threads. Streams/Factories: the functions `make_..._stream`. Notices,
--     Backoff, Loop, Safety, Stopping, Trace, Moves and Refines hold the proofs.
--   MarketData/Requests, Registry, Stream: src/market_data_stream.cpp, one function for each handler,
--     each critical section of `run_once` and each call that sends; the calls of gRPC are a list of
--     effects. World: the stream beside the gRPC call, and the steps of all threads. View: the registry
--     as a table of subscriptions. Thread: that stream with its thread in the loop `run`, and the
--     `join` of `stop`. Users: a user who starts it and makes calls meanwhile. RegistryLaws, Safety,
--     Sync, Reconnect, Connecting, ThreadSafety, ThreadRefines and ThreadStopping hold the proofs.
--   MarketData/Handlers: `dispatch`.
--   Algo.antt: include/tinvest/algo. Indicators, Strategies and Backtest have the names of the
--     headers, Setups holds the constructors of the strategies; Windows, Averages, Wilder, Channels,
--     Breakouts, Crossing, Trades and Causality hold the proofs.
--     Conversions: `to_bar`, and `to_double` and `from_double` of include/tinvest/decimal.hpp.
--   PaperTrade.antt: `on_last_price` of examples/paper_trade.cpp. PaperTrade/Follows holds the proofs.
--   Programs.antt: examples/coro_trade.cpp and sandbox_trade.cpp (Programs/Sandbox), accounts.cpp
--     (Accounts) and backtest.cpp (Backtests) with the calls that they make, as scripts over Awaitable,
--     and the calls of the stream in quotes_stream.cpp and paper_trade.cpp (Quotes). Closing, Visits,
--     History and Subscribed hold the proofs.
--   Examples, ThreadExamples and QuotesExamples below each part: runs and instances of the theorems.
--
-- Conventions. Text is a list of bytes. Integers are ℤ, and every cast or operation that can leave
-- its type is wrapped, also where C++ leaves overflow undefined. A division by zero, which traps, is
-- `none`. `to_digits` runs on fuel: twenty digits are enough for a `uint64_t`. The retry loop runs on
-- fuel, the limit of attempts, which is shown to be enough. A `double` is an abstract type with the
-- operations that the code uses.
--
-- gRPC is not modelled as code: the steps of World state what its documentation promises (a write is
-- reported once and only while it is outstanding; the end of the call comes after its hold is gone
-- and no write is outstanding), and `misuse` records every breach of its rules. `start` is a step at
-- any time. If it comes while a `stop` waits for the thread it makes a second thread beside the first,
-- as Streams/Safety shows; the model follows the second one from then on, and says so in `misuse` or
-- `doubled`. The theorems on interleavings therefore have the hypothesis `AllTimely`: no `start` comes
-- then, or, in MarketData/World, which has no thread, none makes a worker while the last one is in
-- `run_once`. A state that is notified has no influence on the steps.
-- The counter of attempts of the reconnection loop, of which only the minimum with 8 is used, is not
-- wrapped.
--
-- The machine of Awaitable runs on the number of its steps, and enough of them are shown to exist. The
-- calls of gRPC are answered on one thread, after the suspension; a dead frame, a resumption at the
-- wrong place and an empty promise are `stuck`.
--
-- In Programs what the API answers is a parameter, and what is printed on the way is given back with
-- the exit code.
--
-- Not modelled: IEEE arithmetic, the making of a channel, TLS and stubs, the tests and benchmarks, and
-- the command line of paper_trade.cpp but for its instrument.
pub mod Prelude
pub mod Decimal
pub mod Error
pub mod Streams
pub mod RateLimiter
pub mod Unary
pub mod Client
pub mod Services
pub mod Awaitable
pub mod MarketData
pub mod Algo
pub mod PaperTrade
pub mod Programs
