-- ===== src/MarketData.antt =====
-- `class MarketDataStream` of include/tinvest/streams/market_data_stream.hpp and
-- src/market_data_stream.cpp: the requests, the registry of subscriptions, the handlers of the stream
-- and what they do to the gRPC call.
pub mod Requests
pub mod Registry
pub mod RegistryLaws
pub mod Stream
pub mod Handlers
pub mod View
pub mod World
pub mod Thread
pub mod ThreadSafety
pub mod ThreadRefines
pub mod ThreadStopping
pub mod Users
pub mod Safety
pub mod Sync
pub mod Reconnect
pub mod Connecting
mod Examples
mod ThreadExamples
