-- ===== src/Client.antt =====
-- `Client` of src/client.cpp: the constructor's choice of a channel, `setup_context` and
-- `load_rate_limits`. Times are in milliseconds; the deadline of a call is its timeout after the
-- current time.
use tinkoff_invest_sdkv.Prelude.{
  ℕ, ◌+◌, ◌*◌, Bool, if◌then◌else◌, List, [], ◌∷◌, ◌++◌, Option, none, some, Bytes,
}
use tinkoff_invest_sdkv.Prelude.Codes.{codes}
use tinkoff_invest_sdkv.Error.{Result, value, error}
use tinkoff_invest_sdkv.RateLimiter.{RateLimiter, UnaryLimit, configure}

-- The integer arguments of a channel that the code sets, under gRPC's names.
pub data ChannelArg : Type 0 where
  keepalive_time_ms keepalive_timeout_ms keepalive_permit_without_calls
        http2_max_pings_without_data :
      ChannelArg

-- `grpc::ChannelArguments`, in the order in which they are set.
pub record ChannelArguments : Type 0 where
  pub ints : List (ChannelArg × ℕ)
  pub max_receive_message_size : ℕ
  pub user_agent_prefix : Bytes

pub record Config : Type 0 where
  pub token : Bytes
  pub endpoint : Bytes
  pub app_name : Bytes
  pub use_tls : Bool
  pub ca_file : Bytes
  pub default_timeout : Option ℕ
  pub tune_channel : Option (ChannelArguments → ChannelArguments)

-- Credentials without TLS, or with the root certificates given; an empty text stands for gRPC's own.
pub data Credentials : Type 0 where
  insecure : Credentials
  ssl : Bytes → Credentials

pub record Channel : Type 0 where
  pub endpoint : Bytes
  pub credentials : Credentials
  pub arguments : ChannelArguments

abbrev pub system_bundle : Bytes
system_bundle = codes "/etc/ssl/certs/ca-certificates.crt"

-- The file with the root certificates: the one of the configuration, else the system's if it can be
-- opened. `read` says what a file holds, if it can be opened.
unfoldable pub ca_path : (Bytes → Option Bytes) → Bytes → Option Bytes
ca_path read [] = elim (read system_bundle) [ none ↦ none | some text ↦ some system_bundle ]
ca_path read (c ∷ path) = some (c ∷ path)

-- `pem_root_certs`: what that file holds. A file that cannot be opened reads as no text.
unfoldable pub root_certs : (Bytes → Option Bytes) → Option Bytes → Bytes
root_certs read none = []
root_certs read (some path) = elim (read path) [ none ↦ [] | some text ↦ text ]

unfoldable pub credentials_of : (Bytes → Option Bytes) → Config → Credentials
credentials_of read c =
    if c.use_tls then ssl (root_certs read (ca_path read c.ca_file)) else insecure

-- `tune_channel`, if it is set.
abbrev tuned : Option (ChannelArguments → ChannelArguments) → ChannelArguments → ChannelArguments
tuned none args = args
tuned (some tune) args = tune args

unfoldable pub arguments_of : Config → ChannelArguments
arguments_of c = tuned c.tune_channel (record {
  ints =
      (keepalive_time_ms, 30_000)
      ∷ (keepalive_timeout_ms, 10_000)
      ∷ (keepalive_permit_without_calls, 1)
      ∷ (http2_max_pings_without_data, 0)
      ∷ [];
  max_receive_message_size = 64 * 1024 * 1024;
  user_agent_prefix = c.app_name;
})

-- The channel that the constructor creates.
unfoldable pub channel_of : (Bytes → Option Bytes) → Config → Channel
channel_of read c = record {
  endpoint = c.endpoint;
  credentials = credentials_of read c;
  arguments = arguments_of c;
}

pub record CallOptions : Type 0 where
  pub timeout : Option ℕ
  pub metadata : List (Bytes × Bytes)

-- What a `grpc::ClientContext` is told.
pub record Context : Type 0 where
  pub metadata : List (Bytes × Bytes)
  pub deadline : Option ℕ

unfoldable pub auth_header : Config → Bytes
auth_header c = codes "Bearer " ++ c.token

abbrev first_timeout : Option ℕ → Option ℕ → Option ℕ
first_timeout none default_timeout = default_timeout
first_timeout (some t) default_timeout = some t

unfoldable pub deadline_of : Option ℕ → ℕ → Option ℕ
deadline_of none now = none
deadline_of (some t) now = some (now + t)

unfoldable pub setup_context : Config → CallOptions → ℕ → Context
setup_context c opts now = record {
  metadata =
      (codes "authorization", auth_header c) ∷ (codes "x-app-name", c.app_name) ∷ opts.metadata;
  deadline = deadline_of (first_timeout opts.timeout c.default_timeout) now;
}

-- The tariff that was fetched, or the error, is returned.
unfoldable pub load_rate_limits :
    RateLimiter → Result (List UnaryLimit) → RateLimiter × Result (List UnaryLimit)
load_rate_limits r (value tariff) = (configure r tariff, value tariff)
load_rate_limits r (error e) = (r, error e)
