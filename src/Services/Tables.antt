-- ===== src/Services/Tables.antt =====
-- The unary methods of include/tinvest/services.hpp: one list for each class, a method for each line
-- `TINVEST_RPC`, with its name and the name of the RPC. The types of requests and responses are left out.
use tinkoff_invest_sdkv.Prelude.{List, [], ◌∷◌, Bytes}
use tinkoff_invest_sdkv.Prelude.Codes.{codes}

pub record Method : Type 0 where
  pub name : Bytes
  pub rpc : Bytes

-- `UsersService`.
abbrev pub users_methods : List Method
users_methods =
    record { name = codes "get_accounts"; rpc = codes "GetAccounts" }
    ∷ record { name = codes "get_margin_attributes"; rpc = codes "GetMarginAttributes" }
    ∷ record { name = codes "get_user_tariff"; rpc = codes "GetUserTariff" }
    ∷ record { name = codes "get_info"; rpc = codes "GetInfo" }
    ∷ record { name = codes "get_bank_accounts"; rpc = codes "GetBankAccounts" }
    ∷ record { name = codes "currency_transfer"; rpc = codes "CurrencyTransfer" }
    ∷ []

-- `InstrumentsService`.
abbrev pub instruments_methods : List Method
instruments_methods =
    record { name = codes "trading_schedules"; rpc = codes "TradingSchedules" }
    ∷ record { name = codes "bond_by"; rpc = codes "BondBy" }
    ∷ record { name = codes "bonds"; rpc = codes "Bonds" }
    ∷ record { name = codes "get_bond_coupons"; rpc = codes "GetBondCoupons" }
    ∷ record { name = codes "get_bond_events"; rpc = codes "GetBondEvents" }
    ∷ record { name = codes "currency_by"; rpc = codes "CurrencyBy" }
    ∷ record { name = codes "currencies"; rpc = codes "Currencies" }
    ∷ record { name = codes "etf_by"; rpc = codes "EtfBy" }
    ∷ record { name = codes "etfs"; rpc = codes "Etfs" }
    ∷ record { name = codes "future_by"; rpc = codes "FutureBy" }
    ∷ record { name = codes "futures"; rpc = codes "Futures" }
    ∷ record { name = codes "option_by"; rpc = codes "OptionBy" }
    ∷ record { name = codes "options"; rpc = codes "Options" }
    ∷ record { name = codes "options_by"; rpc = codes "OptionsBy" }
    ∷ record { name = codes "share_by"; rpc = codes "ShareBy" }
    ∷ record { name = codes "shares"; rpc = codes "Shares" }
    ∷ record { name = codes "indicatives"; rpc = codes "Indicatives" }
    ∷ record { name = codes "get_accrued_interests"; rpc = codes "GetAccruedInterests" }
    ∷ record { name = codes "get_futures_margin"; rpc = codes "GetFuturesMargin" }
    ∷ record { name = codes "get_instrument_by"; rpc = codes "GetInstrumentBy" }
    ∷ record { name = codes "get_dividends"; rpc = codes "GetDividends" }
    ∷ record { name = codes "get_asset_by"; rpc = codes "GetAssetBy" }
    ∷ record { name = codes "get_assets"; rpc = codes "GetAssets" }
    ∷ record { name = codes "get_favorites"; rpc = codes "GetFavorites" }
    ∷ record { name = codes "edit_favorites"; rpc = codes "EditFavorites" }
    ∷ record { name = codes "create_favorite_group"; rpc = codes "CreateFavoriteGroup" }
    ∷ record { name = codes "delete_favorite_group"; rpc = codes "DeleteFavoriteGroup" }
    ∷ record { name = codes "get_favorite_groups"; rpc = codes "GetFavoriteGroups" }
    ∷ record { name = codes "get_countries"; rpc = codes "GetCountries" }
    ∷ record { name = codes "find_instrument"; rpc = codes "FindInstrument" }
    ∷ record { name = codes "get_brands"; rpc = codes "GetBrands" }
    ∷ record { name = codes "get_brand_by"; rpc = codes "GetBrandBy" }
    ∷ record { name = codes "get_asset_fundamentals"; rpc = codes "GetAssetFundamentals" }
    ∷ record { name = codes "get_asset_reports"; rpc = codes "GetAssetReports" }
    ∷ record { name = codes "get_consensus_forecasts"; rpc = codes "GetConsensusForecasts" }
    ∷ record { name = codes "get_forecast_by"; rpc = codes "GetForecastBy" }
    ∷ record { name = codes "get_risk_rates"; rpc = codes "GetRiskRates" }
    ∷ record { name = codes "get_insider_deals"; rpc = codes "GetInsiderDeals" }
    ∷ record { name = codes "structured_note_by"; rpc = codes "StructuredNoteBy" }
    ∷ record { name = codes "structured_notes"; rpc = codes "StructuredNotes" }
    ∷ []

-- `MarketDataService`.
abbrev pub market_data_methods : List Method
market_data_methods =
    record { name = codes "get_candles"; rpc = codes "GetCandles" }
    ∷ record { name = codes "get_last_prices"; rpc = codes "GetLastPrices" }
    ∷ record { name = codes "get_order_book"; rpc = codes "GetOrderBook" }
    ∷ record { name = codes "get_trading_status"; rpc = codes "GetTradingStatus" }
    ∷ record { name = codes "get_trading_statuses"; rpc = codes "GetTradingStatuses" }
    ∷ record { name = codes "get_last_trades"; rpc = codes "GetLastTrades" }
    ∷ record { name = codes "get_close_prices"; rpc = codes "GetClosePrices" }
    ∷ record { name = codes "get_tech_analysis"; rpc = codes "GetTechAnalysis" }
    ∷ record { name = codes "get_market_values"; rpc = codes "GetMarketValues" }
    ∷ []

-- `OperationsService`.
abbrev pub operations_methods : List Method
operations_methods =
    record { name = codes "get_operations"; rpc = codes "GetOperations" }
    ∷ record { name = codes "get_portfolio"; rpc = codes "GetPortfolio" }
    ∷ record { name = codes "get_positions"; rpc = codes "GetPositions" }
    ∷ record { name = codes "get_withdraw_limits"; rpc = codes "GetWithdrawLimits" }
    ∷ record { name = codes "get_broker_report"; rpc = codes "GetBrokerReport" }
    ∷ record {
      name = codes "get_dividends_foreign_issuer";
      rpc = codes "GetDividendsForeignIssuer";
    }
    ∷ record { name = codes "get_operations_by_cursor"; rpc = codes "GetOperationsByCursor" }
    ∷ []

-- `OrdersService`.
abbrev pub orders_methods : List Method
orders_methods =
    record { name = codes "post_order"; rpc = codes "PostOrder" }
    ∷ record { name = codes "post_order_async"; rpc = codes "PostOrderAsync" }
    ∷ record { name = codes "cancel_order"; rpc = codes "CancelOrder" }
    ∷ record { name = codes "get_order_state"; rpc = codes "GetOrderState" }
    ∷ record { name = codes "get_orders"; rpc = codes "GetOrders" }
    ∷ record { name = codes "replace_order"; rpc = codes "ReplaceOrder" }
    ∷ record { name = codes "get_max_lots"; rpc = codes "GetMaxLots" }
    ∷ record { name = codes "get_order_price"; rpc = codes "GetOrderPrice" }
    ∷ []

-- `StopOrdersService`.
abbrev pub stop_orders_methods : List Method
stop_orders_methods =
    record { name = codes "post_stop_order"; rpc = codes "PostStopOrder" }
    ∷ record { name = codes "get_stop_orders"; rpc = codes "GetStopOrders" }
    ∷ record { name = codes "cancel_stop_order"; rpc = codes "CancelStopOrder" }
    ∷ []

-- `SandboxService`.
abbrev pub sandbox_methods : List Method
sandbox_methods =
    record { name = codes "open_sandbox_account"; rpc = codes "OpenSandboxAccount" }
    ∷ record { name = codes "get_sandbox_accounts"; rpc = codes "GetSandboxAccounts" }
    ∷ record { name = codes "close_sandbox_account"; rpc = codes "CloseSandboxAccount" }
    ∷ record { name = codes "post_sandbox_order"; rpc = codes "PostSandboxOrder" }
    ∷ record { name = codes "post_sandbox_order_async"; rpc = codes "PostSandboxOrderAsync" }
    ∷ record { name = codes "replace_sandbox_order"; rpc = codes "ReplaceSandboxOrder" }
    ∷ record { name = codes "get_sandbox_orders"; rpc = codes "GetSandboxOrders" }
    ∷ record { name = codes "cancel_sandbox_order"; rpc = codes "CancelSandboxOrder" }
    ∷ record { name = codes "get_sandbox_order_state"; rpc = codes "GetSandboxOrderState" }
    ∷ record { name = codes "get_sandbox_order_price"; rpc = codes "GetSandboxOrderPrice" }
    ∷ record { name = codes "get_sandbox_positions"; rpc = codes "GetSandboxPositions" }
    ∷ record { name = codes "get_sandbox_operations"; rpc = codes "GetSandboxOperations" }
    ∷ record {
      name = codes "get_sandbox_operations_by_cursor";
      rpc = codes "GetSandboxOperationsByCursor";
    }
    ∷ record { name = codes "get_sandbox_portfolio"; rpc = codes "GetSandboxPortfolio" }
    ∷ record { name = codes "sandbox_pay_in"; rpc = codes "SandboxPayIn" }
    ∷ record { name = codes "get_sandbox_withdraw_limits"; rpc = codes "GetSandboxWithdrawLimits" }
    ∷ record { name = codes "get_sandbox_max_lots"; rpc = codes "GetSandboxMaxLots" }
    ∷ record { name = codes "post_sandbox_stop_order"; rpc = codes "PostSandboxStopOrder" }
    ∷ record { name = codes "get_sandbox_stop_orders"; rpc = codes "GetSandboxStopOrders" }
    ∷ record { name = codes "cancel_sandbox_stop_order"; rpc = codes "CancelSandboxStopOrder" }
    ∷ []

-- `SignalService`.
abbrev pub signals_methods : List Method
signals_methods =
    record { name = codes "get_strategies"; rpc = codes "GetStrategies" }
    ∷ record { name = codes "get_signals"; rpc = codes "GetSignals" }
    ∷ []
