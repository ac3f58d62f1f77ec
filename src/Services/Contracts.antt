-- ===== src/Services/Contracts.antt =====
-- The unary RPCs that the services of contracts/*.proto declare, in their order.
use tinkoff_invest_sdkv.Prelude.{List, [], ◌∷◌, Bytes}
use tinkoff_invest_sdkv.Prelude.Codes.{codes}

-- `service UsersService`.
abbrev pub users_contract : List Bytes
users_contract =
    codes "GetAccounts"
    ∷ codes "GetMarginAttributes"
    ∷ codes "GetUserTariff"
    ∷ codes "GetInfo"
    ∷ codes "GetBankAccounts"
    ∷ codes "CurrencyTransfer"
    ∷ []

-- `service InstrumentsService`.
abbrev pub instruments_contract : List Bytes
instruments_contract =
    codes "TradingSchedules"
    ∷ codes "BondBy"
    ∷ codes "Bonds"
    ∷ codes "GetBondCoupons"
    ∷ codes "GetBondEvents"
    ∷ codes "CurrencyBy"
    ∷ codes "Currencies"
    ∷ codes "EtfBy"
    ∷ codes "Etfs"
    ∷ codes "FutureBy"
    ∷ codes "Futures"
    ∷ codes "OptionBy"
    ∷ codes "Options"
    ∷ codes "OptionsBy"
    ∷ codes "ShareBy"
    ∷ codes "Shares"
    ∷ codes "Indicatives"
    ∷ codes "GetAccruedInterests"
    ∷ codes "GetFuturesMargin"
    ∷ codes "GetInstrumentBy"
    ∷ codes "GetDividends"
    ∷ codes "GetAssetBy"
    ∷ codes "GetAssets"
    ∷ codes "GetFavorites"
    ∷ codes "EditFavorites"
    ∷ codes "CreateFavoriteGroup"
    ∷ codes "DeleteFavoriteGroup"
    ∷ codes "GetFavoriteGroups"
    ∷ codes "GetCountries"
    ∷ codes "FindInstrument"
    ∷ codes "GetBrands"
    ∷ codes "GetBrandBy"
    ∷ codes "GetAssetFundamentals"
    ∷ codes "GetAssetReports"
    ∷ codes "GetConsensusForecasts"
    ∷ codes "GetForecastBy"
    ∷ codes "GetRiskRates"
    ∷ codes "GetInsiderDeals"
    ∷ codes "StructuredNoteBy"
    ∷ codes "StructuredNotes"
    ∷ []

-- `service MarketDataService`.
abbrev pub market_data_contract : List Bytes
market_data_contract =
    codes "GetCandles"
    ∷ codes "GetLastPrices"
    ∷ codes "GetOrderBook"
    ∷ codes "GetTradingStatus"
    ∷ codes "GetTradingStatuses"
    ∷ codes "GetLastTrades"
    ∷ codes "GetClosePrices"
    ∷ codes "GetTechAnalysis"
    ∷ codes "GetMarketValues"
    ∷ []

-- `service OperationsService`.
abbrev pub operations_contract : List Bytes
operations_contract =
    codes "GetOperations"
    ∷ codes "GetPortfolio"
    ∷ codes "GetPositions"
    ∷ codes "GetWithdrawLimits"
    ∷ codes "GetBrokerReport"
    ∷ codes "GetDividendsForeignIssuer"
    ∷ codes "GetOperationsByCursor"
    ∷ []

-- `service OrdersService`.
abbrev pub orders_contract : List Bytes
orders_contract =
    codes "PostOrder"
    ∷ codes "PostOrderAsync"
    ∷ codes "CancelOrder"
    ∷ codes "GetOrderState"
    ∷ codes "GetOrders"
    ∷ codes "ReplaceOrder"
    ∷ codes "GetMaxLots"
    ∷ codes "GetOrderPrice"
    ∷ []

-- `service StopOrdersService`.
abbrev pub stop_orders_contract : List Bytes
stop_orders_contract = codes "PostStopOrder" ∷ codes "GetStopOrders" ∷ codes "CancelStopOrder" ∷ []

-- `service SandboxService`.
abbrev pub sandbox_contract : List Bytes
sandbox_contract =
    codes "OpenSandboxAccount"
    ∷ codes "GetSandboxAccounts"
    ∷ codes "CloseSandboxAccount"
    ∷ codes "PostSandboxOrder"
    ∷ codes "PostSandboxOrderAsync"
    ∷ codes "ReplaceSandboxOrder"
    ∷ codes "GetSandboxOrders"
    ∷ codes "CancelSandboxOrder"
    ∷ codes "GetSandboxOrderState"
    ∷ codes "GetSandboxOrderPrice"
    ∷ codes "GetSandboxPositions"
    ∷ codes "GetSandboxOperations"
    ∷ codes "GetSandboxOperationsByCursor"
    ∷ codes "GetSandboxPortfolio"
    ∷ codes "SandboxPayIn"
    ∷ codes "GetSandboxWithdrawLimits"
    ∷ codes "GetSandboxMaxLots"
    ∷ codes "PostSandboxStopOrder"
    ∷ codes "GetSandboxStopOrders"
    ∷ codes "CancelSandboxStopOrder"
    ∷ []

-- `service SignalService`.
abbrev pub signals_contract : List Bytes
signals_contract = codes "GetStrategies" ∷ codes "GetSignals" ∷ []
