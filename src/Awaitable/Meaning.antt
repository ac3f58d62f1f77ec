-- ===== src/Awaitable/Meaning.antt =====
-- What a task of include/tinvest/awaitable.hpp means, with no frames, handles or callbacks: calls and
-- child tasks are plain function calls, and an exception is a way to end.
use tinkoff_invest_sdkv.Prelude.{List, [], ◌∷◌, ◌++◌}
use tinkoff_invest_sdkv.Awaitable.{Ended, returned, raised, Script, returns, throws, calls, awaits}

-- How a script ends, and the requests that it makes, in order.
unfoldable pub evaluate : {Q R V E : Type 0} → (Q → R) → Script Q R V E → Ended V E × List Q
evaluate respond (returns v) = (returned v, [])
evaluate respond (throws e) = (raised e, [])
evaluate respond (calls q k) = let rest = evaluate respond (k (respond q)) in (rest.0, q ∷ rest.1)
evaluate respond (awaits c k) =
    let child = evaluate respond c in
    let rest = evaluate respond (k child.0) in (rest.0, child.1 ++ rest.1)
