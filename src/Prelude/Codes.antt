-- ===== src/Prelude/Codes.antt =====
-- The bytes of a string literal.
use Prim.Native.String.{String}
use Prim.Native.Char.{code}
use tinkoff_invest_sdkv.Prelude.{[], ◌∷◌, Bytes}

abbrev pub codes : String → Bytes
codes String.[] = []
codes (String.◌∷◌ c s) = code c ∷ codes s
