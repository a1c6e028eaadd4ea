-- ===== src/Types/Tests.antt =====
-- Concrete runs of the transactions' encoding (tuxedo-core/src/types.rs).
use tuxedo.Base.{◌^◌, ◌<◌, ◌≡◌, ◌++◌, refl, some, arith, [], ◌∷◌, length}
use tuxedo.DynamicTyping.{into_dynamic}
use tuxedo.Types.Encoding.{body, encode_transaction, decode_transaction, decode-encode_transaction}
use tuxedo.Samples.Codecs.{bytes}
use tuxedo.Samples.Chain.{chain, spending}

decode_example :
    decode_transaction chain.transactions
      (encode_transaction chain.transactions spending ++ 1 ∷ 2 ∷ [])
    ≡ some (spending, 1 ∷ 2 ∷ [])
decode_example = decode-encode_transaction chain.transactions spending (1 ∷ 2 ∷ [])

opaque :
    bytes.encode (body chain.transactions spending)
    ≡ chain.transactions.compact.encode (length (body chain.transactions spending))
      ++ body chain.transactions spending
unfolding body into_dynamic
opaque = refl

short : length (body chain.transactions spending) < 2 ^ 32
unfolding body into_dynamic
short = omega arith
