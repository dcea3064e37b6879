-- ===== src/Server/Reflect/Tests.antt =====
-- src/server.rs: the decoding of concrete queries.
use mockinx.Common.{◌≡◌, refl, [], ◌∷◌, arith}
use mockinx.Text.{str}
use mockinx.Server.Reflect.{urldecode, to_digit, percent_encode, urldecode-percent_encode}

decode_plus : urldecode (str "a+b%21") ≡ str "a b!"
unfolding urldecode to_digit str
decode_plus = refl

-- The two bytes of "é" in UTF-8 become two characters.
urldecode-percent_encode_example : urldecode (percent_encode (195 ∷ 169 ∷ [])) ≡ 195 ∷ 169 ∷ []
urldecode-percent_encode_example =
    urldecode-percent_encode (195 ∷ 169 ∷ []) (omega arith, (omega arith, tt))
