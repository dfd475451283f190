-- ===== src/Codegen/Encodings.antt =====
-- codegen/helpers.ts: `getBytesEncodingMethod` and `getDateTimeEncodingMethod`.
use typespec_rust.Prelude.{Text, text, [], ◌∷◌, ◌++◌}
use typespec_rust.Codemodel.Kinds.{
  BytesEncoding, DateTimeEncoding, rfc3339, rfc3339_fixed_width, rfc7231, unix_time,
}
use typespec_rust.Codegen.Use.{Use, add}
use typespec_rust.Codegen.Indentation.{Emit, pure, ◌+>◌, calling}

-- `'decode' | 'encode'`
pub data CodingDirection : Type 0 where
  decode encode : CodingDirection

unfoldable pub coding : CodingDirection → Text
coding decode = text "decode"
coding encode = text "encode"

unfoldable pub bytes_method : BytesEncoding → CodingDirection → Text
unfolding coding
bytes_method BytesEncoding.std d = coding d
bytes_method BytesEncoding.url d = coding d ++ text "_url_safe"

-- `getBytesEncodingMethod`
unfoldable pub get_bytes_encoding_method : BytesEncoding → CodingDirection → Emit Use Text
unfolding bytes_method add
get_bytes_encoding_method e d =
    calling (add (text "azure_core") (text "base64" ∷ []))
    +> pure (text "base64::" ++ bytes_method e d)

-- `'parse' | 'to'`
pub data TimeDirection : Type 0 where
  parse to : TimeDirection

unfoldable pub timing : TimeDirection → Text
timing parse = text "parse"
timing to = text "to"

-- A date encoding in a template.
unfoldable pub date_time_encoding : DateTimeEncoding → Text
date_time_encoding rfc3339 = text "rfc3339"
date_time_encoding rfc3339_fixed_width = text "rfc3339-fixed-width"
date_time_encoding rfc7231 = text "rfc7231"
date_time_encoding unix_time = text "unix_time"

unfoldable pub time_method : DateTimeEncoding → TimeDirection → Emit Use Text
unfolding timing date_time_encoding add
time_method e d =
    let method = timing d ++ (text "_" ++ date_time_encoding e) in
    calling (add (text "azure_core") ((text "time::" ++ method) ∷ [])) +> pure method

-- `getDateTimeEncodingMethod`
unfoldable pub get_date_time_encoding_method : DateTimeEncoding → TimeDirection → Emit Use Text
unfolding time_method
get_date_time_encoding_method unix_time parse = pure (text "OffsetDateTime::from_unix_timestamp")
get_date_time_encoding_method unix_time to = pure (text "unix_timestamp()")
get_date_time_encoding_method e d = time_method e d
