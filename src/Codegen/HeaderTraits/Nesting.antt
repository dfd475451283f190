-- ===== src/Codegen/HeaderTraits/Nesting.antt =====
-- codegen/headerTraits.ts, `getHeaderDeserialization`: the braces of the emitted body nest.
use typespec_rust.Prelude.{ℕ, Text, text, List, [], ◌∷◌, ◌++◌, map, join, All, refl, arith, ◌∙◌}
use typespec_rust.Codemodel.Kinds.{BytesEncoding, DateTimeEncoding, EncodedBytes}
use typespec_rust.Codemodel.Types.{RustType}
use typespec_rust.Codemodel.Types.RustType.{
  encoded_bytes, etag, enum, scalar, string, offset_date_time,
}
use typespec_rust.Codemodel.Client.{
  ResponseHeader, response_header_hash_map, response_header_scalar,
}
use typespec_rust.Utils.SnakeCase.{is_lower, is_digit, deconstruct}
use typespec_rust.Utils.SnakeCase.Shape.{is_small, SmallWord, deconstruct-SmallWord}
use typespec_rust.Codegen.Use.{Use, add}
use typespec_rust.Codegen.Use.Adds.{add_total}
use typespec_rust.Codegen.Use.Extends.{add-Lawful, Extends-trans}
use typespec_rust.Codegen.Indentation.{Emit, ◌>>=◌, pure, ◌+>◌, calling}
use typespec_rust.Codegen.Encodings.{
  get_bytes_encoding_method, bytes_method, coding, decode, date_time_encoding,
}
use typespec_rust.Codegen.Emission.{Sound, line-Sound, push-Sound, pop-Sound, pure-Sound}
use typespec_rust.Codegen.Emission.Braces.{
  braces, brace_free, BraceFree, BraceFree-append, braces-through, using, ◌▸◌, add-Sound, Nested,
  Sound-Nested,
}
use typespec_rust.Codegen.Emission.Matches.{get-Sound}
use typespec_rust.Codegen.Emission.Ifs.{build_if_block-Sound}
use typespec_rust.Codegen.HeaderTraits.{header_of}
use typespec_rust.Codegen.HeaderTraits.Deserialization.{
  upper_case, strip_prefix, const_name, get_header_const_name, prefix_condition, collect_line,
  hash_map_body, decoded_line, optional_line, date_line, scalar_body, get_header_deserialization,
}

upper-BraceFree : (w : Text) → SmallWord w → BraceFree (map upper_case w)
unfolding brace_free upper_case is_small is_lower is_digit
upper-BraceFree [] a = refl
upper-BraceFree (c ∷ w) a = ground (arith, a.0, upper-BraceFree w a.1)

join-BraceFree :
    (ws : List Text) → All SmallWord ws → BraceFree (join (text "_") (map (map upper_case) ws))
unfolding join brace_free
join-BraceFree [] a = refl
join-BraceFree (w ∷ []) a = upper-BraceFree w a.0
join-BraceFree (w ∷ v ∷ ws) a =
    BraceFree-append (map upper_case w ++ text "_")
      (join (text "_") (map (map upper_case) (v ∷ ws)))
      (BraceFree-append (map upper_case w) (text "_") (upper-BraceFree w a.0) refl)
      (join-BraceFree (v ∷ ws) a.1)

const_name-BraceFree : (header : ResponseHeader) → BraceFree (get_header_const_name header)
unfolding get_header_const_name const_name
const_name-BraceFree header =
    join-BraceFree (deconstruct (strip_prefix (header_of header)))
      (deconstruct-SmallWord (strip_prefix (header_of header)))

prefix_condition-BraceFree : (name : Text) → BraceFree name → BraceFree (prefix_condition name)
unfolding prefix_condition brace_free
prefix_condition-BraceFree name f =
    BraceFree-append name (text ".len() && name.starts_with(" ++ (name ++ text ")")) f
      (BraceFree-append name (text ")") f refl)

collect_line-Sound :
    {P : Type 0} {n k : ℕ} (name : Text)
    → BraceFree name
    → Sound (using P) n k (collect_line name) n k
unfolding collect_line braces
collect_line-Sound name f = line-Sound _ _ (λ h. braces-through name _ _ f)

hash_map_body-Sound :
    {P : Type 0} {n k : ℕ} (name : Text)
    → BraceFree name
    → Sound (using P) n k (hash_map_body name) n k
unfolding hash_map_body braces brace_free
hash_map_body-Sound name f =
    line-Sound _ _ (λ h. refl)
    ▸ line-Sound _ _ (λ h. refl)
    ▸ push-Sound _
    ▸ line-Sound _ _ (λ h. refl)
    ▸ get-Sound
    ▸ build_if_block-Sound (prefix_condition name) (collect_line name)
        (prefix_condition-BraceFree name f) (collect_line-Sound name f)
    ▸ pop-Sound _
    ▸ line-Sound _ _ (λ h. refl)
    ▸ pure-Sound _ _ (λ h. refl)

decoded_line-Sound :
    {P : Type 0} {n k : ℕ} (name decoder : Text)
    → BraceFree name
    → BraceFree decoder
    → Sound (using P) n k (decoded_line name decoder) n k
unfolding decoded_line braces
decoded_line-Sound name decoder f g =
    line-Sound _ _ (λ h. braces-through name _ _ f ∙ braces-through decoder _ _ g)

optional_line-Sound :
    {P : Type 0} {n k : ℕ} (name : Text)
    → BraceFree name
    → Sound (using P) n k (optional_line name) n k
unfolding optional_line braces
optional_line-Sound name f = line-Sound _ _ (λ h. braces-through name _ _ f)

date_time_encoding-BraceFree :
    (e : DateTimeEncoding) → BraceFree (text "parse_" ++ date_time_encoding e)
unfolding date_time_encoding brace_free
date_time_encoding-BraceFree DateTimeEncoding.rfc3339 = refl
date_time_encoding-BraceFree DateTimeEncoding.rfc3339_fixed_width = refl
date_time_encoding-BraceFree DateTimeEncoding.rfc7231 = refl
date_time_encoding-BraceFree DateTimeEncoding.unix_time = refl

date_line-Sound :
    {P : Type 0} {n k : ℕ} (name : Text) (e : DateTimeEncoding)
    → BraceFree name
    → Sound (using P) n k (date_line name e) n k
unfolding date_line
date_line-Sound name e f =
    let parse = text "parse_" ++ date_time_encoding e in
    add-Sound (text "azure_core") (text "time::" ++ parse) []
    ▸ decoded_line-Sound name parse f (date_time_encoding-BraceFree e)

-- A method that is brought into scope, and code that uses its name.
named-Sound :
    {P : Type 0} {n k : ℕ} (path t method : Text) (next : Text → Emit Use Text)
    → Sound (using P) n k (next method) n k
    → Sound (using P) n k ((calling (add path (t ∷ [])) +> pure method) >>= next) n k
unfolding ◌+>◌ calling
named-Sound {P} {n} {k} path t method next h = record {
  run = λ s.
      let (v, e) = add_total path t [] s in
      let x = h.run v in
      record {
        emitted = x.emitted;
        after = x.after;
        succeeds = ground (arith, e, x.succeeds);
        keeps = Extends-trans ((add-Lawful path (t ∷ [])).extending s v e) x.keeps;
        counts = x.counts;
      };
}

bytes_method-BraceFree : (e : BytesEncoding) → BraceFree (text "base64::" ++ bytes_method e decode)
unfolding bytes_method coding brace_free
bytes_method-BraceFree BytesEncoding.std = refl
bytes_method-BraceFree BytesEncoding.url = refl

encoded-Sound :
    {P : Type 0} {n k : ℕ} (name : Text) (e : EncodedBytes)
    → BraceFree name
    → Sound (using P) n k (scalar_body name (encoded_bytes e)) n k
unfolding scalar_body get_bytes_encoding_method
encoded-Sound name e f =
    let method = text "base64::" ++ bytes_method e.encoding decode in
    named-Sound (text "azure_core") (text "base64") method (decoded_line name)
      (decoded_line-Sound name method f (bytes_method-BraceFree e.encoding))

scalar_body-Sound :
    {P : Type 0} {n k : ℕ} (name : Text) (t : RustType)
    → BraceFree name
    → Sound (using P) n k (scalar_body name t) n k
unfolding scalar_body braces
scalar_body-Sound name (encoded_bytes e) f = encoded-Sound name e f
scalar_body-Sound name (etag q) f = optional_line-Sound name f
scalar_body-Sound name (enum e) f = optional_line-Sound name f
scalar_body-Sound name (scalar s) f = optional_line-Sound name f
scalar_body-Sound name string f = optional_line-Sound name f
scalar_body-Sound name (offset_date_time o) f = date_line-Sound name o.encoding f
scalar_body-Sound name t f = line-Sound _ _ (λ h. refl)

get_header_deserialization-Sound :
    {P : Type 0} {n k : ℕ} (header : ResponseHeader)
    → Sound (using P) n k (get_header_deserialization header) n k
unfolding get_header_deserialization
get_header_deserialization-Sound (response_header_hash_map h) =
    hash_map_body-Sound _ (const_name-BraceFree (response_header_hash_map h))
get_header_deserialization-Sound (response_header_scalar h) =
    add-Sound (text "azure_core::http") (text "headers::Headers") []
    ▸ scalar_body-Sound _ h.type (const_name-BraceFree (response_header_scalar h))

-- For every header, of any name and type, the body of its method is emitted without an error from every use statements, level and number of open braces; the indentation is as before, the use statements keep what they held, as many braces are open as before, and none is closed that was not opened.
pub get_header_deserialization-Nested :
    (header : ResponseHeader) (u : Use) (n k : ℕ)
    → Nested u n k (get_header_deserialization header u (record { level = n }))
get_header_deserialization-Nested header u n k =
    Sound-Nested (get_header_deserialization header) u (get_header_deserialization-Sound header)
