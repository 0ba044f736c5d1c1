-- ===== src/Easy/Http.antt =====
-- packages/easy-types/src/http-message.ts. A string is its UTF-8 bytes, as which it is written and read:
-- what toString does with bytes that are no UTF-8 is left out.
use uniqys_kit.Prelude.{ℕ, ◌^◌, ◌<◌, List, [], ◌∷◌, ◌++◌, All, length, if◌then◌else◌, ok, ◌>>=◌}
use uniqys_kit.Serialize.Integers.{Serializer, Deserializer}
use uniqys_kit.Serialize.Codec.{Fits, Part-then, Part-last}
use uniqys_kit.Serialize.Codec.Numbers.{Fits-uint32}
use uniqys_kit.Serialize.Codec.Collections.{Fits-sized_buffer, Fits-list}
use uniqys_kit.Serialize.UInt32
use uniqys_kit.Serialize.SizedBuffer
use uniqys_kit.Serialize.Lists
use uniqys_kit.Types.FixedBytes.{Bytes, equals}

-- String.serialize and String.deserialize
abbrev pub string_serialize : Serializer Bytes
string_serialize = SizedBuffer.serialize

abbrev pub string_deserialize : Deserializer Bytes
string_deserialize = SizedBuffer.deserialize

abbrev pub Header : Type 0
Header = Bytes × Bytes

abbrev pub HttpHeaders : Type 0
HttpHeaders = List Header

unfoldable pub header_serialize : Serializer Header
header_serialize (key, value) w = do w₁ ← string_serialize key w; string_serialize value w₁

unfoldable pub header_deserialize : Deserializer Header
header_deserialize r = do
  (key, r₁) ← string_deserialize r
  (value, r₂) ← string_deserialize r₁
  ok ((key, value), r₂)

unfoldable pub headers_serialize : Serializer HttpHeaders
headers_serialize = Lists.serialize header_serialize

unfoldable pub headers_deserialize : Deserializer HttpHeaders
headers_deserialize = Lists.deserialize header_deserialize

-- What a field of the object holds.
pub data HeaderValue : Type 0 where
  single : Bytes → HeaderValue
  many : List Bytes → HeaderValue

-- An empty string is taken for a missing value.
unfoldable pub add_value : Bytes → HeaderValue → HeaderValue
add_value value (single []) = single value
add_value value (single (x ∷ xs)) = many ((x ∷ xs) ∷ value ∷ [])
add_value value (many values) = many (values ++ (value ∷ []))

unfoldable pub put_value : Bytes → Bytes → List (Bytes × HeaderValue) → List (Bytes × HeaderValue)
unfolding add_value
put_value field value [] = (field, single value) ∷ []
put_value field value ((f, v) ∷ object) =
    let rest = put_value field value object in
    if equals f field then (f, add_value value v) ∷ object else (f, v) ∷ rest

unfoldable pub to_object_from :
    List (Bytes × HeaderValue) → HttpHeaders → List (Bytes × HeaderValue)
unfolding put_value
to_object_from object [] = object
to_object_from object ((field, value) ∷ headers) =
    to_object_from (put_value field value object) headers

unfoldable pub to_object : HttpHeaders → List (Bytes × HeaderValue)
unfolding to_object_from
to_object headers = to_object_from [] headers

pub record HttpRequest : Type 0 where
  pub method : Bytes
  pub path : Bytes
  pub headers : HttpHeaders
  pub body : Bytes

unfoldable pub request_serialize : Serializer HttpRequest
request_serialize m w = do
  w₁ ← string_serialize m.method w
  w₂ ← string_serialize m.path w₁
  w₃ ← headers_serialize m.headers w₂
  SizedBuffer.serialize m.body w₃

unfoldable pub request_deserialize : Deserializer HttpRequest
request_deserialize r = do
  (method, r₁) ← string_deserialize r
  (path, r₂) ← string_deserialize r₁
  (headers, r₃) ← headers_deserialize r₂
  (body, r₄) ← SizedBuffer.deserialize r₃
  ok (record { method = method; path = path; headers = headers; body = body }, r₄)

pub record HttpResponse : Type 0 where
  pub status : ℕ
  pub message : Bytes
  pub headers : HttpHeaders
  pub body : Bytes

unfoldable pub response_serialize : Serializer HttpResponse
response_serialize m w = do
  w₁ ← UInt32.serialize m.status w
  w₂ ← string_serialize m.message w₁
  w₃ ← headers_serialize m.headers w₂
  SizedBuffer.serialize m.body w₃

unfoldable pub response_deserialize : Deserializer HttpResponse
response_deserialize r = do
  (status, r₁) ← UInt32.deserialize r
  (message, r₂) ← string_deserialize r₁
  (headers, r₃) ← headers_deserialize r₂
  (body, r₄) ← SizedBuffer.deserialize r₃
  ok (record { status = status; message = message; headers = headers; body = body }, r₄)

-- Values that the wire format can hold.
abbrev pub HeaderInRange : Header → Type 0
HeaderInRange (key, value) = (length key < 2 ^ 32) × (length value < 2 ^ 32)

pub record RequestInRange (m : HttpRequest) : Type 0 where
  pub method : length m.method < 2 ^ 32
  pub path : length m.path < 2 ^ 32
  pub few_headers : length m.headers < 2 ^ 32
  pub headers : All HeaderInRange m.headers
  pub body : length m.body < 2 ^ 32

pub record ResponseInRange (m : HttpResponse) : Type 0 where
  pub status : m.status < 2 ^ 32
  pub message : length m.message < 2 ^ 32
  pub few_headers : length m.headers < 2 ^ 32
  pub headers : All HeaderInRange m.headers
  pub body : length m.body < 2 ^ 32

Fits-header : (h : Header) → HeaderInRange h → Fits header_serialize header_deserialize h
unfolding header_serialize header_deserialize
Fits-header (key, value) (k, v) =
    Part-then SizedBuffer.serialize SizedBuffer.deserialize _ (Fits-sized_buffer key k) (
      Part-last SizedBuffer.serialize SizedBuffer.deserialize (λ value. (key, value))
        (Fits-sized_buffer value v))

AllFit :
    (hs : HttpHeaders) → All HeaderInRange hs → All (Fits header_serialize header_deserialize) hs
AllFit [] h = h
AllFit (x ∷ xs) (h, hs) = (Fits-header x h, AllFit xs hs)

Fits-headers :
    (hs : HttpHeaders)
    → length hs < 2 ^ 32
    → All HeaderInRange hs
    → Fits headers_serialize headers_deserialize hs
unfolding headers_serialize headers_deserialize
Fits-headers hs few each = Fits-list header_serialize header_deserialize hs few (AllFit hs each)

pub Fits-request :
    (m : HttpRequest) → RequestInRange m → Fits request_serialize request_deserialize m
unfolding request_serialize request_deserialize
Fits-request m fits =
    Part-then SizedBuffer.serialize SizedBuffer.deserialize _
      (Fits-sized_buffer m.method fits.method)
      (Part-then SizedBuffer.serialize SizedBuffer.deserialize _
        (Fits-sized_buffer m.path fits.path)
        (Part-then headers_serialize headers_deserialize _
          (Fits-headers m.headers fits.few_headers fits.headers)
          (Part-last SizedBuffer.serialize SizedBuffer.deserialize
            (λ body. record { method = m.method; path = m.path; headers = m.headers; body = body })
            (Fits-sized_buffer m.body fits.body))))

pub Fits-response :
    (m : HttpResponse) → ResponseInRange m → Fits response_serialize response_deserialize m
unfolding response_serialize response_deserialize
Fits-response m fits =
    Part-then UInt32.serialize UInt32.deserialize _ (Fits-uint32 m.status fits.status) (
      Part-then SizedBuffer.serialize SizedBuffer.deserialize _
        (Fits-sized_buffer m.message fits.message)
        (Part-then headers_serialize headers_deserialize _
          (Fits-headers m.headers fits.few_headers fits.headers)
          (Part-last SizedBuffer.serialize SizedBuffer.deserialize
            (λ body. record {
              status = m.status;
              message = m.message;
              headers = m.headers;
              body = body;
            })
            (Fits-sized_buffer m.body fits.body))))
