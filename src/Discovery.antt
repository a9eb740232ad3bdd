-- ===== src/Discovery.antt =====
-- src/discovery.cpp: the sensor's configuration page, asked for through libcurl. What libcurl answers
-- is a record of parameters; the calls that it makes of `append_response` are a list of chunks.
pub mod Response
pub mod Success
use netft_cpp.Base.{
  ℕ, ◌+◌, ◌-◌, ◌*◌, ◌/◌, ◌^◌, Bool, true, false, not, ◌&&◌, ◌||◌, List, [], ◌∷◌, ◌++◌, Option, none,
  some, Result, ok, err, ◌>>=◌, ◌>>◌, guard, if◌then◌else◌, ltb, ◌==◌, u64, length,
}
use netft_cpp.Base.Int.{ℤ, pos, leb_ℤ}
use netft_cpp.Base.Text.{Bytes, codes}
use netft_cpp.Client.Configuration.{DiscoveryOptions}
use netft_cpp.Floats.{Floats, LongFloats}
use netft_cpp.Types.{SensorConfiguration}
use netft_cpp.XmlConfig.Values.{parse_sensor_configuration}
use netft_cpp.XmlConfig.Values

-- The `DiscoveryError` that is thrown, by its cause. The last says that the scan of the page was not
-- given enough fuel, which never happens.
pub data Refusal : Type 0 where
  blank_host bad_port bad_connect_timeout bad_total_timeout not_initialized no_handle no_url :
      Refusal
  bad_url unset_option too_large not_stored not_inspected : Refusal
  transfer_failed : Bytes → Refusal
  http_status : ℤ → Refusal
  unreadable : Values.DiscoveryError → Refusal
  still_scanning : Refusal

abbrev pub maximum_response_bytes : ℕ
maximum_response_bytes = 65536

abbrev pub configuration_protocol : Bytes
configuration_protocol = codes "http"

pub record ResponseBuffer : Type 0 where
  pub body : Bytes
  pub too_large : Bool
  pub write_failed : Bool

abbrev pub empty_response : ResponseBuffer
empty_response = record { body = []; too_large = false; write_failed = false }

-- A call of `append_response`: `count` items of `size` bytes, and whether the body can grow.
pub record Chunk : Type 0 where
  pub bytes : Bytes
  pub size : ℕ
  pub count : ℕ
  pub no_memory : Bool

-- the parts of the URL; the port is written in decimal
pub data UrlPart : Type 0 where
  scheme_part host_part path_part : Bytes → UrlPart
  port_part : ℤ → UrlPart

-- the options that are set, in `CURLOPT_PROTOCOLS_STR`'s form; times are in milliseconds
pub data CurlOption : Type 0 where
  url_option write_function write_data : CurlOption
  protocols proxy : Bytes → CurlOption
  follow_location max_redirects no_signal connect_timeout_ms timeout_ms : ℕ → CurlOption

-- What libcurl answers; the transfer fails with a text, and the status may not be known.
pub record Curl : Type 0 where
  pub initializes : Bool
  pub gives_handle : Bool
  pub gives_url : Bool
  pub takes_part : UrlPart → Bool
  pub takes_option : CurlOption → Bool
  pub chunks : List Chunk
  pub transfer : Result Bytes (Unit {0})
  pub status : Option ℤ

abbrev Check : Type 0
Check = Result Refusal (Unit {0})

all_ascii_blank : Bytes → Bool
all_ascii_blank [] = true
all_ascii_blank (c ∷ cs) =
    (c == b' ' || (c == 9 || (c == 10 || (c == 13 || (c == 12 || c == 11))))) && all_ascii_blank cs

unfoldable pub is_ascii_blank : Bytes → Bool
unfolding all_ascii_blank
is_ascii_blank [] = true
is_ascii_blank (c ∷ cs) = all_ascii_blank (c ∷ cs)

-- `data` is the chunk's bytes, of which the call names `size * count`.
unfoldable pub append_response : Chunk → ResponseBuffer → ResponseBuffer × ℕ
append_response chunk response =
    let byte_count = u64 (chunk.size * chunk.count) in
    if not (chunk.size == 0) && ltb ((2 ^ 64 - 1) / chunk.size) chunk.count
    then (record response { too_large = true }, 0)
    else if ltb (maximum_response_bytes - length response.body) byte_count
    then (record response { too_large = true }, 0)
    else if chunk.no_memory
    then (record response { write_failed = true }, 0)
    else (record response { body = response.body ++ chunk.bytes }, byte_count)

unfoldable pub append_all : List Chunk → ResponseBuffer → ResponseBuffer
append_all [] response = response
append_all (chunk ∷ chunks) response =
    let (next, taken) = append_response chunk response in append_all chunks next

-- `host.find(':') != npos`
has_colon : Bytes → Bool
has_colon [] = false
has_colon (c ∷ cs) = c == b':' || has_colon cs

-- `host.back() == ']'` and `host.front() == '['`
ends_with_bracket : Bytes → Bool
ends_with_bracket [] = false
ends_with_bracket (c ∷ []) = c == b']'
ends_with_bracket (c ∷ d ∷ cs) = ends_with_bracket (d ∷ cs)

starts_with_bracket : Bytes → Bool
starts_with_bracket [] = false
starts_with_bracket (c ∷ cs) = c == b'['

unfoldable pub bracket_host : Bytes → Bytes
unfolding has_colon ends_with_bracket starts_with_bracket
bracket_host host =
    if has_colon host
      && (ltb (length host) 2 || (not (starts_with_bracket host) || not (ends_with_bracket host)))
    then b'[' ∷ (host ++ (b']' ∷ []))
    else host

-- the bytes of `c_str()`, which end at the first 0
unfoldable pub c_str : Bytes → Bytes
c_str [] = []
c_str (c ∷ cs) = if c == 0 then [] else c ∷ c_str cs

set_url_part : Curl → UrlPart → Check
set_url_part curl part = guard (curl.takes_part part) bad_url

set_curl_option : Curl → CurlOption → Check
set_curl_option curl option = guard (curl.takes_option option) unset_option

unfoldable pub set_url : Curl → Bytes → ℤ → Check
unfolding set_url_part c_str bracket_host
set_url curl host port = do
  set_url_part curl (scheme_part configuration_protocol)
  set_url_part curl (host_part (c_str (bracket_host host)))
  set_url_part curl (port_part port)
  set_url_part curl (path_part (codes "/netftapi2.xml"))

-- behind the transfer, with what it has stored
check_response : ResponseBuffer → Result Bytes (Unit {0}) → Check
check_response response (ok done) = do
  guard (not response.too_large) too_large
  guard (not response.write_failed) not_stored
check_response response (err message) = do
  guard (not response.too_large) too_large
  guard (not response.write_failed) not_stored
  err (transfer_failed message)

-- by what `curl_easy_getinfo` answers
check_status : Option ℤ → Check
check_status none = err not_inspected
check_status (some (pos status)) =
    if not (status == 200) then err (http_status (pos status)) else ok tt
check_status (some status) = err (http_status status)

read_page : {A : Type 0} → Option (Result Values.DiscoveryError A) → Result Refusal A
read_page none = err still_scanning
read_page (some (ok configuration)) = ok configuration
read_page (some (err error)) = err (unreadable error)

module _ (F : Floats) (L : LongFloats F.Double) where
  open F use {Double, is_finite, le, of_int}
  open L use {long_of, long_of_nat, long_is_finite, long_lt, long_mul, ceil, truncate}

  -- `std::numeric_limits<long>::max()` is that of a 64-bit `long`.
  unfoldable pub timeout_milliseconds : Double → Refusal → Result Refusal ℕ
  timeout_milliseconds seconds refusal = do
    guard (not (not (is_finite seconds) || le seconds (of_int (pos 0)))) refusal
    let rounded = ceil (long_mul (long_of seconds) (long_of_nat 1000))
    guard (not (not (long_is_finite rounded) || long_lt (long_of_nat (2 ^ 63 - 1)) rounded)) refusal
    ok (truncate rounded)

  unfoldable pub validate_options : DiscoveryOptions Double → Check
  validate_options options = do
    guard (not (is_ascii_blank options.sensor_host)) blank_host
    guard (leb_ℤ (pos 1) options.http_port && leb_ℤ options.http_port (pos 65535)) bad_port
    connect ← timeout_milliseconds options.connect_timeout bad_connect_timeout
    total ← timeout_milliseconds options.total_timeout bad_total_timeout
    ok tt

  unfoldable pub set_options : Curl → DiscoveryOptions Double → Check
  unfolding set_curl_option
  set_options curl options = do
    set_curl_option curl url_option
    set_curl_option curl (protocols configuration_protocol)
    set_curl_option curl (follow_location 0)
    set_curl_option curl (max_redirects 0)
    set_curl_option curl (no_signal 1)
    set_curl_option curl (proxy [])
    connect ← timeout_milliseconds options.connect_timeout bad_connect_timeout
    set_curl_option curl (connect_timeout_ms connect)
    total ← timeout_milliseconds options.total_timeout bad_total_timeout
    set_curl_option curl (timeout_ms total)
    set_curl_option curl write_function
    set_curl_option curl write_data

  module _ (read_double : Bytes → Option (Double × Bytes)) where
    unfoldable pub discover_sensor :
        Curl → DiscoveryOptions Double → Result Refusal (SensorConfiguration Double)
    unfolding check_response check_status read_page
    discover_sensor curl options = do
      validate_options options
      guard curl.initializes not_initialized
      guard curl.gives_handle no_handle
      guard curl.gives_url no_url
      set_url curl options.sensor_host options.http_port
      set_options curl options
      let response = append_all curl.chunks empty_response
      check_response response curl.transfer
      check_status curl.status
      read_page (parse_sensor_configuration F read_double response.body)
