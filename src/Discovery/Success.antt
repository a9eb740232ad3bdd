-- ===== src/Discovery/Success.antt =====
-- When `discover_sensor` returns a configuration.
use netft_cpp.Base.{
  ℕ, ◌≤◌, ◌≡◌, ◌↔◌, refl, arith, Bool, true, false, not, ◌&&◌, [], ◌∷◌, Option, none, some, Result,
  ok, err, guard, length, All, >>=-eq-ok,
}
use netft_cpp.Base.Int.{ℤ, pos, negsuc, leb_ℤ}
use netft_cpp.Base.Text.{Bytes, codes}
use netft_cpp.Client.Configuration.{DiscoveryOptions}
use netft_cpp.Discovery.{
  Refusal, bad_url, unset_option, too_large, not_stored, blank_host, bad_port, bad_connect_timeout,
  bad_total_timeout, not_initialized, no_handle, no_url, maximum_response_bytes, ResponseBuffer,
  empty_response, scheme_part, host_part, port_part, path_part, CurlOption, url_option, protocols,
  follow_location, max_redirects, no_signal, proxy, connect_timeout_ms, timeout_ms, write_function,
  write_data, Curl, is_ascii_blank, append_all, bracket_host, c_str, set_url_part, set_curl_option,
  set_url, check_response, check_status, read_page, timeout_milliseconds, validate_options,
  set_options, discover_sensor,
}
use netft_cpp.Discovery.Response.{
  IsChunk, Stored, Clean, all_bytes, append_all_whole, append_all_fits,
}
use netft_cpp.Floats.{Floats, LongFloats}
use netft_cpp.Types.{SensorConfiguration}
use netft_cpp.XmlConfig.Values
use netft_cpp.XmlConfig.Values.{parse_sensor_configuration}
use netft_cpp.XmlConfig.Values.Reading.{IsFromSensor, parse_sensor_configuration_sound}

guarded : (holds : Bool) (thrown : Refusal) → guard holds thrown ≡ ok tt → holds ≡ true
guarded true thrown e = refl
guarded false thrown e = cc

-- The URL that libcurl has taken: the page's path on the host, with an IPv6 address in brackets.
pub record IsUrl (curl : Curl) (host : Bytes) (port : ℤ) : Type 0 where
  pub scheme : curl.takes_part (scheme_part (codes "http")) ≡ true
  pub on_host : curl.takes_part (host_part (c_str (bracket_host host))) ≡ true
  pub on_port : curl.takes_part (port_part port) ≡ true
  pub path : curl.takes_part (path_part (codes "/netftapi2.xml")) ≡ true

set_url-IsUrl :
    (curl : Curl) (host : Bytes) (port : ℤ) → set_url curl host port ≡ ok tt → IsUrl curl host port
unfolding set_url set_url_part
set_url-IsUrl curl host port e =
    let (_, a, e1) = >>=-eq-ok (guard (curl.takes_part (scheme_part (codes "http"))) bad_url) _ e in
    let (_, b, e2) =
      >>=-eq-ok (guard (curl.takes_part (host_part (c_str (bracket_host host)))) bad_url) _ e1 in
    let (_, c, e3) = >>=-eq-ok (guard (curl.takes_part (port_part port)) bad_url) _ e2 in
    record {
      scheme = guarded _ _ a;
      on_host = guarded _ _ b;
      on_port = guarded _ _ c;
      path = guarded _ _ e3;
    }

check_response-Clean :
    (response : ResponseBuffer) (transfer : Result Bytes (Unit {0}))
    → check_response response transfer ≡ ok tt
    → Clean response × (transfer ≡ ok tt)
unfolding check_response
check_response-Clean response (ok tt) e =
    let (_, a, e1) = >>=-eq-ok (guard (not response.too_large) too_large) _ e in
    ((ground arith, ground arith), refl)
check_response-Clean response (err message) e =
    let (_, a, e1) = >>=-eq-ok (guard (not response.too_large) too_large) _ e in
    let (_, b, e2) = >>=-eq-ok (guard (not response.write_failed) not_stored) _ e1 in cc

check_status_ok : (status : Option ℤ) → check_status status ≡ ok tt → status ≡ some (pos 200)
unfolding check_status
check_status_ok none e = cc
check_status_ok (some (pos n)) e = ground arith
check_status_ok (some (negsuc n)) e = cc

read_page_ok :
    {A : Type 0} (page : Option (Result Values.DiscoveryError A)) (a : A)
    → read_page page ≡ ok a
    → page ≡ some (ok a)
unfolding read_page
read_page_ok none a e = cc
read_page_ok (some (ok b)) a e = cc
read_page_ok (some (err x)) a e = cc

module _ (F : Floats) (L : LongFloats F.Double) where
  open F use {Double}

  -- The options that libcurl has taken: HTTP only, no redirection, no signals, no proxy, both
  -- timeouts, and where the body goes.
  pub record HasOptions (curl : Curl) (options : DiscoveryOptions Double) : Type 0 where
    pub connect_ms : ℕ
    pub total_ms : ℕ
    pub connect_time :
        timeout_milliseconds F L options.connect_timeout bad_connect_timeout ≡ ok connect_ms
    pub total_time : timeout_milliseconds F L options.total_timeout bad_total_timeout ≡ ok total_ms
    pub takes :
        All
          (λ (option : CurlOption). curl.takes_option option ≡ true)
          (url_option
            ∷ protocols (codes "http")
            ∷ follow_location 0
            ∷ max_redirects 0
            ∷ no_signal 1
            ∷ proxy []
            ∷ connect_timeout_ms connect_ms
            ∷ timeout_ms total_ms
            ∷ write_function
            ∷ write_data
            ∷ [])

  set_options-HasOptions :
      (curl : Curl) (options : DiscoveryOptions Double)
      → set_options F L curl options ≡ ok tt
      → HasOptions curl options
  unfolding set_options set_curl_option
  set_options-HasOptions curl options e =
      let sets = λ (option : CurlOption). guard (curl.takes_option option) unset_option in
      let (_, a, e1) = >>=-eq-ok (sets url_option) _ e in
      let (_, b, e2) = >>=-eq-ok (sets (protocols (codes "http"))) _ e1 in
      let (_, c, e3) = >>=-eq-ok (sets (follow_location 0)) _ e2 in
      let (_, d, e4) = >>=-eq-ok (sets (max_redirects 0)) _ e3 in
      let (_, f, e5) = >>=-eq-ok (sets (no_signal 1)) _ e4 in
      let (_, g, e6) = >>=-eq-ok (sets (proxy [])) _ e5 in
      let (m, h, e7) =
        >>=-eq-ok (timeout_milliseconds F L options.connect_timeout bad_connect_timeout) _ e6 in
      let (_, i, e8) = >>=-eq-ok (sets (connect_timeout_ms m)) _ e7 in
      let (n, j, e9) =
        >>=-eq-ok (timeout_milliseconds F L options.total_timeout bad_total_timeout) _ e8 in
      let (_, k, e10) = >>=-eq-ok (sets (timeout_ms n)) _ e9 in
      let (_, l, e11) = >>=-eq-ok (sets write_function) _ e10 in
      record {
        connect_ms = m;
        total_ms = n;
        connect_time = h;
        total_time = j;
        takes = (
          guarded _ _ a,
          (
            guarded _ _ b,
            (
              guarded _ _ c,
              (
                guarded _ _ d,
                (
                  guarded _ _ f,
                  (
                    guarded _ _ g,
                    (guarded _ _ i, (guarded _ _ k, (guarded _ _ l, (guarded _ _ e11, tt)))),
                  ),
                ),
              ),
            ),
          ),
        );
      }

  -- What options were accepted.
  pub record IsAccepted (options : DiscoveryOptions Double) : Type 0 where
    pub host : is_ascii_blank options.sensor_host ≡ false
    pub port : (leb_ℤ (pos 1) options.http_port && leb_ℤ options.http_port (pos 65535)) ≡ true

  validate_options-IsAccepted :
      (options : DiscoveryOptions Double)
      → validate_options F L options ≡ ok tt
      → IsAccepted options
  unfolding validate_options
  validate_options-IsAccepted options e =
      let (_, a, e1) =
        >>=-eq-ok (guard (not (is_ascii_blank options.sensor_host)) blank_host) _ e in
      let (_, b, e2) =
        >>=-eq-ok
          (guard (leb_ℤ (pos 1) options.http_port && leb_ℤ options.http_port (pos 65535)) bad_port)
          _ e1 in
      record { host = ground arith; port = guarded _ _ b }

  module _ (read_double : Bytes → Option (Double × Bytes)) where
    -- A discovery that has gone well: the options were accepted, libcurl has taken the URL and every
    -- option, the transfer has brought all of a page of at most 65536 bytes with status 200, and the
    -- page reads as the configuration.
    pub record IsDiscovery (curl : Curl) (options : DiscoveryOptions Double)
        (c : SensorConfiguration Double) : Type 0 where
      pub accepted : IsAccepted options
      pub initialized : curl.initializes ≡ true
      pub handled : curl.gives_handle ≡ true
      pub located : curl.gives_url ≡ true
      pub url : IsUrl curl options.sensor_host options.http_port
      pub set_up : HasOptions curl options
      pub transferred : curl.transfer ≡ ok tt
      pub stored : All Stored curl.chunks
      pub bounded : length (all_bytes curl.chunks) ≤ maximum_response_bytes
      pub status : curl.status ≡ some (pos 200)
      pub page : parse_sensor_configuration F read_double (all_bytes curl.chunks) ≡ some (ok c)
      pub sound : IsFromSensor F read_double c

    validated :
        (curl : Curl) (options : DiscoveryOptions Double)
        → IsAccepted options
        → HasOptions curl options
        → validate_options F L options ≡ ok tt
    unfolding validate_options
    validated curl options a s = rw (a.host, a.port, s.connect_time, s.total_time) refl

    set_up_options :
        (curl : Curl) (options : DiscoveryOptions Double)
        → HasOptions curl options
        → set_options F L curl options ≡ ok tt
    unfolding set_options set_curl_option
    set_up_options curl options s =
        let (a, (b, (c, (d, (e, (f, (g, (h, (i, (j, t)))))))))) = s.takes in
        rw (a, b, c, d, e, f, s.connect_time, g, s.total_time, h, i, j) refl

    located_url :
        (curl : Curl) (host : Bytes) (port : ℤ)
        → IsUrl curl host port
        → set_url curl host port ≡ ok tt
    unfolding set_url set_url_part
    located_url curl host port u = rw (u.scheme, u.on_host, u.on_port, u.path) refl

    checked_response :
        (response : ResponseBuffer) (transfer : Result Bytes (Unit {0}))
        → Clean response
        → transfer ≡ ok tt
        → check_response response transfer ≡ ok tt
    unfolding check_response
    checked_response response transfer clean t = rw (t, clean.0, clean.1) refl

    checked_status : (status : Option ℤ) → status ≡ some (pos 200) → check_status status ≡ ok tt
    unfolding check_status
    checked_status status e = rw e refl

    read_whole :
        (body page : Bytes) (c : SensorConfiguration Double)
        → body ≡ page
        → parse_sensor_configuration F read_double page ≡ some (ok c)
        → read_page (parse_sensor_configuration F read_double body) ≡ ok c
    unfolding read_page
    read_whole body page c e p = rw (e, p) refl

    IsDiscovery-discovers :
        (curl : Curl) (options : DiscoveryOptions Double) (c : SensorConfiguration Double)
        → All IsChunk curl.chunks
        → IsDiscovery curl options c
        → discover_sensor F L read_double curl options ≡ ok c
    unfolding discover_sensor
    IsDiscovery-discovers curl options c whole d =
        let response = append_all curl.chunks empty_response in
        let (clean, body) = append_all_fits curl.chunks whole d.stored d.bounded in
        simp
          (
            validated curl options d.accepted d.set_up,
            d.initialized,
            d.handled,
            d.located,
            located_url curl options.sensor_host options.http_port d.url,
            set_up_options curl options d.set_up,
            checked_response response curl.transfer clean d.transferred,
            checked_status curl.status d.status,
          )
          (read_whole response.body (all_bytes curl.chunks) c body d.page)

    discover_sensor-IsDiscovery :
        (curl : Curl) (options : DiscoveryOptions Double) (c : SensorConfiguration Double)
        → All IsChunk curl.chunks
        → discover_sensor F L read_double curl options ≡ ok c
        → IsDiscovery curl options c
    unfolding discover_sensor
    discover_sensor-IsDiscovery curl options c whole e =
        let response = append_all curl.chunks empty_response in
        let (_, a, e1) = >>=-eq-ok (validate_options F L options) _ e in
        let (_, b, e2) = >>=-eq-ok (guard curl.initializes not_initialized) _ e1 in
        let (_, d, e3) = >>=-eq-ok (guard curl.gives_handle no_handle) _ e2 in
        let (_, f, e4) = >>=-eq-ok (guard curl.gives_url no_url) _ e3 in
        let (_, g, e5) = >>=-eq-ok (set_url curl options.sensor_host options.http_port) _ e4 in
        let (_, h, e6) = >>=-eq-ok (set_options F L curl options) _ e5 in
        let (_, i, e7) = >>=-eq-ok (check_response response curl.transfer) _ e6 in
        let (_, j, e8) = >>=-eq-ok (check_status curl.status) _ e7 in
        let (clean, transferred) = check_response-Clean response curl.transfer i in
        let (small, (kept, back)) = append_all_whole curl.chunks whole in
        let (stored, bounded, body) = kept clean in
        let page = read_page_ok (parse_sensor_configuration F read_double response.body) c e8 in
        record {
          accepted = validate_options-IsAccepted options a;
          initialized = guarded _ _ b;
          handled = guarded _ _ d;
          located = guarded _ _ f;
          url = set_url-IsUrl curl options.sensor_host options.http_port g;
          set_up = set_options-HasOptions curl options h;
          transferred = transferred;
          stored = stored;
          bounded = bounded;
          status = check_status_ok curl.status j;
          page = rw (← body) page;
          sound = parse_sensor_configuration_sound F read_double response.body c page;
        }

    -- `discover_sensor` returns a configuration exactly from a discovery that has gone well in every
    -- step, however libcurl cuts the page up, and that configuration is what the page gives as a whole:
    -- it has a usable product name and a valid calibration, comes from the sensor, and has revision 1.
    pub discover_sensor_iff :
        (curl : Curl) (options : DiscoveryOptions Double) (c : SensorConfiguration Double)
        → All IsChunk curl.chunks
        → (discover_sensor F L read_double curl options ≡ ok c) ↔ IsDiscovery curl options c
    discover_sensor_iff curl options c whole = (
      discover_sensor-IsDiscovery curl options c whole,
      IsDiscovery-discovers curl options c whole,
    )
