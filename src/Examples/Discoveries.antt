-- ===== src/Examples/Discoveries.antt =====
-- A page that comes in two chunks.
use netft_cpp.Base.{◌≤◌, ◌≡◌, ◌↔◌, refl, arith, true, false, List, [], ◌∷◌, some, ok, All, length}
use netft_cpp.Base.Int.{pos}
use netft_cpp.Base.Text.{Bytes, codes}
use netft_cpp.Client.Configuration.{DiscoveryOptions}
use netft_cpp.Discovery.{
  Chunk, Curl, append_all, empty_response, discover_sensor, timeout_milliseconds, is_ascii_blank,
}
use netft_cpp.Discovery.Response.{Stored, Clean, append_all_whole}
use netft_cpp.Discovery.Success.{IsDiscovery, HasOptions, discover_sensor_iff}
use netft_cpp.Examples.Fixtures.{configuration}
use netft_cpp.Examples.Numbers.{Number, numbers, long_numbers, whole}
use netft_cpp.Examples.Pages.{full_page, read_double, full_page_configured}
use netft_cpp.XmlConfig.Values.Reading.{parse_sensor_configuration_sound}

abbrev chunk : Bytes → Chunk
chunk bytes = record { bytes = bytes; size = 1; count = length bytes; no_memory = false }

abbrev two_chunks : List Chunk
two_chunks = chunk (codes "<netft>") ∷ chunk (codes "</netft>") ∷ []

append_all_whole_example :
    let response = append_all two_chunks empty_response in
    (length response.body ≤ 65536)
    × (Clean response ↔ (
        All Stored two_chunks
        × (length (codes "<netft></netft>") ≤ 65536)
        × (response.body ≡ codes "<netft></netft>")))
append_all_whole_example = append_all_whole two_chunks (omega arith)

abbrev options : DiscoveryOptions Number
options = record {
  sensor_host = codes "192.168.1.1";
  http_port = pos 80;
  connect_timeout = whole 2;
  total_timeout = whole 5;
}

-- everything goes well
abbrev curl : Curl
curl = record {
  initializes = true;
  gives_handle = true;
  gives_url = true;
  takes_part = λ part. true;
  takes_option = λ option. true;
  chunks = chunk full_page ∷ [];
  transfer = ok tt;
  status = some (pos 200);
}

set_up : HasOptions numbers long_numbers curl options
unfolding timeout_milliseconds
set_up = record {
  connect_ms = 2000;
  total_ms = 5000;
  connect_time = refl;
  total_time = refl;
  takes = (refl, (refl, (refl, (refl, (refl, (refl, (refl, (refl, (refl, (refl, tt))))))))));
}

discovery : IsDiscovery numbers long_numbers read_double curl options configuration
unfolding is_ascii_blank
discovery = record {
  accepted = record { host = refl; port = refl };
  initialized = refl;
  handled = refl;
  located = refl;
  url = record { scheme = refl; on_host = refl; on_port = refl; path = refl };
  set_up = set_up;
  transferred = refl;
  stored = (refl, tt);
  bounded = omega arith;
  status = refl;
  page = full_page_configured;
  sound =
      parse_sensor_configuration_sound numbers read_double full_page configuration
        full_page_configured;
}

discover_sensor_iff_example :
    discover_sensor numbers long_numbers read_double curl options ≡ ok configuration
discover_sensor_iff_example =
    (discover_sensor_iff numbers long_numbers read_double curl options configuration (refl, tt)).1
      discovery
