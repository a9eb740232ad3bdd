-- ===== src/Lib.antt =====
-- The client library for ATI Net F/T force-torque sensors (netft-cpp).
--
-- A client asks the sensor's web server for its calibration, asks the sensor over UDP for a stream
-- of RDT records, and hands the application one scaled sample per record. The parts:
--   * Protocol: src/detail/protocol.hpp, src/detail/protocol.cpp. `encode_request` and
--     `decode_record` on lists of bytes. Protocol/BigEndian describes words on the wire on its own.
--   * Sequence: src/detail/sequence.hpp, src/detail/sequence.cpp. Sequence/Rdt is
--     `RdtSequenceTracker`, Sequence/Ft is `FtSequenceTracker`. `observe` returns the observation
--     and the tracker after it.
--   * Status: include/netft/status.hpp, src/status.cpp. `classify_status`, `decode_status`.
--   * Time: src/detail/time.hpp. `checked_duration`, `checked_deadline`.
--   * Types: include/netft/types.hpp, src/types.cpp. The data types; Types/Names holds `to_string`
--     and `from_string`; Types/Validate holds `validate`, as `validate_calibration` and
--     `validate_config`.
--   * FaultLatch: src/detail/fault_latch.hpp, src/detail/fault_latch.cpp.
--   * XmlConfig: src/detail/xml_config.cpp. XmlConfig/Markup holds the functions on string views,
--     XmlConfig/Fields `extract_required_fields`, XmlConfig/Values the rest up to
--     `parse_sensor_configuration`.
--   * Client: src/detail/client_impl.hpp, src/detail/client_impl.cpp. Client/State is the record of
--     the members. Client/Configuration has `configuration_for_session` and `apply_configuration`,
--     Client/Rates `prune_rate_window`, Client/Outcome `fault_for` and `message_for`. `handle_record`
--     is in two parts: Client/Record is what runs under the record lock (`accept_record`), and
--     Client/Delivery the sample, the callback and what follows (`handle_record`). Client/Session is
--     the loop of `receive_session` (`receive_round`, `receive_loop`), and Client/Run its opening
--     (`receive_session`), `run`, `close_session`, `finish_session` and `set_fault`.
--     `start` and `stop` are in Client/Lifecycle: a function for each section under the lifecycle lock
--     (`start_round`, `stop_section`, `stop_joined`, `start_joined`), and in Client/Lifecycle/Threads a
--     step relation of any number of threads that call them, the worker's callback included.
--     Client/Closing has what `stop` and `close_session` do to the transport.
--     Client/Commands has the constructor, `bias`, `wait_for_first_sample`, `health` and the getters.
--     Client/Facade is the destructor in src/client.cpp, and Client/Facade/Destroyer its
--     `DeferredDestroyer`; the other members of `Client` only call those of `Client::Impl`.
--   * Transport: src/detail/udp_transport.hpp, src/detail/udp_transport_posix.cpp. Transport/Receive
--     is `receive`, and Transport/Windows the same operations of
--     src/detail/udp_transport_windows.cpp. Transport/Endpoint is the abstract view of a transport,
--     Transport/Life any sequence of its operations.
--   * Discovery: src/discovery.cpp. `append_response` on the chunks of a page, and `discover_sensor`
--     up to `parse_sensor_configuration`.
--   * Floats: the numbers that the platform provides, as parameters.
--   * Base: shared tests, results, lists, integers, bits and texts. Examples: concrete runs.
--
-- State is passed explicitly: an operation takes the state and returns the one after it. A function
-- that throws returns a `Result`, and an exception is a constructor that stands for its message.
-- What the code does under one lock is one step. The callback is a function that also changes the
-- client's state, since it runs with no lock held, while other threads may call the client. In the
-- worker's loops, what a round or a session meets is given by a record: each reading of the clock and
-- of `stopping_`, the answers of the transport and of discovery, and what other threads did since the
-- round before. A list of them runs a loop that many times, and a loop that has not ended by then
-- says so.
--
-- Threads: sections that hold a lock are the steps. What other threads do between two sections of one
-- call is given with the call, as commands or as a change of the state. Client/Lifecycle/Threads and
-- Client/Facade/Destroyer also have the waits on a condition variable: a thread that sleeps goes on
-- only behind a notification or a spurious wake-up. In the former a notification is part of the step
-- of the section before it, and the wait in `start` for the worker's exit tests and falls asleep in
-- two steps, between which `finish_session`, which does not take the mutex, may come.
--
-- Bounds: 32-bit words and 64-bit counters wrap around explicitly. A steady clock counts nanoseconds
-- in 64 bits, and no reading is before its epoch; `long` has 64 bits. The loop of
-- `extract_required_fields` runs on fuel, one round more than the page has bytes; each round reads
-- at least one byte. All other loops are structural.
--
-- Parameters, for code that is not in the repository: `double` and `long double` with their
-- operators (Floats), `std::isspace`, reading a number from a stream, the callback, what the system
-- answers to the transport's calls, and what libcurl answers and how it cuts up a page. In Client/Run
-- and Client/Session discovery and the transport are parameters too, given by what they return. The
-- hypotheses on this code are `TruncatesBelow`, that a conversion to an integer rounds down,
-- `NotNegative`, that a number of ticks in milliseconds gives no negative integer, and `IsChunk`, that
-- libcurl hands over as many bytes as it says.
--
-- Not modelled: `WSACleanup`, `curl_easy_cleanup` and the other
-- handles' release; the hooks for tests; the forwarding in src/client.cpp. Notifying
-- `first_sample_cv_` is left out, as its waiters read the state again. Exceptions of
-- mutexes and of copies of strings, and exceptions of the transport that are no `std::exception`, are
-- left out.
pub mod Base
pub mod Protocol
pub mod Sequence
pub mod Status
pub mod Floats
pub mod Time
pub mod Types
pub mod FaultLatch
pub mod Client
pub mod Transport
pub mod Discovery
pub mod XmlConfig
pub mod Examples
