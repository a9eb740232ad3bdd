-- ===== src/Client/Closing.antt =====
-- What `stop` and `close_session` of src/detail/client_impl.cpp do to the transport, under the command
-- lock. Client/Lifecycle and Client/Run have what they do to the client.
use netft_cpp.Base.{
  ℕ, ◌≤◌, ◌≡◌, ◌∙◌, ap, refl, arith, Bool, true, false, List, [], ◌++◌, none, Result, if◌then◌else◌,
  Bool-cases, inl, inr,
}
use netft_cpp.Client.Lifecycle.{request_stop}
use netft_cpp.Client.Run.{close_session}
use netft_cpp.Client.State.{Impl}
use netft_cpp.Protocol.{stop_streaming, encode_request}
use netft_cpp.Transport.{Call, Errno, UdpTransport, send, shutdown, close}
use netft_cpp.Transport.Descriptors.{total, total-append}
use netft_cpp.Transport.Sending.{send_sends, shutdown_sends, close_sends, is_send}

-- The client, its transport and the calls that were made.
pub record Closing (D : Type 0) : Type 0 where
  pub impl : Impl D
  pub transport : UdpTransport
  pub calls : List Call

at_most_one : (b : Bool) → (if b then 1 else 0) ≤ 1
at_most_one true = omega arith
at_most_one false = omega arith

shutdown_requests : (t : UdpTransport) → (shutdown t).transport.shutdown_requested ≡ true
unfolding shutdown
shutdown_requests t = refl

close_disconnects : (t : UdpTransport) → (close t).transport.socket ≡ none
unfolding close
close_disconnects t = refl

module _ {D : Type 0} where
  -- with a session, the sensor is asked to stop; an exception of `send` is caught
  end_stream : Result Errno ℕ → Impl D → UdpTransport → Closing D
  end_stream sent impl t =
      if impl.session_started
      then (let done = send (encode_request stop_streaming 0) sent t in
          record {
            impl = record impl { session_started = false };
            transport = done.transport;
            calls = done.calls;
          })
      else record { impl = impl; transport = t; calls = [] }

  -- the beginning of `stop`
  unfoldable pub stop_transport : Result Errno ℕ → Impl D → UdpTransport → Closing D
  unfolding end_stream
  stop_transport sent impl t =
      let ended = end_stream sent (record impl { stopping = true }) t in
      let done = shutdown ended.transport in
      record ended { transport = done.transport; calls = ended.calls ++ done.calls }

  unfoldable pub close_transport : Result Errno ℕ → Impl D → UdpTransport → Closing D
  unfolding end_stream
  close_transport sent impl t =
      let ended = end_stream sent impl t in
      let done = close ended.transport in
      record ended { transport = done.transport; calls = ended.calls ++ done.calls }

  end_stream_once :
      (sent : Result Errno ℕ) (impl : Impl D) (t : UdpTransport)
      → let ended = end_stream sent impl t in
        (ended.impl ≡ record impl { session_started = false })
        × (total is_send ended.calls ≤ (if impl.session_started then 1 else 0))
  unfolding end_stream
  end_stream_once sent impl t = elim (Bool-cases impl.session_started) [
    | inl y ↦ let once = send_sends (encode_request stop_streaming 0) sent t in simp y (refl, once)
    | inr n ↦ (simp n (λ i. record impl { session_started = n i }), simp n (omega arith))
  ]

  stop_transport_lem :
      (sent : Result Errno ℕ) (impl : Impl D) (t : UdpTransport)
      → let stopped = stop_transport sent impl t in
        (stopped.impl ≡ request_stop impl)
        × (stopped.transport.shutdown_requested ≡ true)
        × (total is_send stopped.calls ≤ 1)
  unfolding stop_transport request_stop
  stop_transport_lem sent impl t =
      let begun = end_stream sent (record impl { stopping = true }) t in
      let (same, few) = end_stream_once sent (record impl { stopping = true }) t in
      (
        same,
        shutdown_requests begun.transport,
        omega (
          arith,
          at_most_one impl.session_started,
          few,
          shutdown_sends begun.transport,
          total-append is_send begun.calls (shutdown begun.transport).calls,
        ),
      )

  close_transport_lem :
      (sent : Result Errno ℕ) (impl : Impl D) (t : UdpTransport)
      → let closed = close_transport sent impl t in
        (closed.impl ≡ close_session impl)
        × (closed.transport.socket ≡ none)
        × (total is_send closed.calls ≤ (if impl.session_started then 1 else 0))
  unfolding close_transport close_session
  close_transport_lem sent impl t =
      let begun = end_stream sent impl t in
      let (same, few) = end_stream_once sent impl t in
      (
        same,
        close_disconnects begun.transport,
        omega (
          arith,
          few,
          close_sends begun.transport,
          total-append is_send begun.calls (close begun.transport).calls,
        ),
      )

  session_ended : (impl : Impl D) → (request_stop impl).session_started ≡ false
  unfolding request_stop
  session_ended impl = refl

  -- When `stop` begins and the worker closes its session behind it, one request to stop is sent at
  -- most, and none by the worker; the transport is first shut down and then closed, and the client is
  -- left as Client/Lifecycle and Client/Run say.
  pub stop_transport_once :
      (first second : Result Errno ℕ) (impl : Impl D) (t : UdpTransport)
      → let stopped = stop_transport first impl t in
        let closed = close_transport second stopped.impl stopped.transport in
        (stopped.impl ≡ request_stop impl)
        × (closed.impl ≡ close_session stopped.impl)
        × (stopped.transport.shutdown_requested ≡ true)
        × (closed.transport.socket ≡ none)
        × (total is_send stopped.calls ≤ 1)
        × (total is_send closed.calls ≡ 0)
  stop_transport_once first second impl t =
      let stopped = stop_transport first impl t in
      let (a, b, c) = stop_transport_lem first impl t in
      let (d, e, f) = close_transport_lem second stopped.impl stopped.transport in
      let off : stopped.impl.session_started ≡ false =
        ap (λ (x : Impl D). x.session_started) a ∙ session_ended impl in
      let none_sent : total is_send (close_transport second stopped.impl stopped.transport).calls
          ≤ 0 =
        ground (arith, f, off) in
      (a, d, b, e, c, omega (arith, none_sent))
