-- ===== src/Client/Commands/Bias.antt =====
-- What `bias` sends, and what it leaves behind.
use netft_cpp.Base.{
  ℕ, ◌≡◌, ◌∙◌, ap, refl, arith, Bool, true, false, not, ◌||◌, List, [], ◌∷◌, ◌++◌, some, Result, ok,
  err, Bool-cases, inl, inr,
}
use netft_cpp.Client.Commands.{
  client_not_streaming, biased, is_streaming, faulted, finish_bias, restart_stream, bias,
}
use netft_cpp.Client.State.{Impl}
use netft_cpp.Protocol.{start_realtime, set_software_bias, encode_request}
use netft_cpp.Sequence.Rdt
use netft_cpp.Transport.{Call, sends, Errno, Thrown, UdpTransport, Done, send}
use netft_cpp.Transport.Sending.{send-ok, send_transport}
use netft_cpp.Types.{ClientState}

-- The two requests, as bytes, on the descriptor `s`.
abbrev pub bias_calls : ℕ → List Call
bias_calls s =
    sends s (0x12 ∷ 0x34 ∷ 0 ∷ 0x42 ∷ 0 ∷ 0 ∷ 0 ∷ 0 ∷ [])
    ∷ sends s (0x12 ∷ 0x34 ∷ 0 ∷ 0x02 ∷ 0 ∷ 0 ∷ 0 ∷ 0 ∷ [])
    ∷ []

requests :
    (encode_request set_software_bias 0 ≡ 0x12 ∷ 0x34 ∷ 0 ∷ 0x42 ∷ 0 ∷ 0 ∷ 0 ∷ 0 ∷ [])
    × (encode_request start_realtime 0 ≡ 0x12 ∷ 0x34 ∷ 0 ∷ 0x02 ∷ 0 ∷ 0 ∷ 0 ∷ 0 ∷ [])
unfolding encode_request
requests = (refl, refl)

streaming_state : (s : ClientState) → is_streaming s ≡ true → s ≡ ClientState.streaming
unfolding is_streaming
streaming_state s e = ground arith

first_after_reset :
    (t : Rdt.RdtSequenceTracker) (number : ℕ)
    → (Rdt.observe (Rdt.reset t) number).0 ≡ Rdt.seen Rdt.first 0
unfolding Rdt.observe Rdt.reset
first_after_reset t number = refl

two_requests :
    (first second : Result Errno ℕ) (t : UdpTransport)
    → let done = send (encode_request set_software_bias 0) first t in
      let next = send (encode_request start_realtime 0) second done.transport in
      done.reply ≡ ok tt
      → next.reply ≡ ok tt
      → (s : ℕ) × (t.socket ≡ some s) × (done.calls ++ next.calls ≡ bias_calls s)
two_requests first second t a b =
    let done = send (encode_request set_software_bias 0) first t in
    let (s, o, c) = send-ok (encode_request set_software_bias 0) first t a in
    let (v, p, d) = send-ok (encode_request start_realtime 0) second done.transport b in
    let kept =
      ap (λ (x : UdpTransport). x.socket)
        (send_transport (encode_request set_software_bias 0) first t) in
    let same : v ≡ s = ground arith in (s, o, rw (c, d, same, requests.0, requests.1) refl)

module _ {D : Type 0} where
  finish_bias-biased :
      (before : List Call) (done : Done (Result Thrown (Unit {0})))
      (reply : Result Thrown (Unit {0})) (impl : Impl D)
      → (finish_bias before done reply impl).end ≡ biased
      → (reply ≡ ok tt)
        × ((finish_bias before done reply impl).calls ≡ before ++ done.calls)
        × ((finish_bias before done reply impl).impl
            ≡ record impl { rdt_sequence = Rdt.reset impl.rdt_sequence })
  unfolding finish_bias
  finish_bias-biased before done (err thrown) impl e = cc
  finish_bias-biased before done (ok tt) impl e = (refl, refl, refl)

  restart_stream-biased :
      (second : Result Errno ℕ) (done : Done (Result Thrown (Unit {0})))
      (reply : Result Thrown (Unit {0})) (impl : Impl D)
      → (restart_stream second done reply impl).end ≡ biased
      → let next = send (encode_request start_realtime 0) second done.transport in
        let after = restart_stream second done reply impl in
        (reply ≡ ok tt)
        × (next.reply ≡ ok tt)
        × (after.calls ≡ done.calls ++ next.calls)
        × (after.impl ≡ record impl { rdt_sequence = Rdt.reset impl.rdt_sequence })
  unfolding restart_stream
  restart_stream-biased second done (err thrown) impl e = cc
  restart_stream-biased second done (ok tt) impl e =
      let next = send (encode_request start_realtime 0) second done.transport in
      let (r, c, i) = finish_bias-biased done.calls next next.reply impl e in (refl, r, c, i)

  busy : Impl D → Bool
  busy impl =
      impl.stopping
      || (not impl.session_started || (faulted impl || not (is_streaming impl.health.state)))

  bias-sends :
      (first second : Result Errno ℕ) (impl : Impl D) (t : UdpTransport)
      → busy impl ≡ false
      → let done = send (encode_request set_software_bias 0) first t in
        bias first second impl t ≡ restart_stream second done done.reply impl
  unfolding bias busy
  bias-sends first second impl t n = simp n refl

  bias-refuses :
      (first second : Result Errno ℕ) (impl : Impl D) (t : UdpTransport)
      → busy impl ≡ true
      → (bias first second impl t).end ≡ client_not_streaming
  unfolding bias busy
  bias-refuses first second impl t y = simp y refl

  idle :
      (impl : Impl D)
      → busy impl ≡ false
      → (impl.session_started ≡ true) × (impl.health.state ≡ ClientState.streaming)
  unfolding busy
  idle impl n =
      let h : is_streaming impl.health.state ≡ true = ground arith in
      (ground arith, streaming_state impl.health.state h)

  -- When `bias` returns, the client was streaming, and the requests to set the bias and to start the
  -- stream again have been sent, in this order; every member of the client is as it was, but that the
  -- next RDT number is taken as the first of a stream, so the restart counts as no loss.
  pub bias_biased :
      (first second : Result Errno ℕ) (impl : Impl D) (t : UdpTransport) (number : ℕ)
      → (bias first second impl t).end ≡ biased
      → let after = bias first second impl t in
        (impl.session_started ≡ true)
        × (impl.health.state ≡ ClientState.streaming)
        × ((s : ℕ) × (t.socket ≡ some s) × (after.calls ≡ bias_calls s))
        × (after.impl ≡ record impl { rdt_sequence = after.impl.rdt_sequence })
        × ((Rdt.observe after.impl.rdt_sequence number).0 ≡ Rdt.seen Rdt.first 0)
  bias_biased first second impl t number e = elim (Bool-cases (busy impl)) [
    | inl y ↦ let never = bias-refuses first second impl t y in cc
    | inr n ↦
        let done = send (encode_request set_software_bias 0) first t in
        let same = bias-sends first second impl t n in
        let (a, b, calls, after) =
          restart_stream-biased second done done.reply impl (rw (← same) e) in
        let (s, o, c) = two_requests first second t a b in
        let (started, streaming) = idle impl n in
        rw same (
          started,
          streaming,
          (s, o, calls ∙ c),
          rw after refl,
          rw after (first_after_reset impl.rdt_sequence number),
        )
  ]
