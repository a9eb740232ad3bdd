-- ===== src/Transport/Sending.antt =====
-- What `send` does with a request, and which operations send.
use netft_cpp.Base.{ℕ, ◌≡◌, ◌≤◌, arith, refl, [], ◌∷◌, Option, none, some, Result, ok}
use netft_cpp.Base.Text.{Bytes}
use netft_cpp.Transport.{
  Call, sends, Errno, UdpTransport, send_on, send, shut_held, close_held, shutdown, close,
}
use netft_cpp.Transport.Descriptors.{total}

send_on-ok :
    (socket : Option ℕ) (request : Bytes) (sent : Result Errno ℕ) (t : UdpTransport)
    → (send_on socket request sent t).reply ≡ ok tt
    → (s : ℕ) × (socket ≡ some s) × ((send_on socket request sent t).calls ≡ sends s request ∷ [])
unfolding send_on
send_on-ok none request sent t e = cc
send_on-ok (some s) request sent t e = (s, refl, refl)

-- A request that was sent went to the held socket.
pub send-ok :
    (request : Bytes) (sent : Result Errno ℕ) (t : UdpTransport)
    → (send request sent t).reply ≡ ok tt
    → (s : ℕ) × (t.socket ≡ some s) × ((send request sent t).calls ≡ sends s request ∷ [])
unfolding send
send-ok request sent t e = send_on-ok t.socket request sent t e

send_on_transport :
    (socket : Option ℕ) (request : Bytes) (sent : Result Errno ℕ) (t : UdpTransport)
    → (send_on socket request sent t).transport ≡ t
unfolding send_on
send_on_transport none request sent t = refl
send_on_transport (some s) request sent t = refl

pub send_transport :
    (request : Bytes) (sent : Result Errno ℕ) (t : UdpTransport)
    → (send request sent t).transport ≡ t
unfolding send
send_transport request sent t = send_on_transport t.socket request sent t

-- how often the calls send
abbrev pub is_send : Call → ℕ
is_send (sends s request) = 1
is_send _ = 0

send_on_sends :
    (socket : Option ℕ) (request : Bytes) (sent : Result Errno ℕ) (t : UdpTransport)
    → total is_send (send_on socket request sent t).calls ≤ 1
unfolding send_on
send_on_sends none request sent t = omega arith
send_on_sends (some s) request sent t = omega arith

pub send_sends :
    (request : Bytes) (sent : Result Errno ℕ) (t : UdpTransport)
    → total is_send (send request sent t).calls ≤ 1
unfolding send
send_sends request sent t = send_on_sends t.socket request sent t

held_sends :
    (socket : Option ℕ)
    → (total is_send (shut_held socket) ≡ 0) × (total is_send (close_held socket) ≡ 0)
unfolding shut_held close_held
held_sends none = (refl, refl)
held_sends (some s) = (refl, refl)

pub shutdown_sends : (t : UdpTransport) → total is_send (shutdown t).calls ≡ 0
unfolding shutdown
shutdown_sends t = (held_sends t.socket).0

pub close_sends : (t : UdpTransport) → total is_send (close t).calls ≡ 0
unfolding close
close_sends t = (held_sends t.socket).1
