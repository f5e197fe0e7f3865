-- ===== src/Collab/Provider.antt =====
-- frontend/src/modules/collab/InkstaveWsProvider.ts: the connection of a shared document to the server.
-- The private fields are the state; a step is what the socket, a timer, the token or the document does,
-- and yields the calls that the provider makes. What lib0 and y-protocols put into a message is left as
-- they get it, and whether a send throws is a parameter.
pub mod Link
pub mod Linked
pub mod Reconnects
pub mod Over
pub mod Quiet
pub mod Awareness
mod Tests
use inkstave.Prelude.{
  ℕ, zero, suc, ◌+◌, ◌*◌, min, Bool, true, false, not, ◌&&◌, ◌||◌, Option, none, some, List, [],
  ◌∷◌, ◌++◌, if◌then◌else◌, ltb, ◌==◌, any, filter_by,
}
use inkstave.Collab.Throttle.{ThrottleState, idle as idle_throttle, wrapped, run_timer, cancel}

pub data ProviderStatus : Type 0 where
  idle connecting connected reconnecting closed : ProviderStatus

-- `readyState` of the socket.
pub data SocketState : Type 0 where
  opening ready closing : SocketState

abbrev pub Bytes : Type 0
Bytes = List ℕ

pub data Frame : Type 0 where
  sync_step1 : Frame
  sync_reply update : (body : Bytes) → Frame
  awareness_update : (ids : List ℕ) → Frame

-- What the provider does: events that it emits, frames that it sends, and what it does to the socket.
pub data ProviderCall : Type 0 where
  status_changed : (status : ProviderStatus) → ProviderCall
  synced_changed connection_error socket_created socket_closed : ProviderCall
  sent : (frame : Frame) → ProviderCall

-- The throttled function takes no arguments.
pub data NoArgs : Type 0 where
  no_args : NoArgs

-- `_ws`, and of `connect` whether it awaits the token. The timer is kept with the bound of its delay.
pub record Provider : Type 0 where
  pub ws : Option SocketState
  pub status : ProviderStatus
  pub synced : Bool
  pub destroyed : Bool
  pub stopped : Bool
  pub reconnect_attempt : ℕ
  pub reconnect_timer : Option ℕ
  pub awaits_token : Bool
  pub is_throttled : Bool
  pub pending_awareness : List ℕ
  pub flush_awareness : ThrottleState NoArgs

-- The fields before the constructor connects.
abbrev pub new_provider : Bool → Provider
new_provider throttled = record {
  ws = none;
  status = idle;
  synced = false;
  destroyed = false;
  stopped = false;
  reconnect_attempt = 0;
  reconnect_timer = none;
  awaits_token = false;
  is_throttled = throttled;
  pending_awareness = [];
  flush_awareness = idle_throttle;
}

-- `RECONNECT_BASE_MS * 2 ** attempt` within `RECONNECT_CAP_MS`.
abbrev pub power_of_two : ℕ → ℕ
power_of_two zero = 1
power_of_two (suc n) = power_of_two n + power_of_two n

abbrev pub ceiling : ℕ → ℕ
ceiling attempt = min 15000 (500 * power_of_two attempt)

-- `TERMINAL_CLOSE_CODES.has(code)`
abbrev pub is_terminal : Option ℕ → Bool
is_terminal none = false
is_terminal (some code) = (code == 4401) || (code == 4403) || (code == 4404)

abbrev pub same_status : ProviderStatus → ProviderStatus → Bool
same_status idle idle = true
same_status connecting connecting = true
same_status connected connected = true
same_status reconnecting reconnecting = true
same_status closed closed = true
same_status _ _ = false

unfoldable pub set_status : ProviderStatus → Provider → Provider × List ProviderCall
set_status status p =
    if same_status p.status status
    then (p, [])
    else (record p { status = status }, status_changed status ∷ [])

abbrev pub is_some {ℓ} : {A : Type ℓ} → Option A → Bool
is_some none = false
is_some (some a) = true

-- `_scheduleReconnect` and the start of `connect`, up to its `await`.
unfoldable pub schedule_reconnect : Provider → Provider
schedule_reconnect p =
    if p.destroyed || p.stopped || is_some p.reconnect_timer then p else record p {
      reconnect_timer = some (ceiling p.reconnect_attempt);
      reconnect_attempt = suc p.reconnect_attempt;
    }

unfoldable pub connect : Provider → Provider × List ProviderCall
unfolding set_status
connect p =
    if p.destroyed || p.stopped || is_some p.ws
    then (p, [])
    else (let status = if ltb 0 p.reconnect_attempt then reconnecting else connecting in
        set_status status (record p { awaits_token = true }))

-- `connect` once it has the token, or none.
unfoldable pub take_token : Bool → Bool → Provider → Provider × List ProviderCall
take_token false gone p = (p, [])
take_token true true p = (record p { awaits_token = false }, [])
take_token true false p =
    (record p { awaits_token = false; ws = some opening }, socket_created ∷ [])

unfoldable pub token_arrived : Provider → Provider × List ProviderCall
unfolding take_token
token_arrived p = take_token p.awaits_token p.destroyed p

unfoldable pub token_failed : Provider → Provider × List ProviderCall
unfolding schedule_reconnect
token_failed p =
    if p.awaits_token
    then (schedule_reconnect (record p { awaits_token = false }), connection_error ∷ [])
    else (p, [])

unfoldable pub timer_fired : Option ℕ → Provider → Provider × List ProviderCall
unfolding connect
timer_fired none p = (p, [])
timer_fired (some delay) p = connect (record p { reconnect_timer = none })

pub data SocketEvent : Type 0 where
  opened ended failed awareness_received : SocketEvent
  sync_received : (is_step2 : Bool) (reply : Option Bytes) → SocketEvent
  was_closed : (code : Option ℕ) → SocketEvent

-- What happens to a provider. `doc_updated` and `awareness_changed` say whether the provider itself
-- is the origin.
pub data ProviderEvent : Type 0 where
  socket_event : (event : SocketEvent) → ProviderEvent
  got_token no_token reconnect_fired throttle_due : ProviderEvent
  doc_updated : (own : Bool) (body : Bytes) → ProviderEvent
  awareness_changed : (own : Bool) (changed : List ℕ) → ProviderEvent
  destroy_called : (client : ℕ) → ProviderEvent

-- `_pendingAwareness.add(id)`, for each id.
abbrev pub add_ids : List ℕ → List ℕ → List ℕ
add_ids [] ids = ids
add_ids (id ∷ more) ids =
    add_ids more (if any (λ other. other == id) ids then ids else ids ++ id ∷ [])

abbrev pub close_socket : Option SocketState → List ProviderCall
close_socket none = []
close_socket (some socket) = socket_closed ∷ []

module _ (fails : Frame → Bool) where
  -- `_send`: what it does is not kept while the socket is not open.
  unfoldable pub send : Option SocketState → Frame → List ProviderCall
  send (some ready) frame = if fails frame then connection_error ∷ [] else sent frame ∷ []
  send _ frame = []

  unfoldable pub on_open : Provider → Provider × List ProviderCall
  unfolding set_status send
  on_open p =
      let (p', calls) =
        set_status connected (record p { reconnect_attempt = 0; ws = some ready }) in
      (p', calls ++ send (some ready) sync_step1)

  unfoldable pub send_reply : Option SocketState → Option Bytes → List ProviderCall
  unfolding send
  send_reply ws none = []
  send_reply ws (some body) = send ws (sync_reply body)

  -- A sync message: whether it was the server's second step, and what is to be answered.
  unfoldable pub on_sync : Bool → Option Bytes → Provider → Provider × List ProviderCall
  unfolding send_reply
  on_sync is_step2 reply p =
      let answer = send_reply p.ws reply in
      if is_step2 && not p.synced
      then (record p { synced = true }, answer ++ synced_changed ∷ [])
      else (p, answer)

  -- `_onClose`: whether the provider is destroyed, and whether the code is terminal.
  unfoldable pub on_close : Bool → Bool → Provider → Provider × List ProviderCall
  unfolding set_status schedule_reconnect
  on_close true terminal p = set_status closed (record p { ws = none })
  on_close false true p =
      let (p', calls) = set_status closed (record p { ws = none; stopped = true }) in
      (p', calls ++ connection_error ∷ [])
  on_close false false p =
      let (p', calls) = set_status reconnecting (record p { ws = none }) in
      (schedule_reconnect p', calls)

  unfoldable pub send_awareness : List ℕ → Provider → List ProviderCall
  unfolding send
  send_awareness [] p = []
  send_awareness (id ∷ ids) p = send p.ws (awareness_update (id ∷ ids))

  -- The calls of `_flushPendingAwareness` that the throttle makes.
  unfoldable pub flush_pending : List NoArgs → Provider → Provider × List ProviderCall
  unfolding send_awareness
  flush_pending [] p = (p, [])
  flush_pending (call ∷ more) p =
      let calls = send_awareness p.pending_awareness p in
      let (p', rest) = flush_pending more (record p { pending_awareness = [] }) in
      (p', calls ++ rest)

  unfoldable pub on_awareness : List ℕ → Provider → Provider × List ProviderCall
  unfolding send_awareness flush_pending wrapped
  on_awareness changed p =
      if p.is_throttled
      then (let (throttle, calls) = wrapped no_args p.flush_awareness in
          flush_pending calls (record p {
            pending_awareness = add_ids changed p.pending_awareness;
            flush_awareness = throttle;
          }))
      else (p, send_awareness changed p)

  unfoldable pub throttle_fired : Provider → Provider × List ProviderCall
  unfolding flush_pending run_timer
  throttle_fired p =
      if p.flush_awareness.timer
      then (let (throttle, calls) = run_timer p.flush_awareness in
          flush_pending calls (record p { flush_awareness = throttle }))
      else (p, [])

  -- `destroy`, with the id of the document's client.
  unfoldable pub destroy : ℕ → Provider → Provider × List ProviderCall
  unfolding set_status send_awareness cancel
  destroy client p =
      if p.destroyed
      then (p, [])
      else (let (p', calls) = set_status closed (record p {
        destroyed = true;
        flush_awareness = cancel p.flush_awareness;
        reconnect_timer = none;
        ws = none;
      }) in
          (p', send_awareness (client ∷ []) p ++ (close_socket p.ws ++ calls)))

  -- The handlers of a socket; it has none once it is no longer `_ws`.
  unfoldable pub on_socket :
      Option SocketState → SocketEvent → Provider → Provider × List ProviderCall
  unfolding on_open on_sync on_close
  on_socket none event p = (p, [])
  on_socket (some socket) opened p = on_open p
  on_socket (some socket) ended p = (record p { ws = some closing }, [])
  on_socket (some socket) failed p = (p, connection_error ∷ [])
  on_socket (some socket) awareness_received p = (p, [])
  on_socket (some socket) (sync_received is_step2 reply) p = on_sync is_step2 reply p
  on_socket (some socket) (was_closed code) p = on_close p.destroyed (is_terminal code) p

  unfoldable pub provider_step : Provider → ProviderEvent → Provider × List ProviderCall
  unfolding on_socket token_arrived token_failed timer_fired throttle_fired send on_awareness
      destroy
  provider_step p (socket_event event) = on_socket p.ws event p
  provider_step p got_token = token_arrived p
  provider_step p no_token = token_failed p
  provider_step p reconnect_fired = timer_fired p.reconnect_timer p
  provider_step p throttle_due = throttle_fired p
  provider_step p (doc_updated own body) =
      (p, if own || p.destroyed then [] else send p.ws (update body))
  provider_step p (awareness_changed own changed) =
      if own || p.destroyed then (p, []) else on_awareness changed p
  provider_step p (destroy_called client) = destroy client p

  unfoldable pub run_provider : Provider → List ProviderEvent → Provider × List ProviderCall
  unfolding provider_step
  run_provider p [] = (p, [])
  run_provider p (event ∷ events) =
      let (p', calls) = provider_step p event in
      let (p'', rest) = run_provider p' events in (p'', calls ++ rest)
