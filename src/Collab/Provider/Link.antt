-- ===== src/Collab/Provider/Link.antt =====
-- InkstaveWsProvider.ts: what a provider waits for, after what the socket does.
use inkstave.Prelude.{
  ℕ, ◌≡◌, refl, sym, Bool, true, false, not, ◌&&◌, ◌||◌, none, some, List, if◌then◌else◌, if-elim,
  if-split, subst, ltb, arith,
}
use inkstave.Collab.Provider.{
  Provider, ProviderStatus, ProviderCall, SocketState, Frame, ready, closing, connecting, connected,
  reconnecting, closed, same_status, set_status, is_some, schedule_reconnect, connect, on_open,
  on_sync, on_close, SocketEvent, opened, ended, failed, awareness_received, sync_received,
  was_closed, on_socket, ceiling, is_terminal,
}

-- The one thing that a provider waits for: nothing any more, an event of its socket, the token, or the
-- timer of the next attempt.
pub data Link (p : Provider) : Type 0 where
  gone :
      (d : p.destroyed ≡ true) (w : p.ws ≡ none) (t : p.reconnect_timer ≡ none)
      (c : p.status ≡ closed)
      → Link p
  halted :
      (d : p.destroyed ≡ false) (s : p.stopped ≡ true) (w : p.ws ≡ none)
      (a : p.awaits_token ≡ false) (t : p.reconnect_timer ≡ none) (c : p.status ≡ closed)
      → Link p
  linked :
      (d : p.destroyed ≡ false) (s : p.stopped ≡ false) (state : SocketState)
      (w : p.ws ≡ some state) (a : p.awaits_token ≡ false) (t : p.reconnect_timer ≡ none)
      → Link p
  asking :
      (d : p.destroyed ≡ false) (s : p.stopped ≡ false) (w : p.ws ≡ none)
      (a : p.awaits_token ≡ true) (t : p.reconnect_timer ≡ none)
      → Link p
  backing_off :
      (d : p.destroyed ≡ false) (s : p.stopped ≡ false) (w : p.ws ≡ none)
      (a : p.awaits_token ≡ false) (delay : ℕ) (t : p.reconnect_timer ≡ some delay)
      → Link p

abbrev pub Result : Type 0
Result = Provider × List ProviderCall

same_status_sound : (s t : ProviderStatus) → same_status s t ≡ true → s ≡ t
same_status_sound ProviderStatus.idle ProviderStatus.idle e = refl
same_status_sound connecting connecting e = refl
same_status_sound connected connected e = refl
same_status_sound reconnecting reconnecting e = refl
same_status_sound closed closed e = refl
same_status_sound s t e = ground (arith, e)

-- After `_setStatus` the status is the one that was given, and nothing else has changed.
pub set_status-status :
    (P : Provider → Type 0) (s : ProviderStatus) (p : Provider)
    → P (record p { status = s })
    → P (set_status s p).0
unfolding set_status
set_status-status P s p k =
    if-split (λ (r : Result). P r.0) (same_status p.status s)
      (λ e. subst (λ t. P (record p { status = t })) (sym (same_status_sound p.status s e)) k)
      (λ _. k)

pub schedule_reconnect-Link :
    (p : Provider)
    → p.destroyed ≡ false
    → p.stopped ≡ false
    → p.ws ≡ none
    → p.awaits_token ≡ false
    → p.reconnect_timer ≡ none
    → Link (schedule_reconnect p)
unfolding schedule_reconnect
schedule_reconnect-Link p d s w a t =
    if-split Link (p.destroyed || p.stopped || is_some p.reconnect_timer)
      (λ e. ground (arith, rw (d, s, t) at e))
      (λ _. backing_off d s w a (ceiling p.reconnect_attempt) refl)

pub connect-Link :
    (p : Provider)
    → p.destroyed ≡ false
    → p.stopped ≡ false
    → p.ws ≡ none
    → p.reconnect_timer ≡ none
    → Link (connect p).0
unfolding connect
connect-Link p d s w t =
    if-split (λ (r : Result). Link r.0) (p.destroyed || p.stopped || is_some p.ws)
      (λ e. ground (arith, rw (d, s, w) at e))
      (λ _.
        set_status-status Link (if ltb 0 p.reconnect_attempt then reconnecting else connecting)
          (record p { awaits_token = true }) (asking d s w refl t))

module _ (fails : Frame → Bool) where
  on_close-Link :
      (terminal : Bool) (p : Provider)
      → p.destroyed ≡ false
      → p.stopped ≡ false
      → p.awaits_token ≡ false
      → p.reconnect_timer ≡ none
      → Link (on_close fails false terminal p).0
  unfolding on_close
  on_close-Link true p d s a t =
      set_status-status Link closed (record p { ws = none; stopped = true })
        (halted d refl refl a t refl)
  on_close-Link false p d s a t =
      set_status-status (λ q. Link (schedule_reconnect q)) reconnecting (record p { ws = none })
        (schedule_reconnect-Link (record p { ws = none; status = reconnecting }) d s refl a t)

  on_open-Link :
      (p : Provider)
      → p.destroyed ≡ false
      → p.stopped ≡ false
      → p.awaits_token ≡ false
      → p.reconnect_timer ≡ none
      → Link (on_open fails p).0
  unfolding on_open
  on_open-Link p d s a t =
      set_status-status Link connected (record p { reconnect_attempt = 0; ws = some ready })
        (linked d s ready refl a t)

  Link-synced : (p : Provider) → Link p → Link (record p { synced = true })
  Link-synced p (gone d w t c) = gone d w t c
  Link-synced p (halted d s w a t c) = halted d s w a t c
  Link-synced p (linked d s state w a t) = linked d s state w a t
  Link-synced p (asking d s w a t) = asking d s w a t
  Link-synced p (backing_off d s w a delay t) = backing_off d s w a delay t

  -- The events of the socket of a live provider.
  on_socket-Link :
      (state : SocketState) (event : SocketEvent) (p : Provider)
      → p.destroyed ≡ false
      → p.stopped ≡ false
      → p.awaits_token ≡ false
      → p.reconnect_timer ≡ none
      → Link p
      → Link (on_socket fails (some state) event p).0
  unfolding on_socket on_sync
  on_socket-Link state opened p d s a t k = on_open-Link p d s a t
  on_socket-Link state ended p d s a t k = linked d s closing refl a t
  on_socket-Link state failed p d s a t k = k
  on_socket-Link state awareness_received p d s a t k = k
  on_socket-Link state (sync_received is_step2 reply) p d s a t k =
      if-elim (λ (r : Result). Link r.0) (is_step2 && not p.synced) (Link-synced p k) k
  on_socket-Link state (was_closed code) p d s a t k =
      subst (λ x. Link (on_close fails x (is_terminal code) p).0) (sym d)
        (on_close-Link (is_terminal code) p d s a t)

  no_socket :
      (event : SocketEvent) (p : Provider)
      → p.ws ≡ none
      → Link p
      → Link (on_socket fails p.ws event p).0
  unfolding on_socket
  no_socket event p w k = subst (λ x. Link (on_socket fails x event p).0) (sym w) k

  pub socket_event-Link :
      (event : SocketEvent) (p : Provider) → Link p → Link (on_socket fails p.ws event p).0
  socket_event-Link event p (gone d w t c) = no_socket event p w (gone d w t c)
  socket_event-Link event p (halted d s w a t c) = no_socket event p w (halted d s w a t c)
  socket_event-Link event p (asking d s w a t) = no_socket event p w (asking d s w a t)
  socket_event-Link event p (backing_off d s w a delay t) =
      no_socket event p w (backing_off d s w a delay t)
  socket_event-Link event p (linked d s state w a t) =
      subst (λ x. Link (on_socket fails x event p).0) (sym w)
        (on_socket-Link state event p d s a t (linked d s state w a t))
