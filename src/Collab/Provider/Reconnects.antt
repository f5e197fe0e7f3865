-- ===== src/Collab/Provider/Reconnects.antt =====
-- InkstaveWsProvider.ts: the way back to a connection.
use inkstave.Prelude.{
  ◌≡◌, refl, sym, Bool, true, false, ◌||◌, none, some, List, [], ◌∷◌, if◌then◌else◌, if-split,
  subst, ltb, arith,
}
use inkstave.Collab.Provider.{
  Provider, ProviderCall, Frame, ready, opening, connecting, connected, reconnecting, is_some,
  connect, take_token, token_arrived, timer_fired, on_open, opened, on_socket, ProviderEvent,
  socket_event, got_token, reconnect_fired, provider_step, run_provider, new_provider,
}
use inkstave.Collab.Provider.Link.{
  Link, gone, halted, linked, asking, backing_off, set_status-status,
}
use inkstave.Collab.Provider.Linked.{run_provider-Link}

abbrev Result : Type 0
Result = Provider × List ProviderCall

-- Connected, and the next failure starts with the shortest delay.
abbrev pub IsOnline : Provider → Type 0
IsOnline p = (p.status ≡ connected) × (p.ws ≡ some ready) × (p.reconnect_attempt ≡ 0)

-- The timer fires, the token comes, the socket opens.
abbrev pub comes_back : List ProviderEvent
comes_back = reconnect_fired ∷ got_token ∷ socket_event opened ∷ []

module _ (fails : Frame → Bool) where
  on_open-IsOnline : (p : Provider) → IsOnline (on_open fails p).0
  unfolding on_open
  on_open-IsOnline p =
      set_status-status IsOnline connected (record p { reconnect_attempt = 0; ws = some ready })
        (refl, refl, refl)

  abbrev after_token : Provider → Provider
  after_token p = (run_provider fails p (got_token ∷ socket_event opened ∷ [])).0

  asks-IsOnline :
      (p : Provider) → p.destroyed ≡ false → p.awaits_token ≡ true → IsOnline (after_token p)
  unfolding run_provider provider_step token_arrived take_token on_socket
  asks-IsOnline p d a =
      subst
        (λ b. let q = (take_token b p.destroyed p).0 in IsOnline (on_socket fails q.ws opened q).0)
        (sym a)
        (subst (λ b. let q = (take_token true b p).0 in IsOnline (on_socket fails q.ws opened q).0)
          (sym d) (on_open-IsOnline (record p { awaits_token = false; ws = some opening })))

  connect-IsOnline :
      (p : Provider)
      → p.destroyed ≡ false
      → p.stopped ≡ false
      → p.ws ≡ none
      → IsOnline (after_token (connect p).0)
  unfolding connect
  connect-IsOnline p d s w =
      if-split (λ (r : Result). IsOnline (after_token r.0))
        (p.destroyed || p.stopped || is_some p.ws) (λ e. ground (arith, rw (d, s, w) at e))
        (λ _.
          let status = if ltb 0 p.reconnect_attempt then reconnecting else connecting in
          set_status-status (λ q. IsOnline (after_token q)) status
            (record p { awaits_token = true })
            (asks-IsOnline (record p { awaits_token = true; status = status }) d refl))

  Link-IsOnline :
      (p : Provider)
      → Link p
      → p.destroyed ≡ false
      → p.stopped ≡ false
      → p.ws ≡ none
      → IsOnline (run_provider fails p comes_back).0
  unfolding run_provider provider_step timer_fired
  Link-IsOnline p (gone d _ _ _) d' s' w' = ground (arith, d, d')
  Link-IsOnline p (halted _ s _ _ _ _) d' s' w' = ground (arith, s, s')
  Link-IsOnline p (linked _ _ state w _ _) d' s' w' = ground (arith, w, w')
  Link-IsOnline p (asking d s w a t) d' s' w' =
      subst (λ x. IsOnline (after_token (timer_fired x p).0)) (sym t) (asks-IsOnline p d a)
  Link-IsOnline p (backing_off d s w a delay t) d' s' w' =
      subst (λ x. IsOnline (after_token (timer_fired x p).0)) (sym t)
        (connect-IsOnline (record p { reconnect_timer = none }) d s w)

  -- Whatever has happened to a provider that connects: if it has no socket now, and was neither destroyed
  -- nor stopped by a terminal close, then after the timer, the token and the opening of a socket, those of
  -- them that it waits for, it is connected, and its count of failures is back at 0.
  pub run_provider-IsOnline :
      (throttled : Bool) (events : List ProviderEvent)
      → let p = (run_provider fails (connect (new_provider throttled)).0 events).0 in
        p.destroyed ≡ false
        → p.stopped ≡ false
        → p.ws ≡ none
        → IsOnline (run_provider fails p comes_back).0
  run_provider-IsOnline throttled events d s w =
      let p = (run_provider fails (connect (new_provider throttled)).0 events).0 in
      Link-IsOnline p (run_provider-Link fails throttled events) d s w
