-- ===== src/Collab/Provider/Quiet.antt =====
-- InkstaveWsProvider.ts: the end of a connection.
use inkstave.Prelude.{
  ℕ, ◌≡◌, refl, sym, inl, inr, Bool, true, false, ◌&&◌, Option, none, List, if-split, subst, arith,
}
use inkstave.Collab.Throttle.{cancel}
use inkstave.Collab.Provider.{
  Provider, Frame, closed, is_some, destroy, opened, ended, failed, awareness_received,
  sync_received, was_closed, on_socket, connect, new_provider, ProviderEvent, socket_event,
  got_token, no_token, reconnect_fired, throttle_due, doc_updated, awareness_changed,
  destroy_called, provider_step, run_provider, is_terminal, on_close,
}
use inkstave.Collab.Provider.Link.{
  Link, gone, halted, linked, asking, backing_off, set_status-status,
}
use inkstave.Collab.Provider.Linked.{run_provider-Link}
use inkstave.Collab.Provider.Over.{run_provider-IsQuiet, Result, Over, IsQuiet, either_true, over}

-- The events after which a provider is over: it is destroyed, or its socket closes with a terminal code.
abbrev pub ends : Provider → ProviderEvent → Bool
ends p (destroy_called client) = true
ends p (socket_event (was_closed code)) = is_some p.ws && is_terminal code
ends p _ = false

module _ (fails : Frame → Bool) where
  destroy-Over : (client : ℕ) (p : Provider) → Link p → Over (destroy fails client p).0
  unfolding destroy
  destroy-Over client p k =
      if-split (λ (r : Result). Over r.0) p.destroyed
        (λ e. elim k [
          | gone d w t c ↦ over (rw d refl) w t (inl d) c
          | halted d s w a t c ↦ ground (arith, d, e)
          | linked d s state w a t ↦ ground (arith, d, e)
          | asking d s w a t ↦ ground (arith, d, e)
          | backing_off d s w a delay t ↦ ground (arith, d, e)
        ])
        (λ _.
          set_status-status Over closed
            (record p {
              destroyed = true;
              flush_awareness = cancel p.flush_awareness;
              reconnect_timer = none;
              ws = none;
            })
            (over refl refl refl (inl refl) refl))

  closed-Over :
      (p : Provider)
      → p.destroyed ≡ false
      → p.awaits_token ≡ false
      → p.reconnect_timer ≡ none
      → Over (on_close fails p.destroyed true p).0
  unfolding on_close
  closed-Over p d a t =
      subst (λ b. Over (on_close fails b true p).0) (sym d)
        (set_status-status Over closed (record p { ws = none; stopped = true })
          (over (either_true p.destroyed) refl t (inr a) refl))

  terminal-Over :
      (code : Option ℕ) (p : Provider)
      → Link p
      → (is_some p.ws && is_terminal code) ≡ true
      → Over (on_socket fails p.ws (was_closed code) p).0
  unfolding on_socket
  terminal-Over code p (gone d w t c) e = ground (arith, rw w at e)
  terminal-Over code p (halted d s w a t c) e = ground (arith, rw w at e)
  terminal-Over code p (asking d s w a t) e = ground (arith, rw w at e)
  terminal-Over code p (backing_off d s w a delay t) e = ground (arith, rw w at e)
  terminal-Over code p (linked d s state w a t) e =
      subst (λ x. Over (on_socket fails x (was_closed code) p).0) (sym w)
        (subst (λ b. Over (on_close fails p.destroyed b p).0) (sym (rw w at e))
          (closed-Over p d a t))

  ends-Over :
      (p : Provider) (event : ProviderEvent)
      → Link p
      → ends p event ≡ true
      → Over (provider_step fails p event).0
  unfolding provider_step
  ends-Over p (destroy_called client) k e = destroy-Over client p k
  ends-Over p (socket_event (was_closed code)) k e = terminal-Over code p k e
  ends-Over p (socket_event opened) k e = ground (arith, e)
  ends-Over p (socket_event ended) k e = ground (arith, e)
  ends-Over p (socket_event failed) k e = ground (arith, e)
  ends-Over p (socket_event awareness_received) k e = ground (arith, e)
  ends-Over p (socket_event (sync_received is_step2 reply)) k e = ground (arith, e)
  ends-Over p got_token k e = ground (arith, e)
  ends-Over p no_token k e = ground (arith, e)
  ends-Over p reconnect_fired k e = ground (arith, e)
  ends-Over p throttle_due k e = ground (arith, e)
  ends-Over p (doc_updated own body) k e = ground (arith, e)
  ends-Over p (awareness_changed own changed) k e = ground (arith, e)

  -- Once a provider that connects has been destroyed, or its socket has closed with a terminal code, it
  -- is closed for good: whatever happens then, it sends nothing and makes and closes no socket, its
  -- status does not change from closed, and it has no socket and no timer for a new connection. The
  -- timer of the awareness throttle may still run.
  pub run_provider-ends :
      (throttled : Bool) (before : List ProviderEvent) (last : ProviderEvent)
      (after : List ProviderEvent)
      → let p = (run_provider fails (connect (new_provider throttled)).0 before).0 in
        ends p last ≡ true → IsQuiet (run_provider fails (provider_step fails p last).0 after)
  run_provider-ends throttled before last after e =
      let p = (run_provider fails (connect (new_provider throttled)).0 before).0 in
      run_provider-IsQuiet fails (provider_step fails p last).0 after
        (ends-Over p last (run_provider-Link fails throttled before) e)
