-- ===== src/Runtime/Sessions/Unknown.antt =====
-- A state file that is not there, and the end of the service, which leaves none.
use rook_servicechannel_agen.Common.{inl, inr, true, ◌≡◌, refl, ap, sym, ◌∙◌, arith}
use rook_servicechannel_agen.Errors.{Error, text, is, state_not_found}
use rook_servicechannel_agen.Action.{
  ok, err, try, wrap_error, of_result, ◌>>=◌, >>=-eq-ok, Result-cases,
}
use rook_servicechannel_agen.Host.{Host}
use rook_servicechannel_agen.Session.Files.{Laws, ReadLaws}
use rook_servicechannel_agen.Session.Store.{Store, load, read_state, load_error}
use rook_servicechannel_agen.Runtime.State.{Agent}
use rook_servicechannel_agen.Runtime.Manager.{stop_heartbeat_loop, stop_loop}
use rook_servicechannel_agen.Runtime.Calls.{
  resolve_pin, load_state, shut_down_loaded, shut_down_service, resume_service, run_service,
}
use rook_servicechannel_agen.Runtime.Sessions.{IsGone, stored}
use rook_servicechannel_agen.Runtime.Sessions.Start.{stop_loop-keeps}
use rook_servicechannel_agen.Runtime.Sessions.Shutdown.{shut_down_loaded-IsGone}

module _ {W : Type 0} (host : Host W) where
  -- The state file is read, the world is left alone, and no session was found.
  pub record IsUnknown (a : Agent W) : Type 0 where
    pub reason : Error
    pub missing : stored host a ≡ (err reason, a.world)
    pub not_found : is state_not_found reason ≡ true

  pub IsGone-IsUnknown : (a : Agent W) → IsGone host a → IsUnknown a
  unfolding is
  IsGone-IsUnknown a gone = record { reason = _; missing = gone; not_found = refl }

  pub resolve_pin-IsUnknown :
      (a : Agent W)
      → IsUnknown a
      → resolve_pin host "" a
        ≡ (err (text "no active session state found; use start first or provide --pin"), a)
  unfolding resolve_pin
  resolve_pin-IsUnknown a u = ground (arith, u.missing, u.not_found)

  -- A load changes the world as its read of the file does.
  load-world : (store : Store) (w : W) → (load host store w).1 ≡ (host.read_file store.file w).1
  unfolding load
  load-world store w = ground arith

  module _ (reads : ReadLaws host) where
    load-again : (store : Store) (w : W) → load host store (load host store w).1 ≡ load host store w
    unfolding load
    load-again store w =
        let p = host.read_file store.file w in
        let again : host.read_file store.file p.1 ≡ p = reads.read_again store.file w p.1 refl in
        ap (λ v. load host store v) (load-world store w)
        ∙ ap
            (λ q.
              (wrap_error (load_error host) (λ _. q)
                  >>= (λ payload. of_result (read_state host payload)))
                w)
            again

    load_state-again :
        (a u : Agent W) {x : Error}
        → try (load_state host) a ≡ (ok (err x), u)
        → (stored host u ≡ (err x, u.world))
    load_state-again a u {x} e =
        let store : u.manager.state_store ≡ a.manager.state_store =
          sym (ap (λ p. p.1.manager.state_store) e) in
        let world : (load host a.manager.state_store a.world).1 ≡ u.world = ap (λ p. p.1.world) e in
        let first : load host a.manager.state_store a.world ≡ (err x, u.world) = ground arith in
        rw store (
          ap (λ w. load host a.manager.state_store w) (sym world)
          ∙ load-again a.manager.state_store a.world
          ∙ first)

    shut_down-missing :
        (u c b : Agent W) (x : Error)
        → stored host u ≡ (err x, u.world)
        → stop_heartbeat_loop u ≡ (ok tt, c)
        → shut_down_loaded host (err x) c ≡ (ok tt, b)
        → IsUnknown b
    unfolding stop_heartbeat_loop
    shut_down-missing u c b x missing stopped ended =
        let (world, store) = stop_loop-keeps u.manager.heartbeat_cancel u in
        let left : (stop_loop u.manager.heartbeat_cancel u).1 ≡ c = ap (λ p. p.1) stopped in
        let same : c ≡ b = ground arith in
        let last = left ∙ same in
        let world' : b.world ≡ u.world = sym (ap (λ q. q.world) last) ∙ world in
        let store' : b.manager.state_store ≡ u.manager.state_store =
          sym (ap (λ q. q.manager.state_store) last) ∙ store in
        let known : is state_not_found x ≡ true = ground arith in
        let there : stored host b ≡ (err x, b.world) = rw (world', store') missing in
        record { reason = x; missing = there; not_found = known }

    -- A shutdown that succeeds leaves no state file: it found none, or has removed it.
    pub shut_down_service-IsUnknown :
        (laws : Laws host) (a b : Agent W) → shut_down_service host a ≡ (ok tt, b) → IsUnknown b
    unfolding shut_down_service
    shut_down_service-IsUnknown laws a b e =
        let (r, u, tried, rest) =
          >>=-eq-ok (try (load_state host))
            (λ loaded. stop_heartbeat_loop >>= λ _. shut_down_loaded host loaded) a e in
        let (_, c, stopped, ended) =
          >>=-eq-ok stop_heartbeat_loop (λ _. shut_down_loaded host r) u rest in
        elim (Result-cases r) [
          | inl (state, found) ↦
              IsGone-IsUnknown b (shut_down_loaded-IsGone host laws state c b (rw found at ended))
          | inr (x, missing) ↦
              shut_down-missing u c b x (load_state-again a u (rw missing at tried)) stopped
                (rw missing at ended)
        ]

    -- A service that ends without an error leaves no state file.
    pub run_service-IsUnknown :
        (laws : Laws host) (meanwhile : Agent W → Agent W) (a b : Agent W)
        → run_service host meanwhile a ≡ (ok tt, b)
        → IsUnknown b
    unfolding run_service
    run_service-IsUnknown laws meanwhile a b e =
        let (_, u, _, ended) =
          >>=-eq-ok (resume_service host) (λ _ c. shut_down_service host (meanwhile c)) a e in
        shut_down_service-IsUnknown laws (meanwhile u) b ended
