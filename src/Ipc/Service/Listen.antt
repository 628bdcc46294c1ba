-- ===== src/Ipc/Service/Listen.antt =====
-- internal/ipc/server.go: `Run`, which listens on the socket.
use rook_servicechannel_agen.Common.{String, Bool, if◌then◌else◌}
use rook_servicechannel_agen.Errors.{Error, wrap, is, not_exist}
use rook_servicechannel_agen.Action.{
  Result, ok, err, Action, pure, fail, of_result, try, wrap_error, ◌>>=◌, ◌>>◌,
}
use rook_servicechannel_agen.Host.{Host}
use rook_servicechannel_agen.Runtime.State.{Agent, on_world}
use rook_servicechannel_agen.Runtime.Manager.{subscribe, unsubscribe}

-- The calls of the packages net and os: `net.Listen("unix", path)`, `os.Chmod(path, 0o666)`, and the
-- listener's `Close`. `meanwhile` is all that happens until `Accept` fails, which it does with
-- `accept_error`; `is_done` tells whether the context is done.
pub record Socket (W : Type 0) : Type 0 where
  pub listen : String → Action W (Unit {0})
  pub chmod : String → Action W (Unit {0})
  pub close : Action W (Unit {0})
  pub meanwhile : Agent W → Agent W
  pub accept_error : Error
  pub is_done : W → Bool

module _ {W : Type 0} (host : Host W) (socket : Socket W) where
  abbrev pub stale_result : Result (Unit {0}) → Action W (Unit {0})
  stale_result (ok _) = pure tt
  stale_result (err e) =
      if is not_exist e then pure tt else fail (wrap "remove stale socket: " e "")

  -- `removeStaleSocket`
  unfoldable pub remove_stale_socket : String → Action W (Unit {0})
  unfolding is
  remove_stale_socket path = do removed ← try (host.remove path); stale_result removed

  -- The end of the loop of `Run`
  abbrev pub accept_loop : Action (Agent W) (Unit {0})
  accept_loop a =
      let b = socket.meanwhile a in
      (
        if socket.is_done b.world
            then ok tt
            else err (wrap "accept socket client: " socket.accept_error ""),
        b,
      )

  -- `Run` once it listens, with the first of its deferred calls.
  abbrev pub serve_socket : String → Action (Agent W) (Unit {0})
  serve_socket path = do
    wrap_error (λ e. wrap "chmod socket: " e "") (on_world (socket.chmod path))
    id ← subscribe
    ended ← try accept_loop
    unsubscribe id
    of_result ended

  -- `Run`
  unfoldable pub run_server : String → Action (Agent W) (Unit {0})
  unfolding remove_stale_socket
  run_server path = do
    wrap_error (λ e. wrap "create socket directory: " e "")
        (on_world (host.mkdir_all (host.dir path)))
    on_world (remove_stale_socket path)
    wrap_error (λ e. wrap "listen on socket: " e "") (on_world (socket.listen path))
    served ← try (serve_socket path)
    try (on_world (host.remove path))
    try (on_world socket.close)
    of_result served
