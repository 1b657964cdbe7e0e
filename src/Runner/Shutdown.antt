-- ===== src/Runner/Shutdown.antt =====
-- core/src/runner.rs, the end of `run`: what stops the daemon, and what its subscribers are told.
use sidedns.Prelude.{◌≡◌, refl, true, List, [], ◌∷◌, ◌++◌, arith, ◌<◌}
use mathlib.Core.List.{append_assoc}
use sidedns.Domain.{RegexEngine}
use sidedns.Message.{stop, daemon_stopped}
use sidedns.Store.{InnerRuleStore}
use sidedns.State.{AppState, dispatch}
use sidedns.Handler.{handle}

-- What the last `select!` finds first: a signal, or the token that a request to stop cancelled.
pub data Shutdown : Type 0 where
  sigint requested sigterm : Shutdown

-- `token` is part of the state.
unfoldable pub shutdown : Shutdown → AppState → AppState
unfolding dispatch
shutdown sigint s = record s { cancelled = true }
shutdown requested s = (dispatch s daemon_stopped).1
shutdown sigterm s = record s { cancelled = true }

-- A daemon with subscribers that is asked to stop sends them the event of it twice, once for the request
-- and once for the shutdown; one that a signal stops sends none. Its tasks are cancelled each time.
shutdown-stop :
    (engine : RegexEngine) (stale : List InnerRuleStore) (s : AppState)
    → 0 < s.receivers
    → ((shutdown requested (handle engine stale s stop).1).sent
        ≡ s.sent ++ daemon_stopped ∷ daemon_stopped ∷ [])
      × ((shutdown requested (handle engine stale s stop).1).cancelled ≡ true)
      × ((shutdown sigint s).sent ≡ s.sent)
      × ((shutdown sigint s).cancelled ≡ true)
      × ((shutdown sigterm s).sent ≡ s.sent)
      × ((shutdown sigterm s).cancelled ≡ true)
unfolding shutdown dispatch handle
shutdown-stop engine stale s listened = (
  ground (arith, append_assoc s.sent (daemon_stopped ∷ []) (daemon_stopped ∷ [])),
  ground (arith),
  refl,
  refl,
  refl,
  refl,
)
