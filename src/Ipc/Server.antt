-- ===== src/Ipc/Server.antt =====
-- core/src/ipc/server.rs: the server from its socket file to the last connection.
pub mod Life
pub mod Tests
use sidedns.Prelude.{Bool, true, false, not, ◌&&◌, List, [], ◌∷◌, if◌then◌else◌}
use sidedns.Text.{Text}
use sidedns.HashMap
use sidedns.Files.{Disk, Rights, exists, remove_file}
use sidedns.Domain.{RegexEngine}
use sidedns.Store.{InnerRuleStore}
use sidedns.State.{AppState}
use sidedns.Broadcast.{Turn}
use sidedns.Ipc.{Format, handle_connection}

-- A connection: what its client writes, the snapshots that its request's rounds see, and the turns
-- of its subscription, if it asks for one.
pub record Connection : Type 0 where
  pub input : Text
  pub stale : List InnerRuleStore
  pub turns : List Turn

-- What the loop's `select!` finds.
pub data Incoming : Type 0 where
  cancelled accept_error : Incoming
  accepted : Connection → Incoming

-- Whether the loop ends without an error, and the connections for which it spawned a task.
unfoldable pub accept_loop : List Incoming → Bool × List Connection
accept_loop [] = (true, [])
accept_loop (cancelled ∷ rest) = (true, [])
accept_loop (accept_error ∷ rest) = (false, [])
accept_loop (accepted c ∷ rest) = let (result, spawned) = accept_loop rest in (result, c ∷ spawned)

module _ (f : Format) (engine : RegexEngine) where
  -- The tasks, in the order in which they get hold of the state.
  unfoldable pub handle_connections : List Connection → AppState → AppState
  unfolding handle_connection
  handle_connections [] s = s
  handle_connections (c ∷ rest) s =
      handle_connections rest (handle_connection f engine c.stale s c.input c.turns).1

  module _ (rights : Rights) (socket_path : Text) where
    -- On Unix. `binds` is whether the listener is created, with its file, and `scheduled` the order
    -- in which the runtime runs the tasks.
    unfoldable pub serve :
        Bool
        → List Incoming
        → (List Connection → List Connection)
        → AppState
        → Disk
        → Bool × AppState × Disk
    unfolding exists remove_file accept_loop handle_connections HashMap.insert
    serve binds incoming scheduled s disk =
        let (removed, cleared) = remove_file rights socket_path disk in
        if exists socket_path disk && not removed
        then (false, s, cleared)
        else if not binds
        then (false, s, cleared)
        else (let (result, spawned) = accept_loop incoming in
            (
              result,
              handle_connections (scheduled spawned) s,
              HashMap.insert socket_path [] cleared,
            ))

    -- `Drop`: a failing removal is only reported.
    unfoldable pub drop : Disk → Disk
    unfolding exists remove_file
    drop disk = if exists socket_path disk then (remove_file rights socket_path disk).1 else disk
