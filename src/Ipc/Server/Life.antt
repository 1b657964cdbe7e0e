-- ===== src/Ipc/Server/Life.antt =====
-- From the start of the server to its drop: the socket file and the rules.
use sidedns.Prelude.{
  ◌≡◌, Bool, true, false, not, ◌&&◌, none, List, [], ◌∷◌, arith, ◌==◌, text_eq, text_eq_iff,
  if◌then◌else◌, Bool-cases, List-cases, ◌⊎◌, Option-cases, inl, inr,
}
use mathlib.Core.Path.{subst⁻¹}
use sidedns.Text.{Text}
use sidedns.HashMap
use sidedns.HashMap.Laws.{get-insert}
use sidedns.Files.{Disk, Rights, exists, remove_file}
use sidedns.Files.Laws.{get-remove_file}
use sidedns.Domain.{RegexEngine}
use sidedns.State
use sidedns.State.{AppState}
use sidedns.Handler
use sidedns.Handler.Safety.{IsSafe, handle-IsSafe}
use sidedns.Broadcast.{Turn}
use sidedns.Store.{InnerRuleStore}
use sidedns.Message.{IpcRequest}
use sidedns.Ipc.{Format, is_subscribe, handle_subscribe, handle_connection}
use sidedns.Ipc.Server.{Connection, Incoming, accept_loop, handle_connections, serve, drop}

module _ (f : Format) (engine : RegexEngine) where
  -- A connection leaves the state alone, or with one receiver more, or as one request leaves it.
  handle_connection_cases :
      (stale : List InnerRuleStore) (s : AppState) (input : Text) (turns : List Turn)
      → ((handle_connection f engine stale s input turns).1 ≡ s)
        ⊎ (((handle_connection f engine stale s input turns).1 ≡ State.subscribe s)
            ⊎ ((request : IpcRequest) × ((handle_connection f engine stale s input turns).1
                  ≡ (Handler.handle engine stale s request).1)))
  unfolding handle_connection handle_subscribe
  handle_connection_cases stale s input turns = elim (List-cases (f.wire.lines input)) [
    | inl nothing ↦ inl (ground (arith))
    | inr (line, (rest, lines)) ↦ elim (Option-cases (f.requests.from_str line)) [
      | inl unread ↦ inl (ground (arith))
      | inr (request, read) ↦ elim (Bool-cases (is_subscribe request)) [
        | inl subscribes ↦ inr (inl (ground (arith)))
        | inr answers ↦ inr (inr (request, ground (arith)))
      ]
    ]
  ]

  handle_connection-IsSafe :
      (stale : List InnerRuleStore) (s : AppState) (input : Text) (turns : List Turn)
      → IsSafe s
      → IsSafe (handle_connection f engine stale s input turns).1
  unfolding State.subscribe
  handle_connection-IsSafe stale s input turns safe =
      elim (handle_connection_cases stale s input turns) [
        | inl same ↦ subst⁻¹ IsSafe same safe
        | inr (inl subscribed) ↦
            subst⁻¹ IsSafe subscribed
              (record { well_formed = safe.well_formed; normal = safe.normal })
        | inr (inr (request, handled)) ↦
            subst⁻¹ IsSafe handled (handle-IsSafe engine stale s request safe)
      ]

  handle_connections-IsSafe :
      (connections : List Connection) (s : AppState)
      → IsSafe s
      → IsSafe (handle_connections f engine connections s)
  unfolding handle_connections
  handle_connections-IsSafe [] s safe = safe
  handle_connections-IsSafe (c ∷ rest) s safe =
      handle_connections-IsSafe rest _ (handle_connection-IsSafe c.stale s c.input c.turns safe)

  -- Whatever clients write to the socket, in whatever order their connections are handled and however
  -- the server ends, the rules stay safe: a well-formed store with normal domains alone.
  pub serve-IsSafe :
      (rights : Rights) (socket_path : Text) (binds : Bool) (incoming : List Incoming)
      (scheduled : List Connection → List Connection) (s : AppState) (disk : Disk)
      → IsSafe s
      → IsSafe (serve f engine rights socket_path binds incoming scheduled s disk).1
  unfolding serve
  serve-IsSafe rights socket_path binds incoming scheduled s disk safe =
      elim (Bool-cases (exists socket_path disk && not (remove_file rights socket_path disk).0)) [
        | inl stuck ↦ rw (stuck, serve) safe
        | inr clear ↦ elim (Bool-cases binds) [
          | inr refused ↦ rw (clear, refused, serve) safe
          | inl bound ↦
              rw (clear, bound, serve)
                (handle_connections-IsSafe (scheduled (accept_loop incoming).1) s safe)
        ]
      ]

  get-drop :
      (rights : Rights) (socket_path : Text) (disk : Disk) (path : Text)
      → rights.may_remove socket_path ≡ true
      → HashMap.get path (drop f engine rights socket_path disk)
        ≡ (if socket_path == path then none else HashMap.get path disk)
  unfolding drop exists remove_file
  get-drop rights socket_path disk path allowed = ground (
    arith,
    text_eq_iff socket_path path,
    get-remove_file rights disk socket_path path,
    Option-cases (HashMap.get socket_path disk),
  )

  get-serve :
      (rights : Rights) (socket_path : Text) (binds : Bool) (incoming : List Incoming)
      (scheduled : List Connection → List Connection) (s : AppState) (disk : Disk) (path : Text)
      → (socket_path == path) ≡ false
      → HashMap.get path (serve f engine rights socket_path binds incoming scheduled s disk).2
        ≡ HashMap.get path disk
  unfolding serve
  get-serve rights socket_path binds incoming scheduled s disk path other = ground (
    arith,
    get-remove_file rights disk socket_path path,
    get-insert socket_path path [] (remove_file rights socket_path disk).1,
  )

  -- If the system lets the socket file be removed, then however the server ends, once it is dropped the
  -- file does not exist and every other file is as it was.
  pub drop-serve :
      (rights : Rights) (socket_path : Text) (binds : Bool) (incoming : List Incoming)
      (scheduled : List Connection → List Connection) (s : AppState) (disk : Disk) (path : Text)
      → rights.may_remove socket_path ≡ true
      → HashMap.get path (
          drop f engine rights socket_path
            (serve f engine rights socket_path binds incoming scheduled s disk).2)
        ≡ (if socket_path == path then none else HashMap.get path disk)
  drop-serve rights socket_path binds incoming scheduled s disk path allowed = ground (
    arith,
    get-drop rights socket_path
        (serve f engine rights socket_path binds incoming scheduled s disk).2 path allowed,
    get-serve rights socket_path binds incoming scheduled s disk path,
  )
