-- ===== src/Ipc/Server/Tests.antt =====
-- A server with two clients, the second of which writes what is no request.
use sidedns.Prelude.{◌≡◌, refl, true, false, none, some, List, [], ◌∷◌, ◌++◌, list_beq}
use sidedns.Text.{Text, text}
use sidedns.Rule.{v4}
use sidedns.HashMap
use sidedns.Files.{Disk, Rights}
use sidedns.Message.{IpcRequest, add}
use sidedns.Domain.Engine.{derivatives}
use sidedns.Store.WellFormed.{new-IsWellFormed}
use sidedns.State
use sidedns.State.{AppState}
use sidedns.Handler.Safety.{IsSafe}
use sidedns.Ipc.Serial.{format}
use sidedns.Ipc.Server.{Connection, Incoming, accept_error, accepted, accept_loop, serve, drop}
use sidedns.Ipc.Server.Life.{serve-IsSafe, drop-serve}

abbrev socket : Text
socket = text "/run/sidedns.sock"

abbrev root : Rights
root = record { may_create = λ _. true; may_write = λ _. true; may_remove = λ _. true }

abbrev line : IpcRequest → Text
line q = elim (format.requests.to_string q) [ none ↦ [] | some t ↦ t ++ b'\n' ∷ [] ]

abbrev client : Text → Connection
client input = record { input = input; stale = []; turns = [] }

abbrev adding : Connection
adding = client (line (add (text "api.local") (record { ip = v4 0x7F000001; port = 3000 }) false))

abbrev incoming : List Incoming
incoming = accepted adding ∷ accepted (client (text "?")) ∷ accept_error ∷ accepted adding ∷ []

-- The error of an accept ends the loop, and the connections after it are not taken.
ends_with_error : accept_loop incoming ≡ (false, adding ∷ client (text "?") ∷ [])
unfolding accept_loop
ends_with_error = refl

-- A socket file of an earlier run.
abbrev before : Disk
before = (socket, []) ∷ (text "/etc/hosts", text "hosts") ∷ []

abbrev last_first : List Connection → List Connection
last_first [] = []
last_first (c ∷ rest) = last_first rest ++ c ∷ []

serve-IsSafe_example :
    IsSafe (serve format derivatives root socket true incoming last_first State.new before).1
serve-IsSafe_example =
    serve-IsSafe format derivatives root socket true incoming last_first State.new before (record {
      well_formed = new-IsWellFormed;
      normal = record {
        persistent_exact = tt;
        persistent_wildcard = tt;
        ephemeral_exact = tt;
        ephemeral_wildcard = tt;
      };
    })

drop-serve_example :
    HashMap.get socket (
      drop format derivatives root socket
        (serve format derivatives root socket true incoming last_first State.new before).2)
    ≡ none
unfolding list_beq
drop-serve_example =
    drop-serve format derivatives root socket true incoming last_first State.new before socket refl
