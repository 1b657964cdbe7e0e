-- ===== src/Client/Reporting.antt =====
-- No command that asks the daemon ends in silence.
use sidedns.Prelude.{◌≡◌, ◌≢◌, ◌⊎◌, inl, inr, refl, true, false, none, some, [], ◌∷◌}
use sidedns.Text.{Text}
use sidedns.Rule.{SocketAddr}
use sidedns.Domain.{RegexEngine}
use sidedns.Message.{add, remove, list, resolve, IpcResponse}
use sidedns.State.{AppState}
use sidedns.Handler.Reply.{IsReply, done, failed, listing, resolved_to, handle-IsReply}
use sidedns.Client
use sidedns.Client.{
  Delivery, lost, handled, Display, AddArgs, Output, send, add_command, remove_command,
  resolve_command, status_command,
}
use sidedns.Client.Table
use sidedns.Client.Table.{list_command, table}

-- A command fails, or prints a line at least.
abbrev pub Reports : Output → Type 0
Reports o = (o.0 ≡ false) ⊎ (o.1 ≢ [])

module _ (engine : RegexEngine) (display : Display) where
  added-Reports :
      (args : AddArgs) (t : SocketAddr) (r : IpcResponse)
      → IsReply (add args.domain t args.https) r
      → Reports (Client.added engine display args (some r))
  unfolding Client.added
  added-Reports args t _ (done e) = inr (λ x. cc)
  added-Reports args t _ (failed e) = inl refl

  removed-Reports :
      (d : Text) (r : IpcResponse)
      → IsReply (remove d) r
      → Reports (Client.removed engine display d (some r))
  unfolding Client.removed
  removed-Reports d _ (done e) = inr (λ x. cc)
  removed-Reports d _ (failed e) = inl refl

  shown-Reports :
      (d : Text) (r : IpcResponse)
      → IsReply (resolve d) r
      → Reports (Client.shown engine display d (some r))
  unfolding Client.shown
  shown-Reports d _ (failed e) = inl refl
  shown-Reports d _ (resolved_to {r = none}) = inr (λ x. cc)
  shown-Reports d _ (resolved_to {r = some rule}) = inr (λ x. cc)
  shown-Reports d _ (done e) = cc

  listed-Reports : (r : IpcResponse) → IsReply list r → Reports (Table.listed display (some r))
  unfolding Table.listed table
  listed-Reports _ (listing {rs = []}) = inr (λ x. cc)
  listed-Reports _ (listing {rs = r ∷ rs}) = inr (λ x. cc)
  listed-Reports _ (done e) = cc
  listed-Reports _ (failed e) = cc

  -- Of the daemon's responses none is of a kind that the commands to add, remove, resolve and list
  -- ignore: with any request, lost or answered or not, each command fails or prints something.
  pub commands_report :
      (args : AddArgs) (domain : Text) (d : Delivery) (s : AppState)
      → Reports (add_command engine display args d s).0
        × Reports (remove_command engine display domain d s).0
        × Reports (resolve_command engine display domain d s).0
        × Reports (list_command engine display d s).0
  unfolding add_command remove_command resolve_command list_command send Client.added Client.removed
      Client.shown Table.listed
  commands_report args domain lost s = (inl refl, inl refl, inl refl, inl refl)
  commands_report args domain (handled stale false) s = (inl refl, inl refl, inl refl, inl refl)
  commands_report args domain (handled stale true) s = (
    added-Reports args _ _ (handle-IsReply engine stale s _),
    removed-Reports domain _ (handle-IsReply engine stale s _),
    shown-Reports domain _ (handle-IsReply engine stale s _),
    listed-Reports _ (handle-IsReply engine stale s _),
  )
