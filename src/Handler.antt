-- ===== src/Handler.antt =====
-- core/src/ipc/handler.rs: what the daemon does with each request.
pub mod Effect
pub mod Safety
pub mod Replay
pub mod Reply
pub mod Tests
use sidedns.Prelude.{Bool, true, false, Option, none, some, List, ◌++◌, if◌then◌else◌}
use sidedns.Text.{Text, text, to_lowercase}
use sidedns.Rule.{SocketAddr, DnsRule}
use sidedns.Domain.{RegexEngine, validate_domain}
use sidedns.Message.{
  IpcRequest, add, add_ephemeral, remove, remove_ephemeral, list, resolve, status, stop, subscribe,
  DnsEvent, rule_added, rule_removed, ephemeral_added, ephemeral_removed, daemon_stopped,
  IpcResponse, ok, error, rules, resolved, status_of,
}
use sidedns.Store
use sidedns.Store.{InnerRuleStore}
use sidedns.Store.Shared
use sidedns.State.{AppState, dispatch}

abbrev pub invalid_domain : Text → IpcResponse
invalid_domain domain = error (text "Invalid domain name: " ++ domain)

abbrev pub no_rule : Text → IpcResponse
no_rule domain = error (text "No rule found for '" ++ domain ++ text "'")

abbrev pub no_ephemeral_rule : Text → IpcResponse
no_ephemeral_rule domain = error (text "No ephemeral rule found for '" ++ domain ++ text "'")

module _ (engine : RegexEngine) (stale : List InnerRuleStore) (s : AppState) where
  -- The macro `validate_domain!`: the rest of the branch gets the domain in lower case.
  unfoldable pub with_valid : Text → (Text → IpcResponse × AppState) → IpcResponse × AppState
  unfolding validate_domain
  with_valid domain rest =
      if validate_domain engine domain
      then rest (to_lowercase domain)
      else (invalid_domain domain, s)

  unfoldable pub handle_add : Text → SocketAddr → Bool → IpcResponse × AppState
  unfolding dispatch Shared.add
  handle_add domain target https =
      let (rule, store) =
        Shared.add stale s.store (record { domain = domain; target = target; https = https }) in
      (ok, (dispatch (record s { store = store }) (rule_added rule)).1)

  unfoldable pub handle_add_ephemeral : Text → SocketAddr → Bool → IpcResponse × AppState
  unfolding dispatch Shared.add_ephemeral
  handle_add_ephemeral domain target https =
      let (rule, store) =
        Shared.add_ephemeral stale s.store
          (record { domain = domain; target = target; https = https }) in
      (ok, (dispatch (record s { store = store }) (ephemeral_added rule)).1)

  unfoldable pub handle_remove : Text → IpcResponse × AppState
  unfolding dispatch Shared.remove
  handle_remove domain =
      let (removed, store) = Shared.remove stale s.store domain in
      elim removed [
        | some rule ↦ (ok, (dispatch (record s { store = store }) (rule_removed rule)).1)
        | none ↦ (no_rule domain, record s { store = store })
      ]

  unfoldable pub handle_remove_ephemeral : Text → IpcResponse × AppState
  unfolding dispatch Shared.remove_ephemeral
  handle_remove_ephemeral domain =
      let (removed, store) = Shared.remove_ephemeral stale s.store domain in
      elim removed [
        | some rule ↦ (ok, (dispatch (record s { store = store }) (ephemeral_removed rule)).1)
        | none ↦ (no_ephemeral_rule domain, record s { store = store })
      ]

  unfoldable pub handle : IpcRequest → IpcResponse × AppState
  unfolding with_valid handle_add handle_add_ephemeral handle_remove handle_remove_ephemeral
      dispatch Shared.snapshot_persistent Shared.resolve Store.count
  handle (add domain target https) = with_valid domain (λ d. handle_add d target https)
  handle (add_ephemeral domain target https) =
      with_valid domain (λ d. handle_add_ephemeral d target https)
  handle (remove domain) = with_valid domain handle_remove
  handle (remove_ephemeral domain) = with_valid domain handle_remove_ephemeral
  handle list = (rules (Shared.snapshot_persistent s.store), s)
  handle (resolve domain) = with_valid domain (λ d. (resolved (Shared.resolve stale s.store d), s))
  handle status = (status_of true (Store.count s.store), s)
  handle stop = let s' = (dispatch s daemon_stopped).1 in (ok, record s' { cancelled = true })
  handle subscribe = (ok, s)
