-- ===== src/Handler/Tests.antt =====
-- Requests at concrete inputs, with the engine by derivatives.
use sidedns.Prelude.{
  ◌≡◌, refl, true, false, none, some, List, [], ◌∷◌, arith, list_beq, if◌then◌else◌,
}
use sidedns.Text.{text, as_bytes, to_lowercase}
use sidedns.Rule.{v4, SocketAddr, DnsRule}
use sidedns.Domain.{domain_regex, validate_domain}
use sidedns.Domain.Engine.{derivatives, is_match}
use sidedns.Message.{
  IpcRequest, add, remove, list, status, resolve, stop, rule_added, rule_removed, daemon_stopped,
  IpcResponse, ok, error, rules, resolved, status_of,
}
use sidedns.Store
use sidedns.Store.{InnerRuleStore}
use sidedns.Store.WellFormed.{new-IsWellFormed}
use sidedns.Store.Views.{persistent_for, ephemeral_for}
use sidedns.Store.Refinement.{no_rules}
use sidedns.State
use sidedns.State.{AppState}
use sidedns.Handler.{handle, invalid_domain, no_rule}
use sidedns.Handler.Effect.{store_after, handle-store, handle-remove, handle_all}
use sidedns.Handler.Replay.{IsFollowed, handle_all-IsFollowed}
use sidedns.Handler.Reply.{IsReply, handle-IsReply}

code : Unit {0}
unfolding handle validate_domain domain_regex is_match to_lowercase list_beq as_bytes handle_all
    Store.remove Store.add Store.persistent_rules Store.resolve
code = tt

abbrev target : SocketAddr
target = record { ip = v4 0x7F000001; port = 3000 }

-- A fresh daemon with one subscriber.
abbrev watched : AppState
watched = record State.new { receivers = 1 }

abbrev reply : IpcRequest → AppState → IpcResponse
reply q s = (handle derivatives [] s q).0

abbrev after : IpcRequest → AppState → AppState
after q s = (handle derivatives [] s q).1

abbrev add_api : IpcRequest
add_api = add (text "API.local") target false

abbrev api : DnsRule
api = record { domain = text "api.local"; target = target; https = false }

replies :
    (reply add_api watched ≡ ok)
    × (reply (add (text "not valid") target false) watched
        ≡ error (text "Invalid domain name: not valid"))
    × (reply (remove (text "api.local")) watched ≡ error (text "No rule found for 'api.local'"))
    × (reply (remove (text "api.LOCAL")) (after add_api watched) ≡ ok)
    × (reply status (after add_api watched) ≡ status_of true 1)
    × (reply list (after add_api watched) ≡ rules (api ∷ []))
    × (reply (resolve (text "Api.Local")) (after add_api watched) ≡ resolved (some api))
    × ((after stop (after (remove (text "api.local")) (after add_api watched))).sent
        ≡ rule_added api ∷ rule_removed api ∷ daemon_stopped ∷ [])
unfolding code
replies = (refl, refl, refl, refl, refl, refl, refl, refl)

abbrev requests : List (List InnerRuleStore × IpcRequest)
requests = ([], add_api) ∷ (Store.new ∷ [], remove (text "nothing")) ∷ ([], stop) ∷ []

handle-store_example :
    (handle derivatives (Store.new ∷ []) watched add_api).1.store
    ≡ store_after derivatives watched.store add_api
handle-store_example = handle-store derivatives (Store.new ∷ []) watched add_api

handle-remove_example : (handle derivatives [] watched (remove (text "api.local"))).0 ≡ (
    if validate_domain derivatives (text "api.local")
    then (elim (persistent_for watched.store (to_lowercase (text "api.local"))) [
      | some _ ↦ ok
      | none ↦ no_rule (to_lowercase (text "api.local"))
    ])
    else invalid_domain (text "api.local"))
handle-remove_example = handle-remove derivatives [] watched (text "api.local") new-IsWellFormed

-- A daemon with no rules is known by a subscriber that knows none.
no_rules_known : IsFollowed no_rules watched
unfolding persistent_for ephemeral_for Store.resolve
no_rules_known = record {
  listened = omega arith;
  well_formed = new-IsWellFormed;
  knows = record { persistent = λ k. refl; ephemeral = λ k. refl };
}

handle_all-IsFollowed_example : IsFollowed no_rules (handle_all derivatives watched requests)
handle_all-IsFollowed_example = handle_all-IsFollowed derivatives requests no_rules_known

handle-IsReply_example :
    IsReply
      (remove (text "api.local"))
      (handle derivatives [] State.new (remove (text "api.local"))).0
handle-IsReply_example = handle-IsReply derivatives [] State.new (remove (text "api.local"))
