-- ===== src/Runner/Tests.antt =====
-- The coherence of the cache, and the saving of the rules, at concrete runs.
use mathlib.Core.List.{Permᴰ}
use mathlib.Core.List.Permᴰ
use sidedns.Prelude.{ℕ, ◌≡◌, refl, false, none, some, [], ◌∷◌, arith, list_beq, ◌↔◌, true}
use sidedns.Text.{Text, text, as_bytes, to_lowercase, starts_with, strip_prefix}
use sidedns.Rule.{v4, DnsRule}
use sidedns.Domain.{validate_domain, domain_regex}
use sidedns.Domain.Engine.{derivatives, is_match}
use sidedns.Message.{IpcRequest, add, resolve, resolved, rule_added}
use sidedns.Store
use sidedns.Store.{add_all}
use sidedns.Store.WellFormed.{new-IsWellFormed, add_all-IsWellFormed}
use sidedns.DashMap.Instance.{assoc_map}
use sidedns.Resolver
use sidedns.Resolver.{Backend, DomainResolver, resolve_domain}
use sidedns.State
use sidedns.State.{AppState, save}
use sidedns.State.Restart.{persistent_only, restarted, restarted-save, IsRestored, visiting}
use sidedns.HashMap
use sidedns.Command.Arguments
use sidedns.Command.Arguments.{parsed, validate_domain_resolve}
use sidedns.Handler.{handle}
use sidedns.Runner.Coherence.{Daemon, put, request, look_up, watch, Reach, here, next, IsCoherent}
use sidedns.Runner.Saving.{Saver, SaverRun}
use sidedns.Runner
use sidedns.Runner.{on_event}
use sidedns.Runner.Starting.{
  started, started_daemon, started_cache_agrees, started_file_agrees, started_answer_agrees,
}
use sidedns.Runner.Saving
use sidedns.Handler.Effect.{handle-IsWellFormed}
use sidedns.Runner.Handshake.{IsServed, same_authority, resolve_iff}

-- Certificates are numbers, and a name is always signed.
abbrev pub toy : Backend
toy = record {
  Ca = Unit;
  CertifiedKey = ℕ;
  rule_cache = assoc_map DnsRule;
  key_cache = assoc_map ℕ;
  sign = λ ca names. some 1;
}

abbrev pub start : Daemon toy
start = record {
  app = record State.new { receivers = 1 };
  resolver = Resolver.new toy none;
  pending = [];
  reading = [];
}

abbrev pub api : DnsRule
api = record {
  domain = text "api.local";
  target = record { ip = v4 1; port = 3000 };
  https = false;
}

abbrev adding : IpcRequest
adding = add (text "api.local") api.target false

pub start-IsCoherent : IsCoherent start
unfolding HashMap.get
start-IsCoherent = record {
  listened = omega arith;
  well_formed = new-IsWellFormed;
  fresh = λ d r held. cc;
  reads = tt;
}

-- A daemon that starts without a file, adds a rule, looks it up and saves it.
code : Unit {0}
unfolding Runner.start State.load_rules State.subscribe Store.add_all handle validate_domain
    domain_regex is_match to_lowercase list_beq as_bytes on_event Resolver.is_cert_installed
code = tt

abbrev fresh : Saver toy
fresh = started toy none false none []

abbrev told : Saver toy
told = record fresh {
  app = (handle derivatives [] fresh.app adding).1;
  pending = rule_added api ∷ [];
}

abbrev written : Saver toy
written = record told {
  resolver =
      (on_event toy (visiting told.app told.app.store.persistent_exact) told.resolver
        (rule_added api)).0;
  pending = [];
  file = some (save (visiting told.app told.app.store.persistent_exact));
}

saver_run : SaverRun toy derivatives fresh written
unfolding code
saver_run =
    Saving.next (Saving.next Saving.here (Saving.request [] adding (rule_added api ∷ []) refl)) (
      Saving.watch told.app.store.persistent_exact (rule_added api) []
        (Permᴰ.refl told.app.store.persistent_exact) refl)

started_file_agrees_example : IsRestored (restarted written.file) (persistent_only told.app.store)
started_file_agrees_example = started_file_agrees toy none false none [] derivatives saver_run refl

abbrev added : Daemon toy
added = record {
  app = told.app;
  resolver = fresh.resolver;
  pending = rule_added api ∷ [];
  reading = [];
}

abbrev looked_up : Daemon toy
looked_up = record added {
  resolver = (resolve_domain toy added.app.store added.resolver (text "api.local")).1;
}

abbrev settled : Daemon toy
settled = record looked_up {
  resolver = (on_event toy looked_up.app looked_up.resolver (rule_added api)).0;
  pending = [];
}

adding_run : Reach toy derivatives (started_daemon toy none false none []) added
unfolding code
adding_run =
    next here (
      request [] adding (rule_added api ∷ []) (λ d. record { ephemeral = tt; persistent = tt })
        refl)

whole_run : Reach toy derivatives (started_daemon toy none false none []) settled
unfolding code
whole_run =
    next (look_up toy derivatives (text "api.local") adding_run) (watch (rule_added api) [] refl tt)

started_cache_agrees_example :
    (resolve_domain toy settled.app.store settled.resolver (text "api.local")).0
    ≡ Store.resolve settled.app.store (text "api.local")
started_cache_agrees_example =
    started_cache_agrees toy none false none [] derivatives (text "api.local") whole_run refl

accepted : validate_domain_resolve derivatives (text "API.local") ≡ parsed (text "api.local")
unfolding code validate_domain_resolve Arguments.validate_domain starts_with strip_prefix
accepted = refl

started_answer_agrees_example :
    (handle derivatives [] settled.app (resolve (text "api.local"))).0
    ≡ resolved (resolve_domain toy settled.app.store settled.resolver (text "api.local")).0
started_answer_agrees_example =
    started_answer_agrees toy none false none [] derivatives [] (text "API.local")
      (text "api.local") accepted whole_run refl

-- Two exact rules that the saved map visits in the other order, and a wildcard.
abbrev named : Text → DnsRule
named domain = record api { domain = domain }

abbrev wild : DnsRule
wild = named (text "*.local")

abbrev several : AppState
several = record State.new {
  store = add_all Store.new (api ∷ wild ∷ named (text "web.local") ∷ []);
}

abbrev swapped : HashMap.HashMap DnsRule
swapped = (text "web.local", named (text "web.local")) ∷ (text "api.local", api) ∷ []

swapped-order : Permᴰ swapped several.store.persistent_exact
unfolding add_all list_beq
swapped-order = Permᴰ.swap refl refl

restarted-save_example :
    IsRestored (restarted (some (save (visiting several swapped)))) (persistent_only several.store)
restarted-save_example =
    restarted-save several swapped
      (add_all-IsWellFormed (api ∷ wild ∷ named (text "web.local") ∷ []) new-IsWellFormed)
      swapped-order

-- The rules of the old daemon, in the order in which the new one has them.
swapped_after : (restarted (some (save (visiting several swapped)))).persistent_exact ≡ swapped
unfolding add_all list_beq save State.load_rules Store.persistent_rules
swapped_after = refl

-- A daemon with an authority and a rule with HTTPS, before any lookup.
abbrev secured : Daemon toy
secured = record {
  app = (handle derivatives [] start.app (add (text "api.local") api.target true)).1;
  resolver = Resolver.new toy (some tt);
  pending = [];
  reading = [];
}

secured-IsCoherent : IsCoherent secured
unfolding HashMap.get handle validate_domain domain_regex is_match to_lowercase list_beq as_bytes
secured-IsCoherent = record {
  listened = omega arith;
  well_formed =
      handle-IsWellFormed derivatives [] start.app (add (text "api.local") api.target true)
        new-IsWellFormed;
  fresh = λ d r held. cc;
  reads = tt;
}

abbrev secured_lookup : Daemon toy
secured_lookup = record secured {
  resolver = (resolve_domain toy secured.app.store secured.resolver (text "api.local")).1;
}

secured_run : Reach toy derivatives secured secured_lookup
secured_run = look_up toy derivatives (text "api.local") here

resolve_iff_example :
    IsServed toy
      (Resolver.resolve toy secured_lookup.app.store secured_lookup.resolver
        (some (text "api.local"))).0
    ↔ ((rule : DnsRule) × (Store.resolve secured_lookup.app.store (text "api.local") ≡ some rule)
        × (rule.https ≡ true))
resolve_iff_example =
    resolve_iff secured-IsCoherent secured_run refl tt
      (same_authority toy secured.app.store secured.resolver (text "api.local") tt refl)
      (text "api.local") 1 refl

-- What the two steps of a lookup allow: a lookup reads the rule, a request replaces it and the watcher
-- handles its event, and then the lookup puts the rule that it read into the cache. The stale rule is
-- served with no event pending.
abbrev moved : DnsRule
moved = record api { target = record { ip = v4 1; port = 4000 } }

abbrev replaced : AppState
replaced = (handle derivatives [] told.app (add (text "api.local") moved.target false)).1

abbrev raced : DomainResolver toy
raced = put toy (on_event toy replaced told.resolver (rule_added moved)).0 (text "api.local") api

stale_after_race :
    (Store.resolve told.app.store (text "api.local") ≡ some api)
    × (Store.resolve replaced.store (text "api.local") ≡ some moved)
    × ((resolve_domain toy replaced.store raced (text "api.local")).0 ≡ some api)
unfolding code Store.resolve HashMap.get resolve_domain HashMap.without
stale_after_race = (refl, refl, refl)
