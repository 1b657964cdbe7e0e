-- ===== src/Runner/Starting.antt =====
-- The daemon as it starts: a file that holds its rules, and an empty cache.
use mathlib.Core.Path.{subst, subst₂}
use sidedns.Prelude.{
  ◌≡◌, refl, sym, ap, ◌∙◌, Bool, not, ◌&&◌, Option, none, some, List, [], ◌∷◌, arith, inl, inr,
  Bool-cases,
}
use sidedns.Text.{Text}
use sidedns.Rule.{DnsRule, is_wildcard}
use sidedns.Domain.{RegexEngine}
use sidedns.Store
use sidedns.Store.{InnerRuleStore}
use sidedns.Store.WellFormed.{IsWellFormed, new-IsWellFormed, add_all-IsWellFormed}
use sidedns.Store.Shared.{add_all-once}
use sidedns.State
use sidedns.State.{AppState, DnsConfig, load_rules}
use sidedns.State.Restart.{persistent_only, restarted, IsRestored, persistent_only-IsRestored}
use sidedns.Message.{resolve, resolved}
use sidedns.Handler.{handle}
use sidedns.Command.Arguments.{parsed, validate_domain_resolve, validate_domain_resolve-handle}
use sidedns.Resolver
use sidedns.Resolver.{Backend, DomainResolver, sign_domain, resolve_domain}
use sidedns.Resolver.Cache.{cached}
use sidedns.Runner
use sidedns.Runner.{restore_certs}
use sidedns.Runner.Coherence.{Daemon, IsCoherent, Reach, quiet_cache_agrees}
use sidedns.Runner.Saving.{Saver, SaverRun, IsSaved, quiet_file_agrees}

rules_of : Option DnsConfig → List DnsRule
rules_of file = elim file [ some c ↦ c.rules | none ↦ [] ]

loaded :
    (file : Option DnsConfig) (stale : List InnerRuleStore)
    → (load_rules file stale State.new).1.store ≡ Store.add_all Store.new (rules_of file)
unfolding load_rules rules_of
loaded file stale = ap (λ p. p.1) (add_all-once stale Store.new (rules_of file))

abbrev HasNoEphemeral : InnerRuleStore → Type 0
HasNoEphemeral s = (s.ephemeral_exact ≡ []) × (s.ephemeral_wildcard ≡ [])

add-HasNoEphemeral :
    (s : InnerRuleStore) (r : DnsRule) → HasNoEphemeral s → HasNoEphemeral (Store.add s r)
unfolding Store.add
add-HasNoEphemeral s r (exact, wildcard) = elim (Bool-cases (is_wildcard r)) [
  | inl w ↦ rw (w, Store.add) (exact, wildcard)
  | inr w ↦ rw (w, Store.add) (exact, wildcard)
]

add_all-HasNoEphemeral :
    (s : InnerRuleStore) (rs : List DnsRule)
    → HasNoEphemeral s
    → HasNoEphemeral (Store.add_all s rs)
unfolding Store.add_all
add_all-HasNoEphemeral s [] h = h
add_all-HasNoEphemeral s (r ∷ rs) h =
    add_all-HasNoEphemeral (Store.add s r) rs (add-HasNoEphemeral s r h)

persistent_only_same : (s : InnerRuleStore) → HasNoEphemeral s → persistent_only s ≡ s
persistent_only_same s (exact, wildcard) = cc

module _ (b : Backend) where
  sign_domain-cached :
      (r : DomainResolver b) (k d : Text) → cached b (sign_domain b r k).1 d ≡ cached b r d
  unfolding sign_domain
  sign_domain-cached r k d = ground arith

  restore_certs-cached :
      (r : DomainResolver b) (rules : List DnsRule) (d : Text)
      → cached b (restore_certs b r rules) d ≡ cached b r d
  unfolding restore_certs
  restore_certs-cached r [] d = refl
  restore_certs-cached r (rule ∷ rules) d =
      elim (Bool-cases (rule.https && not (is_wildcard rule))) [
        | inl signed ↦
            rw (signed, restore_certs)
              (restore_certs-cached (sign_domain b r rule.domain).1 rules d
                ∙ sign_domain-cached r rule.domain d)
        | inr passed ↦ rw (passed, restore_certs) (restore_certs-cached r rules d)
      ]

module _ (b : Backend) (ca : Option b.Ca) (loads : Bool) (file : Option DnsConfig)
    (stale : List InnerRuleStore) where
  -- The daemon once its watcher is subscribed to the events.
  abbrev pub started : Saver b
  started =
      let (s, r) = Runner.start b ca loads file stale in
      record { app = State.subscribe s; resolver = r; pending = []; file = file }

  abbrev pub started_daemon : Daemon b
  started_daemon = record {
    app = started.app;
    resolver = started.resolver;
    pending = [];
    reading = [];
  }

  started-IsWellFormed : IsWellFormed started.app.store
  unfolding Runner.start State.subscribe
  started-IsWellFormed =
      subst IsWellFormed (sym (loaded file stale))
        (add_all-IsWellFormed (rules_of file) new-IsWellFormed)

  started-IsSaved : IsSaved started
  unfolding Runner.start State.subscribe
  started-IsSaved = record {
    listened = omega arith;
    well_formed = started-IsWellFormed;
    saved =
        let empty = add_all-HasNoEphemeral Store.new (rules_of file) (refl, refl) in
        let store = Store.add_all Store.new (rules_of file) in
        let same : persistent_only store ≡ store = persistent_only_same store empty in
        let at_start : IsRestored store (persistent_only store) =
          subst (λ a. IsRestored a (persistent_only store)) same
            (persistent_only-IsRestored store) in
        inl (
          subst₂ (λ a b. IsRestored a (persistent_only b)) (sym (loaded file []))
            (sym (loaded file stale)) at_start);
  }

  nothing_cached : (d : Text) → cached b started.resolver d ≡ none
  unfolding Runner.start
  nothing_cached d = elim (Bool-cases (Resolver.is_cert_installed b loads (Resolver.new b ca))) [
    | inl installed ↦
        rw (installed, Runner.start)
          (restore_certs-cached b (Resolver.new b ca) (load_rules file stale State.new).0 d
            ∙ (b.rule_cache).get-new d)
    | inr bare ↦ rw (bare, Runner.start) ((b.rule_cache).get-new d)
  ]

  started-IsCoherent : IsCoherent started_daemon
  unfolding Runner.start State.subscribe
  started-IsCoherent = record {
    listened = omega arith;
    well_formed = started-IsWellFormed;
    fresh = λ d r held. cc (nothing_cached d);
    reads = tt;
  }

  -- In any run of requests, lookups and events from the daemon's start, whatever its file holds,
  -- while no two wildcards of a layer overlap where a request is handled, no event is lost to the
  -- watcher, and it handles none while a lookup of a name that the event concerns is between
  -- reading the store and writing the cache: as soon as it has handled every event, each name
  -- resolves through the cache as it resolves in the store.
  pub started_cache_agrees :
      (engine : RegexEngine) {y : Daemon b} (d : Text)
      → Reach b engine started_daemon y
      → y.pending ≡ []
      → (resolve_domain b y.app.store y.resolver d).0 ≡ Store.resolve y.app.store d
  started_cache_agrees engine d run quiet =
      quiet_cache_agrees b engine d started-IsCoherent run quiet

  -- In any run of requests and events from the daemon's start, none of them lost to the watcher and
  -- each save written: as soon as the watcher has handled every event, a daemon that starts with
  -- the file has under each domain the persistent exact rule of this one, its persistent wildcards
  -- in their order and no ephemeral rule, and each name resolves in it as it does here by the
  -- persistent rules, in whatever order the saved maps were visited.
  pub started_file_agrees :
      (engine : RegexEngine) {y : Saver b}
      → SaverRun b engine started y
      → y.pending ≡ []
      → IsRestored (restarted y.file) (persistent_only y.app.store)
  started_file_agrees engine run quiet = quiet_file_agrees b engine started-IsSaved run quiet

  -- In any run of requests, lookups and events from the daemon's start, while no two wildcards of a
  -- layer overlap where a request is handled, no event is lost to the watcher, and it handles none
  -- while a lookup of a name that the event concerns is between reading the store and writing the
  -- cache: as soon as it has handled every event, a request to resolve a name that the command
  -- line's parser accepts is answered with what the DNS server and the proxy resolve the name to,
  -- whatever their cache holds.
  pub started_answer_agrees :
      (engine : RegexEngine) {y : Daemon b} (seen : List InnerRuleStore) (argument d : Text)
      → validate_domain_resolve engine argument ≡ parsed d
      → Reach b engine started_daemon y
      → y.pending ≡ []
      → (handle engine seen y.app (resolve d)).0
        ≡ resolved (resolve_domain b y.app.store y.resolver d).0
  started_answer_agrees engine {y} seen argument d accepted run quiet =
      (validate_domain_resolve-handle engine seen y.app argument d accepted).1
      ∙ ap resolved (sym (started_cache_agrees engine d run quiet))
