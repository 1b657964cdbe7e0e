-- ===== src/Runner/Coherence.antt =====
-- The resolver's cache and the store, with requests, lookups and the watcher interleaved.
use mathlib.Core.Path.{subst, subst₂}
use sidedns.Prelude.{
  All, All-map, All-zip, All-remove, false, ◌≡◌, refl, ◌∙◌, true, none, some, List, [], ◌∷◌, ◌++◌,
  arith, ◌<◌, ◌⊎◌, inl, inr, any, any-append, if◌then◌else◌, Bool-cases, Option-cases, ◌==◌,
  text_eq, text_eq_iff,
}
use sidedns.Text.{Text}
use sidedns.Rule.{DnsRule}
use sidedns.Domain.{RegexEngine}
use sidedns.Message.{
  IpcRequest, DnsEvent, rule_added, rule_removed, ephemeral_added, ephemeral_removed,
  daemon_stopped,
}
use sidedns.Store
use sidedns.Store.{InnerRuleStore}
use sidedns.Store.WellFormed.{IsWellFormed}
use sidedns.Store.Frame.{HasNoOverlap}
use sidedns.State.{AppState}
use sidedns.Handler.{handle}
use sidedns.Handler.Effect.{handle-IsWellFormed, handle-receivers}
use sidedns.Resolver.{Backend, DomainResolver, resolve_domain}
use sidedns.Resolver.Cache.{cached, cached-invalidate, resolve_domain_lem}
use sidedns.Runner.{on_event}
use sidedns.Runner.Requests.{concerns, handle_concerns}

-- The shared state, the resolver, the events that the watcher has still to receive, and the lookups
-- that have read the store and not yet put its rule into the cache.
pub record Daemon (b : Backend) : Type 0 where
  pub app : AppState
  pub resolver : DomainResolver b
  pub pending : List DnsEvent
  pub reading : List (Text × DnsRule)

-- The end of a lookup that missed the cache: `cache.insert`.
abbrev pub put : (b : Backend) → DomainResolver b → Text → DnsRule → DomainResolver b
put b r d rule = record r { cache = (b.rule_cache).insert d rule r.cache }

module _ (b : Backend) (engine : RegexEngine) where
  -- A request is handled, and what it sends joins the watcher's queue; a lookup that missed the
  -- cache, at any time before, reads the store; a lookup that read it puts the rule that it read into
  -- the cache; or the watcher receives the oldest event, while no lookup of a name that it concerns is
  -- between the two. A lookup that hits the cache, or finds no rule, changes nothing.
  pub data Step (x : Daemon b) : Daemon b → Type 0 where
    request :
        (stale : List InnerRuleStore) (q : IpcRequest) (new : List DnsEvent)
        → ((d : Text) → HasNoOverlap x.app.store d)
        → (handle engine stale x.app q).1.sent ≡ x.app.sent ++ new
        → Step x (record x { app = (handle engine stale x.app q).1; pending = x.pending ++ new })
    read :
        (d : Text) (r : DnsRule)
        → Store.resolve x.app.store d ≡ some r
        → Step x (record x { reading = (d, r) ∷ x.reading })
    insert :
        (before after : List (Text × DnsRule)) (d : Text) (r : DnsRule)
        → x.reading ≡ before ++ (d, r) ∷ after
        → Step x (record x { resolver = put b x.resolver d r; reading = before ++ after })
    watch :
        (e : DnsEvent) (rest : List DnsEvent)
        → x.pending ≡ e ∷ rest
        → All (λ l. concerns l.0 e ≡ false) x.reading
        → Step x (record x { resolver = (on_event b x.app x.resolver e).0; pending = rest })

  pub data Reach (x : Daemon b) : Daemon b → Type 0 where
    here : Reach x x
    next : {y z : Daemon b} → Reach x y → Step y z → Reach x z

  -- A lookup that nothing comes between, as `resolve_domain` has it.
  pub look_up :
      {x y : Daemon b} (d : Text)
      → Reach x y
      → Reach x (record y { resolver = (resolve_domain b y.app.store y.resolver d).1 })
  unfolding resolve_domain
  look_up {x} {y} d run = elim (Option-cases ((b.rule_cache).get d y.resolver.cache)) [
    | inr (rule, hit) ↦ rw (hit, resolve_domain) run
    | inl miss ↦ elim (Option-cases (Store.resolve y.app.store d)) [
      | inl unknown ↦ rw (miss, resolve_domain, unknown) run
      | inr (rule, known) ↦
          rw (miss, resolve_domain, known)
            (next (next run (read d rule known)) (insert [] y.reading d rule refl))
    ]
  ]

-- The store resolves the name to the rule, or an event that concerns the name is on its way.
abbrev pub IsRight : {b : Backend} (x : Daemon b) → Text → DnsRule → Type 0
IsRight x d r = (Store.resolve x.app.store d ≡ some r) ⊎ (any (concerns d) x.pending ≡ true)

-- Each rule that is cached, or that a lookup has read, is right.
pub record IsCoherent {b : Backend} (x : Daemon b) : Type 0 where
  pub listened : 0 < x.app.receivers
  pub well_formed : IsWellFormed x.app.store
  pub fresh : (d : Text) (r : DnsRule) → cached b x.resolver d ≡ some r → IsRight x d r
  pub reads : All (λ l. IsRight x l.0 l.1) x.reading

on_event-cached :
    (b : Backend) (s : AppState) (r : DomainResolver b) (e : DnsEvent) (d : Text)
    → cached b (on_event b s r e).0 d ≡ (if concerns d e then none else cached b r d)
unfolding on_event
on_event-cached b s r (rule_added rule) d = (cached-invalidate b r rule d).0
on_event-cached b s r (rule_removed rule) d = (cached-invalidate b r rule d).0
on_event-cached b s r (ephemeral_added rule) d = (cached-invalidate b r rule d).0
on_event-cached b s r (ephemeral_removed rule) d = (cached-invalidate b r rule d).0
on_event-cached b s r daemon_stopped d = refl

module _ (b : Backend) (engine : RegexEngine) {x : Daemon b} (c : IsCoherent x) where
  request_right :
      (stale : List InnerRuleStore) (q : IpcRequest) (new : List DnsEvent)
      → (handle engine stale x.app q).1.sent ≡ x.app.sent ++ new
      → (d : Text) (r : DnsRule) → HasNoOverlap x.app.store d
      → IsRight x d r
      → (Store.resolve (handle engine stale x.app q).1.store d ≡ some r)
        ⊎ (any (concerns d) (x.pending ++ new) ≡ true)
  request_right stale q new grew d r apart right = elim right [
    | inr coming ↦ inr (ground (arith, any-append (concerns d) x.pending new))
    | inl same ↦
        elim (handle_concerns d x.app c.listened engine stale new c.well_formed apart q grew) [
          | inl unmoved ↦ inl (unmoved ∙ same)
          | inr announced ↦ inr (ground (arith, any-append (concerns d) x.pending new))
        ]
  ]

  watch_right :
      (e : DnsEvent) (rest : List DnsEvent)
      → x.pending ≡ e ∷ rest
      → (d : Text) (r : DnsRule) → concerns d e ≡ false
      → IsRight x d r
      → (Store.resolve x.app.store d ≡ some r) ⊎ (any (concerns d) rest ≡ true)
  unfolding any
  watch_right e rest oldest d r spared right = elim right [
    | inl same ↦ inl same
    | inr coming ↦ inr (ground arith)
  ]

  watch_fresh :
      (e : DnsEvent) (rest : List DnsEvent)
      → x.pending ≡ e ∷ rest
      → (d : Text) (r : DnsRule) → cached b (on_event b x.app x.resolver e).0 d ≡ some r
      → (Store.resolve x.app.store d ≡ some r) ⊎ (any (concerns d) rest ≡ true)
  watch_fresh e rest oldest d r held = elim (Bool-cases (concerns d e)) [
    | inl concerned ↦ ground (arith, on_event-cached b x.app x.resolver e d)
    | inr spared ↦
        let before : cached b x.resolver d ≡ some r =
          ground (arith, on_event-cached b x.app x.resolver e d) in
        watch_right e rest oldest d r spared (c.fresh d r before)
  ]

  insert_fresh :
      (d₀ : Text) (r₀ : DnsRule) (d : Text) (r : DnsRule)
      → IsRight x d₀ r₀
      → cached b (put b x.resolver d₀ r₀) d ≡ some r
      → IsRight x d r
  insert_fresh d₀ r₀ d r right held = elim (Bool-cases (d₀ == d)) [
    | inl same ↦
        let e : d₀ ≡ d = (text_eq_iff d₀ d).0 same in
        let own : r₀ ≡ r = ground (arith, (b.rule_cache).get-insert d₀ d r₀ x.resolver.cache) in
        subst₂ (λ d r. IsRight x d r) e own right
    | inr other ↦ c.fresh d r (ground (arith, (b.rule_cache).get-insert d₀ d r₀ x.resolver.cache))
  ]

module _ (b : Backend) (engine : RegexEngine) where
  -- Requests, lookups and the watcher, in any order that a step allows, keep each cached rule, and each
  -- one that a lookup has read, either equal to what the store resolves the name to, or announced as
  -- stale by an event not yet received.
  pub Step-IsCoherent : {x y : Daemon b} → Step b engine x y → IsCoherent x → IsCoherent y
  Step-IsCoherent {x} (request stale q new apart grew) c = record {
    listened = rw (handle-receivers engine stale x.app q) c.listened;
    well_formed = handle-IsWellFormed engine stale x.app q c.well_formed;
    fresh = λ d r held. request_right b engine c stale q new grew d r (apart d) (c.fresh d r held);
    reads =
        All-map (λ l. request_right b engine c stale q new grew l.0 l.1 (apart l.0)) x.reading
          c.reads;
  }
  Step-IsCoherent {x} (read d r known) c = record {
    listened = c.listened;
    well_formed = c.well_formed;
    fresh = c.fresh;
    reads = (inl known, c.reads);
  }
  Step-IsCoherent {x} (insert before after d r among) c =
      let (right, others) =
        All-remove (λ l. IsRight x l.0 l.1) before (d, r) after
          (subst (All (λ l. IsRight x l.0 l.1)) among c.reads) in
      record {
        listened = c.listened;
        well_formed = c.well_formed;
        fresh = λ d' r' held. insert_fresh b engine c d r d' r' right held;
        reads = others;
      }
  Step-IsCoherent {x} (watch e rest oldest spared) c = record {
    listened = c.listened;
    well_formed = c.well_formed;
    fresh = λ d r held. watch_fresh b engine c e rest oldest d r held;
    reads = All-zip (λ l. watch_right b engine c e rest oldest l.0 l.1) x.reading spared c.reads;
  }

  Reach-IsCoherent : {x y : Daemon b} → IsCoherent x → Reach b engine x y → IsCoherent y
  Reach-IsCoherent c here = c
  Reach-IsCoherent c (next r step) = Step-IsCoherent step (Reach-IsCoherent c r)

  -- In any run of such steps from a coherent daemon, as soon as the watcher has handled every
  -- event, each name resolves through the cache as it resolves in the store.
  pub quiet_cache_agrees :
      {x y : Daemon b} (d : Text)
      → IsCoherent x
      → Reach b engine x y
      → y.pending ≡ []
      → (resolve_domain b y.app.store y.resolver d).0 ≡ Store.resolve y.app.store d
  unfolding any
  quiet_cache_agrees {y} d c run quiet = elim (Option-cases (cached b y.resolver d)) [
    | inl miss ↦ ground (arith, resolve_domain_lem b y.app.store y.resolver d)
    | inr (r, held) ↦ elim ((Reach-IsCoherent c run).fresh d r held) [
      | inl same ↦ ground (arith, resolve_domain_lem b y.app.store y.resolver d)
      | inr coming ↦ ground arith
    ]
  ]
