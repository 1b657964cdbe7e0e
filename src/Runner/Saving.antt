-- ===== src/Runner/Saving.antt =====
-- The configuration file and the persistent rules, with requests and the watcher interleaved.
use mathlib.Core.List.{Permᴰ, append_cancel_left}
use mathlib.Core.Path.{subst}
use sidedns.Prelude.{
  ◌≡◌, refl, sym, ◌∙◌, Bool, true, false, Option, none, some, List, [], ◌∷◌, ◌++◌, arith, ◌<◌, ◌⊎◌,
  inl, inr, any, any-append, Bool-cases, Option-cases, text_eq,
}
use sidedns.Text.{Text, to_lowercase}
use sidedns.Rule.{DnsRule}
use sidedns.Domain.{RegexEngine, validate_domain}
use sidedns.HashMap
use sidedns.Message.{
  IpcRequest, add, add_ephemeral, remove, remove_ephemeral, list, resolve, status, stop, subscribe,
  DnsEvent, rule_added, rule_removed, ephemeral_added, ephemeral_removed, daemon_stopped,
}
use sidedns.Store
use sidedns.Store.{InnerRuleStore}
use sidedns.Store.Layer.{take_wildcard_cases}
use sidedns.Store.WellFormed.{IsWellFormed}
use sidedns.Store.Shared.{writes_once}
use sidedns.State.{AppState, DnsConfig}
use sidedns.State.Restart.{IsRestored, visiting, persistent_only, restarted, restarted-save}
use sidedns.Handler.{handle}
use sidedns.Handler.Effect.{rule_of, any_rule, handle-IsWellFormed, handle-receivers}
use sidedns.Resolver.{Backend, DomainResolver}
use sidedns.Runner.{on_event}

-- The events after which the watcher saves.
abbrev pub changes_file : DnsEvent → Bool
changes_file (rule_added r) = true
changes_file (rule_removed r) = true
changes_file _ = false

without-absent :
    (k : Text) (m : HashMap.HashMap DnsRule) → HashMap.get k m ≡ none → HashMap.without k m ≡ m
unfolding HashMap.get HashMap.without
without-absent k [] absent = refl
without-absent k ((j, v) ∷ m) absent = ground (arith, without-absent k m)

remove-missing :
    (s : InnerRuleStore) (k : Text)
    → (Store.remove s k).0 ≡ none
    → persistent_only (Store.remove s k).1 ≡ persistent_only s
unfolding Store.remove HashMap.remove
remove-missing s k missing = elim (take_wildcard_cases k s.persistent_wildcard) [
  | inl (missed, absent) ↦ ground (arith, without-absent k s.persistent_exact)
  | inr (i, a, rest, taken, cut, found) ↦ ground arith
]

ephemeral_alone :
    (s : InnerRuleStore) (r : DnsRule) (k : Text)
    → (persistent_only (Store.add_ephemeral s r) ≡ persistent_only s)
      × (persistent_only (Store.remove_ephemeral s k).1 ≡ persistent_only s)
unfolding Store.add_ephemeral Store.remove_ephemeral
ephemeral_alone s r k = (ground arith, ground arith)

module _ (engine : RegexEngine) (stale : List InnerRuleStore) (s : AppState) where
  -- A request leaves the persistent rules alone, or sends one event after which the watcher saves.
  abbrev Tells : IpcRequest → Type 0
  Tells q =
      (persistent_only (handle engine stale s q).1.store ≡ persistent_only s.store)
      ⊎ ((e : DnsEvent) × ((changes_file e ≡ true)
            × ((handle engine stale s q).1.sent ≡ s.sent ++ e ∷ [])))

  handle-Tells : (q : IpcRequest) → 0 < s.receivers → Tells q
  unfolding handle
  handle-Tells (add domain target https) listened =
      elim (Bool-cases (validate_domain engine domain)) [
        | inl valid ↦
            let r = rule_of domain target https in
            inr (rule_added r, (refl, ground (arith, (writes_once stale s.store r domain).0)))
        | inr invalid ↦ inl (ground arith)
      ]
  handle-Tells (add_ephemeral domain target https) listened =
      let r = rule_of domain target https in
      inl (
        ground
          (arith, (writes_once stale s.store r domain).1, (ephemeral_alone s.store r domain).0))
  handle-Tells (remove domain) listened =
      let k = to_lowercase domain in
      let once = (writes_once stale s.store any_rule k).2 in
      elim (Bool-cases (validate_domain engine domain)) [
        | inr invalid ↦ inl (ground arith)
        | inl valid ↦ elim (Option-cases (Store.remove s.store k).0) [
          | inl missing ↦ inl (ground (arith, once, remove-missing s.store k missing))
          | inr (a, found) ↦ inr (rule_removed a, (refl, ground (arith, once)))
        ]
      ]
  handle-Tells (remove_ephemeral domain) listened =
      let k = to_lowercase domain in
      inl (
        ground
          (arith, (writes_once stale s.store any_rule k).3, (ephemeral_alone s.store any_rule k).1))
  handle-Tells list listened = inl refl
  handle-Tells (resolve domain) listened = inl (ground arith)
  handle-Tells status listened = inl refl
  handle-Tells stop listened = inl (ground arith)
  handle-Tells subscribe listened = inl refl

-- The daemon with its file, and the events that the watcher has still to receive.
pub record Saver (b : Backend) : Type 0 where
  pub app : AppState
  pub resolver : DomainResolver b
  pub pending : List DnsEvent
  pub file : Option DnsConfig

-- A start with the file would have the persistent rules, or an event that saves is on its way.
pub record IsSaved {b : Backend} (x : Saver b) : Type 0 where
  pub listened : 0 < x.app.receivers
  pub well_formed : IsWellFormed x.app.store
  pub saved :
      IsRestored (restarted x.file) (persistent_only x.app.store)
      ⊎ (any changes_file x.pending ≡ true)

module _ (b : Backend) (engine : RegexEngine) where
  -- A request is handled, and what it sends joins the watcher's queue; or the watcher receives the
  -- oldest event, and what it saves is written, the map of the exact rules visited in any order.
  pub data SaverStep (x : Saver b) : Saver b → Type 0 where
    request :
        (stale : List InnerRuleStore) (q : IpcRequest) (new : List DnsEvent)
        → (handle engine stale x.app q).1.sent ≡ x.app.sent ++ new
        → SaverStep x
            (record x { app = (handle engine stale x.app q).1; pending = x.pending ++ new })
    watch :
        (m : HashMap.HashMap DnsRule) (e : DnsEvent) (rest : List DnsEvent)
        → Permᴰ m x.app.store.persistent_exact
        → x.pending ≡ e ∷ rest
        → SaverStep x (record x {
          resolver = (on_event b (visiting x.app m) x.resolver e).0;
          pending = rest;
          file = elim (on_event b (visiting x.app m) x.resolver e).1 [
            | none ↦ x.file
            | some c ↦ some c
          ];
        })

  pub data SaverRun (x : Saver b) : Saver b → Type 0 where
    here : SaverRun x x
    next : {y z : Saver b} → SaverRun x y → SaverStep y z → SaverRun x z

  request_saved :
      {x : Saver b} (stale : List InnerRuleStore) (q : IpcRequest) (new : List DnsEvent)
      → (handle engine stale x.app q).1.sent ≡ x.app.sent ++ new
      → IsSaved x
      → IsRestored (restarted x.file) (persistent_only (handle engine stale x.app q).1.store)
        ⊎ (any changes_file (x.pending ++ new) ≡ true)
  unfolding any
  request_saved {x} stale q new grew c = elim (handle-Tells engine stale x.app q c.listened) [
    | inr (e, (saves, sent)) ↦
        let only = append_cancel_left x.app.sent new (e ∷ []) (sym grew ∙ sent) in
        inr (rw only (ground (arith, any-append changes_file x.pending (e ∷ []))))
    | inl same ↦ elim c.saved [
      | inl current ↦ inl (subst (IsRestored (restarted x.file)) (sym same) current)
      | inr coming ↦ inr (ground (arith, any-append changes_file x.pending new))
    ]
  ]

  watch_saved :
      {x : Saver b} (m : HashMap.HashMap DnsRule) (e : DnsEvent) (rest : List DnsEvent)
      → Permᴰ m x.app.store.persistent_exact
      → x.pending ≡ e ∷ rest
      → IsSaved x
      → IsRestored
          (restarted (elim (on_event b (visiting x.app m) x.resolver e).1 [
            | none ↦ x.file
            | some c ↦ some c
          ]))
          (persistent_only x.app.store)
        ⊎ (any changes_file rest ≡ true)
  unfolding on_event any
  watch_saved {x} m (rule_added r) rest order oldest c =
      inl (restarted-save x.app m c.well_formed order)
  watch_saved {x} m (rule_removed r) rest order oldest c =
      inl (restarted-save x.app m c.well_formed order)
  watch_saved {x} m (ephemeral_added r) rest order oldest c = elim c.saved [
    | inl current ↦ inl current
    | inr coming ↦ inr (ground arith)
  ]
  watch_saved {x} m (ephemeral_removed r) rest order oldest c = elim c.saved [
    | inl current ↦ inl current
    | inr coming ↦ inr (ground arith)
  ]
  watch_saved {x} m daemon_stopped rest order oldest c = elim c.saved [
    | inl current ↦ inl current
    | inr coming ↦ inr (ground arith)
  ]

  SaverStep-IsSaved : {x y : Saver b} → SaverStep x y → IsSaved x → IsSaved y
  SaverStep-IsSaved {x} (request stale q new grew) c = record {
    listened = rw (handle-receivers engine stale x.app q) c.listened;
    well_formed = handle-IsWellFormed engine stale x.app q c.well_formed;
    saved = request_saved stale q new grew c;
  }
  SaverStep-IsSaved (watch m e rest order oldest) c = record {
    listened = c.listened;
    well_formed = c.well_formed;
    saved = watch_saved m e rest order oldest c;
  }

  SaverRun-IsSaved : {x y : Saver b} → IsSaved x → SaverRun x y → IsSaved y
  SaverRun-IsSaved c here = c
  SaverRun-IsSaved c (next run step) = SaverStep-IsSaved step (SaverRun-IsSaved c run)

  -- In any run of such steps from a daemon whose file holds its rules, as soon as the watcher has
  -- handled every event, a daemon that starts with the file has under each domain the persistent
  -- exact rule of this one, its persistent wildcards in their order and no ephemeral rule, and each
  -- name resolves in it as it does here by the persistent rules.
  pub quiet_file_agrees :
      {x y : Saver b}
      → IsSaved x
      → SaverRun x y
      → y.pending ≡ []
      → IsRestored (restarted y.file) (persistent_only y.app.store)
  unfolding any
  quiet_file_agrees {x} {y} c run quiet = elim (SaverRun-IsSaved c run).saved [
    | inl current ↦ current
    | inr coming ↦ absurd (ground arith)
  ]
