-- ===== src/State/Restart.antt =====
-- Saving the rules and loading them into a new daemon.
use mathlib.Core.Path.{subst}
use mathlib.Core.List.{append_assoc, append-nil, Permᴰ}
use sidedns.Prelude.{
  ◌≡◌, refl, sym, ap, ◌∙◌, true, false, not, Option, none, All-perm, some, List, [], ◌∷◌, ◌++◌,
  arith, ◌==◌, text_eq, text_eq_iff, text_eq_refl, find, find-append, retain,
}
use sidedns.Text.{Text}
use sidedns.Rule.{DnsRule, is_wildcard}
use sidedns.HashMap
use sidedns.HashMap.{HashMap, HasUniqueKeys}
use sidedns.HashMap.Laws.{get-perm}
use sidedns.Store
use sidedns.Store.{InnerRuleStore, add_all, replace_wildcard, persistent_rules}
use sidedns.Store.Layer.{has_domain, AreExact, AreWildcards, HaveDistinctDomains}
use sidedns.Store.WellFormed.{IsWellFormed}
use sidedns.Store.Shared.{add_all-once}
use sidedns.State
use sidedns.State.{AppState, DnsConfig, save, load_rules}

-- The exact rules.
get-append :
    (k : Text) (m n : HashMap DnsRule)
    → HashMap.get k (m ++ n) ≡ (elim (HashMap.get k m) [ none ↦ HashMap.get k n | some v ↦ some v ])
unfolding HashMap.get
get-append k [] n = refl
get-append k ((j, v) ∷ m) n = ground (arith, get-append k m n)

insert-fresh :
    (k : Text) (v : DnsRule) (m : HashMap DnsRule)
    → HashMap.get k m ≡ none
    → HashMap.insert k v m ≡ m ++ (k, v) ∷ []
unfolding HashMap.get HashMap.insert
insert-fresh k v [] fresh = refl
insert-fresh k v ((j, w) ∷ m) fresh = ground (arith, insert-fresh k v m)

fresh_key :
    (done : HashMap DnsRule) (k : Text) (v : DnsRule) (rest : HashMap DnsRule)
    → HasUniqueKeys (done ++ (k, v) ∷ rest)
    → HashMap.get k done ≡ none
unfolding HashMap.get
fresh_key [] k v rest unique = refl
fresh_key ((j, w) ∷ done) k v rest (absent, unique) = ground (
  arith,
  get-append j done ((k, v) ∷ rest),
  text_eq_iff j k,
  text_eq_refl k,
  fresh_key done k v rest unique,
)

add-plain :
    (s : InnerRuleStore) (done : HashMap DnsRule) (k : Text) (r : DnsRule)
    → k ≡ r.domain
    → is_wildcard r ≡ false
    → HashMap.get k done ≡ none
    → Store.add (record s { persistent_exact = done }) r
      ≡ record s { persistent_exact = done ++ (k, r) ∷ [] }
unfolding Store.add
add-plain s done k r own plain fresh = ground (arith, insert-fresh k r done)

rebuild_exact :
    (s : InnerRuleStore) (done rest : HashMap DnsRule)
    → AreExact rest
    → HasUniqueKeys (done ++ rest)
    → add_all (record s { persistent_exact = done }) (HashMap.values rest)
      ≡ record s { persistent_exact = done ++ rest }
unfolding add_all HashMap.values
rebuild_exact s done [] own unique = rw (append-nil done) refl
rebuild_exact s done ((k, r) ∷ rest) ((own, plain), owns) unique =
    let regroup = append_assoc done ((k, r) ∷ []) rest in
    let later =
      rebuild_exact s (done ++ (k, r) ∷ []) rest owns (subst HasUniqueKeys (sym regroup) unique) in
    ap (λ x. add_all x (HashMap.values rest))
      (add-plain s done k r own plain (fresh_key done k r rest unique))
    ∙ (later ∙ ap (λ e. record s { persistent_exact = e }) regroup)

-- The wildcard rules.
retain_all :
    (k : Text) (rs : List DnsRule)
    → find (has_domain k) rs ≡ none
    → retain (λ r. not (r.domain == k)) rs ≡ rs
unfolding find retain
retain_all k [] absent = refl
retain_all k (r ∷ rs) absent = ground (arith, retain_all k rs)

fresh_wildcard :
    (done : List DnsRule) (r : DnsRule) (rest : List DnsRule)
    → HaveDistinctDomains (done ++ r ∷ rest)
    → find (has_domain r.domain) done ≡ none
unfolding find
fresh_wildcard [] r rest distinct = refl
fresh_wildcard (q ∷ done) r rest (absent, distinct) = ground (
  arith,
  find-append (has_domain q.domain) done (r ∷ rest),
  text_eq_iff q.domain r.domain,
  text_eq_refl r.domain,
  fresh_wildcard done r rest distinct,
)

add-starred :
    (s : InnerRuleStore) (done : List DnsRule) (r : DnsRule)
    → is_wildcard r ≡ true
    → find (has_domain r.domain) done ≡ none
    → Store.add (record s { persistent_wildcard = done }) r
      ≡ record s { persistent_wildcard = done ++ r ∷ [] }
unfolding Store.add replace_wildcard
add-starred s done r starred fresh = ground (arith, retain_all r.domain done)

rebuild_wildcard :
    (s : InnerRuleStore) (done rest : List DnsRule)
    → AreWildcards rest
    → HaveDistinctDomains (done ++ rest)
    → add_all (record s { persistent_wildcard = done }) rest
      ≡ record s { persistent_wildcard = done ++ rest }
unfolding add_all
rebuild_wildcard s done [] starred distinct = rw (append-nil done) refl
rebuild_wildcard s done (r ∷ rest) (star, starred) distinct =
    let regroup = append_assoc done (r ∷ []) rest in
    let later =
      rebuild_wildcard s (done ++ r ∷ []) rest starred
        (subst HaveDistinctDomains (sym regroup) distinct) in
    ap (λ x. add_all x rest) (add-starred s done r star (fresh_wildcard done r rest distinct))
    ∙ (later ∙ ap (λ w. record s { persistent_wildcard = w }) regroup)

add_all-append :
    (s : InnerRuleStore) (xs ys : List DnsRule) → add_all s (xs ++ ys) ≡ add_all (add_all s xs) ys
unfolding add_all
add_all-append s [] ys = refl
add_all-append s (x ∷ xs) ys = add_all-append (Store.add s x) xs ys

-- A store without its ephemeral rules.
abbrev pub persistent_only : InnerRuleStore → InnerRuleStore
persistent_only s = record s { ephemeral_exact = []; ephemeral_wildcard = [] }

-- The store of a daemon that starts with a configuration file.
abbrev pub restarted : Option DnsConfig → InnerRuleStore
restarted file = (load_rules file [] State.new).1.store

rebuild :
    (s : InnerRuleStore)
    → IsWellFormed s
    → add_all Store.new (persistent_rules s) ≡ persistent_only s
unfolding persistent_rules
rebuild s wf =
    add_all-append Store.new (HashMap.values s.persistent_exact) s.persistent_wildcard
    ∙ (ap (λ x. add_all x s.persistent_wildcard)
          (rebuild_exact Store.new [] s.persistent_exact wf.persistent.own_key wf.persistent.unique)
        ∙ rebuild_wildcard (record Store.new { persistent_exact = s.persistent_exact }) []
            s.persistent_wildcard wf.persistent.starred wf.persistent.distinct)

-- The same rules: under each domain the same exact rule, and the same wildcards in the same order, so
-- that each name resolves alike; and no ephemeral rule in the first.
pub record IsRestored (a b : InnerRuleStore) : Type 0 where
  pub exact : (k : Text) → HashMap.get k a.persistent_exact ≡ HashMap.get k b.persistent_exact
  pub wildcard : a.persistent_wildcard ≡ b.persistent_wildcard
  pub no_exact : a.ephemeral_exact ≡ []
  pub no_wildcard : a.ephemeral_wildcard ≡ []
  pub resolves : (d : Text) → Store.resolve a d ≡ Store.resolve b d

pub persistent_only-IsRestored :
    (s : InnerRuleStore) → IsRestored (persistent_only s) (persistent_only s)
persistent_only-IsRestored s = record {
  exact = λ k. refl;
  wildcard = refl;
  no_exact = refl;
  no_wildcard = refl;
  resolves = λ d. refl;
}

-- The state as it is when the map of its exact rules visits its entries in another order, as std's map
-- does in each process.
abbrev pub visiting : AppState → HashMap DnsRule → AppState
visiting s m = record s { store = record s.store { persistent_exact = m } }

-- A daemon that starts with the rules that another saved, whose store is well formed, has under
-- each domain that one's persistent exact rule, its persistent wildcards in their order and no
-- ephemeral rule, and each name resolves in it as it did there by the persistent rules, in whatever
-- order the saved map was visited.
pub restarted-save :
    (s : AppState) (m : HashMap DnsRule)
    → IsWellFormed s.store
    → Permᴰ m s.store.persistent_exact
    → IsRestored (restarted (some (save (visiting s m)))) (persistent_only s.store)
unfolding load_rules save Store.resolve
restarted-save s m wf order =
    let (unique, same) = get-perm order wf.persistent.unique in
    let own =
      All-perm (λ e. (e.0 ≡ (e.1).domain) × (is_wildcard (e.1) ≡ false)) order
        wf.persistent.own_key in
    let there : InnerRuleStore = record s.store { persistent_exact = m } in
    let well : IsWellFormed there = record {
      ephemeral = wf.ephemeral;
      persistent = record {
        own_key = own;
        unique = unique;
        starred = wf.persistent.starred;
        distinct = wf.persistent.distinct;
      };
    } in
    let loaded =
      ap (λ p. p.1) (add_all-once [] Store.new (persistent_rules there)) ∙ rebuild there well in
    subst (λ a. IsRestored a (persistent_only s.store)) (sym loaded)
      (record {
        exact = same;
        wildcard = refl;
        no_exact = refl;
        no_wildcard = refl;
        resolves = λ d. ground (arith, same d);
      })
