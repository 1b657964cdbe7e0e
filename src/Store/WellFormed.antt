-- ===== src/Store/WellFormed.antt =====
-- The store's invariant, and that every operation keeps it.
use sidedns.Prelude.{
  ℕ, ◌≡◌, refl, true, false, some, List, [], ◌∷◌, arith, text_eq, inl, inr, swap_remove,
  AtMostOne-swap_remove, All-swap_remove, Bool-cases,
}
use sidedns.Text.{Text}
use sidedns.Rule.{DnsRule, is_wildcard}
use sidedns.HashMap
use sidedns.HashMap.{HashMap, HasUniqueKeys}
use sidedns.HashMap.Laws.{insert-HasUniqueKeys, without-HasUniqueKeys}
use sidedns.Store.{
  InnerRuleStore, new, add, add_all, add_ephemeral, replace_wildcard, remove, remove_ephemeral,
}
use sidedns.Store.Layer.{
  has_domain, AreExact, AreWildcards, HaveDistinctDomains, distinct-AtMostOne,
  distinct_of_AtMostOne, replace_wildcard-distinct, replace_wildcard-AreWildcards,
  take_wildcard_cases,
}

-- A layer: each exact rule under its own domain, once; wildcards with distinct domains.
pub record IsLayer (exact : HashMap DnsRule) (wildcard : List DnsRule) : Type 0 where
  pub own_key : AreExact exact
  pub unique : HasUniqueKeys exact
  pub starred : AreWildcards wildcard
  pub distinct : HaveDistinctDomains wildcard

pub record IsWellFormed (s : InnerRuleStore) : Type 0 where
  pub ephemeral : IsLayer s.ephemeral_exact s.ephemeral_wildcard
  pub persistent : IsLayer s.persistent_exact s.persistent_wildcard

pub new-IsWellFormed : IsWellFormed new
new-IsWellFormed = record {
  ephemeral = record { own_key = tt; unique = tt; starred = tt; distinct = tt };
  persistent = record { own_key = tt; unique = tt; starred = tt; distinct = tt };
}

insert-AreExact :
    (r : DnsRule) (m : HashMap DnsRule)
    → is_wildcard r ≡ false
    → AreExact m
    → AreExact (HashMap.insert r.domain r m)
unfolding HashMap.insert
insert-AreExact r [] w _ = ((refl, w), tt)
insert-AreExact r ((j, v) ∷ m) w (h, k) = ground (arith, insert-AreExact r m w k)

without-AreExact : (k : Text) (m : HashMap DnsRule) → AreExact m → AreExact (HashMap.without k m)
unfolding HashMap.without
without-AreExact k [] _ = tt
without-AreExact k ((j, v) ∷ m) (h, rest) = ground (arith, without-AreExact k m rest)

module _ {exact : HashMap DnsRule} {wildcard : List DnsRule} (layer : IsLayer exact wildcard) where
  insert-IsLayer :
      (r : DnsRule) → is_wildcard r ≡ false → IsLayer (HashMap.insert r.domain r exact) wildcard
  insert-IsLayer r w = record {
    own_key = insert-AreExact r exact w layer.own_key;
    unique = insert-HasUniqueKeys r.domain r exact layer.unique;
    starred = layer.starred;
    distinct = layer.distinct;
  }

  replace-IsLayer :
      (r : DnsRule) → is_wildcard r ≡ true → IsLayer exact (replace_wildcard wildcard r)
  replace-IsLayer r w = record {
    own_key = layer.own_key;
    unique = layer.unique;
    starred = replace_wildcard-AreWildcards wildcard r w layer.starred;
    distinct = replace_wildcard-distinct wildcard r layer.distinct;
  }

  without-IsLayer : (k : Text) → IsLayer (HashMap.without k exact) wildcard
  without-IsLayer k = record {
    own_key = without-AreExact k exact layer.own_key;
    unique = without-HasUniqueKeys k exact layer.unique;
    starred = layer.starred;
    distinct = layer.distinct;
  }

  cut-IsLayer :
      (i : ℕ) {a : DnsRule} {rest : List DnsRule}
      → swap_remove wildcard i ≡ some (a, rest)
      → IsLayer exact rest
  cut-IsLayer i {a} {rest} cut = record {
    own_key = layer.own_key;
    unique = layer.unique;
    starred = All-swap_remove (λ r. is_wildcard r ≡ true) wildcard i {a = a} layer.starred cut;
    distinct = distinct_of_AtMostOne rest (λ j.
        AtMostOne-swap_remove (has_domain j) wildcard i {a = a}
          (distinct-AtMostOne j wildcard layer.distinct) cut);
  }

module _ {s : InnerRuleStore} (wf : IsWellFormed s) where
  pub add-IsWellFormed : (r : DnsRule) → IsWellFormed (add s r)
  unfolding add
  add-IsWellFormed r = elim (Bool-cases (is_wildcard r)) [
    | inl w ↦
        rw w (record { ephemeral = wf.ephemeral; persistent = replace-IsLayer wf.persistent r w })
    | inr w ↦
        rw w (record { ephemeral = wf.ephemeral; persistent = insert-IsLayer wf.persistent r w })
  ]

  pub add_ephemeral-IsWellFormed : (r : DnsRule) → IsWellFormed (add_ephemeral s r)
  unfolding add_ephemeral
  add_ephemeral-IsWellFormed r = elim (Bool-cases (is_wildcard r)) [
    | inl w ↦
        rw w (record { ephemeral = replace-IsLayer wf.ephemeral r w; persistent = wf.persistent })
    | inr w ↦
        rw w (record { ephemeral = insert-IsLayer wf.ephemeral r w; persistent = wf.persistent })
  ]

  pub remove-IsWellFormed : (k : Text) → IsWellFormed (remove s k).1
  unfolding remove
  remove-IsWellFormed k = elim (take_wildcard_cases k s.persistent_wildcard) [
    | inl (missing, _) ↦
        rw (missing, remove)
          (record { ephemeral = wf.ephemeral; persistent = without-IsLayer wf.persistent k })
    | inr (i, a, rest, taken, cut, _) ↦
        rw (taken, remove)
          (record {
            ephemeral = wf.ephemeral;
            persistent = cut-IsLayer (without-IsLayer wf.persistent k) i cut;
          })
  ]

  pub remove_ephemeral-IsWellFormed : (k : Text) → IsWellFormed (remove_ephemeral s k).1
  unfolding remove_ephemeral
  remove_ephemeral-IsWellFormed k = elim (take_wildcard_cases k s.ephemeral_wildcard) [
    | inl (missing, _) ↦
        rw (missing, remove_ephemeral)
          (record { ephemeral = without-IsLayer wf.ephemeral k; persistent = wf.persistent })
    | inr (i, a, rest, taken, cut, _) ↦
        rw (taken, remove_ephemeral)
          (record {
            ephemeral = cut-IsLayer (without-IsLayer wf.ephemeral k) i cut;
            persistent = wf.persistent;
          })
  ]

-- The mutations of the store, as one type.
pub data Update : Type 0 where
  adding adding_ephemeral : DnsRule → Update
  loading : List DnsRule → Update
  removing removing_ephemeral : Text → Update

unfoldable pub update : InnerRuleStore → Update → InnerRuleStore
unfolding add add_all add_ephemeral remove remove_ephemeral
update s (adding r) = add s r
update s (adding_ephemeral r) = add_ephemeral s r
update s (loading rs) = add_all s rs
update s (removing k) = (remove s k).1
update s (removing_ephemeral k) = (remove_ephemeral s k).1

unfoldable pub run : InnerRuleStore → List Update → InnerRuleStore
unfolding update
run s [] = s
run s (u ∷ us) = run (update s u) us

pub add_all-IsWellFormed :
    (rs : List DnsRule) {s : InnerRuleStore} → IsWellFormed s → IsWellFormed (add_all s rs)
unfolding add_all
add_all-IsWellFormed [] wf = wf
add_all-IsWellFormed (r ∷ rs) wf = add_all-IsWellFormed rs (add-IsWellFormed wf r)

pub update-IsWellFormed :
    (u : Update) {s : InnerRuleStore} → IsWellFormed s → IsWellFormed (update s u)
unfolding update
update-IsWellFormed (adding r) wf = add-IsWellFormed wf r
update-IsWellFormed (adding_ephemeral r) wf = add_ephemeral-IsWellFormed wf r
update-IsWellFormed (loading rs) wf = add_all-IsWellFormed rs wf
update-IsWellFormed (removing k) wf = remove-IsWellFormed wf k
update-IsWellFormed (removing_ephemeral k) wf = remove_ephemeral-IsWellFormed wf k

run_keeps : (us : List Update) {s : InnerRuleStore} → IsWellFormed s → IsWellFormed (run s us)
unfolding run
run_keeps [] wf = wf
run_keeps (u ∷ us) wf = run_keeps us (update-IsWellFormed u wf)

-- Whatever is added, loaded and removed, in any order, the store that results keeps each exact
-- rule once, under its own domain, and its wildcard rules apart, with distinct domains.
pub run-IsWellFormed : (us : List Update) → IsWellFormed (run new us)
run-IsWellFormed us = run_keeps us new-IsWellFormed
