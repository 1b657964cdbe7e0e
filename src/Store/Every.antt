-- ===== src/Store/Every.antt =====
-- Properties of every rule that the store holds.
use mathlib.Core.Path.{subst}
use sidedns.Prelude.{
  ◌≡◌, some, List, [], ◌∷◌, arith, All, All-swap_remove, All-find, find, Option-cases, Bool-cases,
  inl, inr, ◌==◌, text_eq,
}
use sidedns.Text.{Text}
use sidedns.Rule.{DnsRule, is_wildcard, matches}
use sidedns.HashMap
use sidedns.HashMap.{HashMap}
use sidedns.Store.{
  InnerRuleStore, new, add, add_all, add_ephemeral, remove, remove_ephemeral, resolve,
  find_wildcard,
}
use sidedns.Store.Layer.{replace_wildcard-All, take_wildcard_cases}
use sidedns.Store.WellFormed.{
  Update, adding, adding_ephemeral, loading, removing, removing_ephemeral, update,
}

pub record Every (P : DnsRule → Type 0) (s : InnerRuleStore) : Type 0 where
  pub ephemeral_exact : All (λ e. P (e.1)) s.ephemeral_exact
  pub persistent_exact : All (λ e. P (e.1)) s.persistent_exact
  pub ephemeral_wildcard : All P s.ephemeral_wildcard
  pub persistent_wildcard : All P s.persistent_wildcard

-- The rules that an update brings in.
abbrev pub Brings : (DnsRule → Type 0) → Update → Type 0
Brings P (adding r) = P r
Brings P (adding_ephemeral r) = P r
Brings P (loading rs) = All P rs
Brings P (removing _) = Unit
Brings P (removing_ephemeral _) = Unit

module _ (P : DnsRule → Type 0) where
  insert-All :
      (k : Text) (r : DnsRule) (m : HashMap DnsRule)
      → P r
      → All (λ e. P (e.1)) m
      → All (λ e. P (e.1)) (HashMap.insert k r m)
  unfolding HashMap.insert
  insert-All k r [] h _ = (h, tt)
  insert-All k r ((j, v) ∷ m) h (here, later) = ground (arith, insert-All k r m h later)

  without-All :
      (k : Text) (m : HashMap DnsRule)
      → All (λ e. P (e.1)) m
      → All (λ e. P (e.1)) (HashMap.without k m)
  unfolding HashMap.without
  without-All k [] _ = tt
  without-All k ((j, v) ∷ m) (here, later) = ground (arith, without-All k m later)

  get-All :
      (k : Text) (m : HashMap DnsRule) (r : DnsRule)
      → All (λ e. P (e.1)) m
      → HashMap.get k m ≡ some r
      → P r
  unfolding HashMap.get
  get-All k [] r _ h = cc
  get-All k ((j, v) ∷ m) r (here, later) h = elim (Bool-cases (j == k)) [
    | inl same ↦ subst P (ground arith) here
    | inr other ↦ get-All k m r later (ground arith)
  ]

  new-Every : Every P new
  new-Every = record {
    ephemeral_exact = tt;
    persistent_exact = tt;
    ephemeral_wildcard = tt;
    persistent_wildcard = tt;
  }

module _ (P : DnsRule → Type 0) {s : InnerRuleStore} (e : Every P s) where
  add-Every : (r : DnsRule) → P r → Every P (add s r)
  unfolding add
  add-Every r h = elim (Bool-cases (is_wildcard r)) [
    | inl w ↦ rw w (record {
      ephemeral_exact = e.ephemeral_exact;
      persistent_exact = e.persistent_exact;
      ephemeral_wildcard = e.ephemeral_wildcard;
      persistent_wildcard = replace_wildcard-All P s.persistent_wildcard r h e.persistent_wildcard;
    })
    | inr w ↦ rw w (record {
      ephemeral_exact = e.ephemeral_exact;
      persistent_exact = insert-All P r.domain r s.persistent_exact h e.persistent_exact;
      ephemeral_wildcard = e.ephemeral_wildcard;
      persistent_wildcard = e.persistent_wildcard;
    })
  ]

  add_ephemeral-Every : (r : DnsRule) → P r → Every P (add_ephemeral s r)
  unfolding add_ephemeral
  add_ephemeral-Every r h = elim (Bool-cases (is_wildcard r)) [
    | inl w ↦ rw w (record {
      ephemeral_exact = e.ephemeral_exact;
      persistent_exact = e.persistent_exact;
      ephemeral_wildcard = replace_wildcard-All P s.ephemeral_wildcard r h e.ephemeral_wildcard;
      persistent_wildcard = e.persistent_wildcard;
    })
    | inr w ↦ rw w (record {
      ephemeral_exact = insert-All P r.domain r s.ephemeral_exact h e.ephemeral_exact;
      persistent_exact = e.persistent_exact;
      ephemeral_wildcard = e.ephemeral_wildcard;
      persistent_wildcard = e.persistent_wildcard;
    })
  ]

  without_persistent :
      (k : Text) → Every P (record s { persistent_exact = HashMap.without k s.persistent_exact })
  without_persistent k = record {
    ephemeral_exact = e.ephemeral_exact;
    persistent_exact = without-All P k s.persistent_exact e.persistent_exact;
    ephemeral_wildcard = e.ephemeral_wildcard;
    persistent_wildcard = e.persistent_wildcard;
  }

  without_ephemeral :
      (k : Text) → Every P (record s { ephemeral_exact = HashMap.without k s.ephemeral_exact })
  without_ephemeral k = record {
    ephemeral_exact = without-All P k s.ephemeral_exact e.ephemeral_exact;
    persistent_exact = e.persistent_exact;
    ephemeral_wildcard = e.ephemeral_wildcard;
    persistent_wildcard = e.persistent_wildcard;
  }

  remove-Every : (k : Text) → Every P (remove s k).1
  unfolding remove HashMap.remove
  remove-Every k = elim (take_wildcard_cases k s.persistent_wildcard) [
    | inl (missing, _) ↦ rw (missing, remove) (without_persistent k)
    | inr (i, a, rest, taken, cut, _) ↦
        rw (taken, remove)
          (record {
            ephemeral_exact = e.ephemeral_exact;
            persistent_exact = (without_persistent k).persistent_exact;
            ephemeral_wildcard = e.ephemeral_wildcard;
            persistent_wildcard =
                All-swap_remove P s.persistent_wildcard i {a = a} e.persistent_wildcard cut;
          })
  ]

  remove_ephemeral-Every : (k : Text) → Every P (remove_ephemeral s k).1
  unfolding remove_ephemeral HashMap.remove
  remove_ephemeral-Every k = elim (take_wildcard_cases k s.ephemeral_wildcard) [
    | inl (missing, _) ↦ rw (missing, remove_ephemeral) (without_ephemeral k)
    | inr (i, a, rest, taken, cut, _) ↦
        rw (taken, remove_ephemeral)
          (record {
            ephemeral_exact = (without_ephemeral k).ephemeral_exact;
            persistent_exact = e.persistent_exact;
            ephemeral_wildcard =
                All-swap_remove P s.ephemeral_wildcard i {a = a} e.ephemeral_wildcard cut;
            persistent_wildcard = e.persistent_wildcard;
          })
  ]

module _ (P : DnsRule → Type 0) where
  add_all-Every :
      (rs : List DnsRule) {s : InnerRuleStore} → Every P s → All P rs → Every P (add_all s rs)
  unfolding add_all
  add_all-Every [] e _ = e
  add_all-Every (r ∷ rs) e (h, k) = add_all-Every rs (add-Every P e r h) k

  -- An update keeps a property of all rules that the rules have which it brings in.
  pub update-Every :
      (u : Update) {s : InnerRuleStore} → Every P s → Brings P u → Every P (update s u)
  unfolding update
  update-Every (adding r) e h = add-Every P e r h
  update-Every (adding_ephemeral r) e h = add_ephemeral-Every P e r h
  update-Every (loading rs) e h = add_all-Every rs e h
  update-Every (removing k) e _ = remove-Every P e k
  update-Every (removing_ephemeral k) e _ = remove_ephemeral-Every P e k

  -- What `resolve` returns is one of the rules.
  pub resolve-Every :
      {s : InnerRuleStore} (d : Text) (r : DnsRule) → Every P s → resolve s d ≡ some r → P r
  unfolding resolve find_wildcard
  resolve-Every {s} d r e h = elim (Option-cases (HashMap.get d s.ephemeral_exact)) [
    | inr (a, found) ↦ get-All P d s.ephemeral_exact r e.ephemeral_exact (ground arith)
    | inl miss ↦ elim (Option-cases (find (λ q. matches q d) s.ephemeral_wildcard)) [
      | inr (a, found) ↦
          All-find P (λ q. matches q d) s.ephemeral_wildcard r e.ephemeral_wildcard (ground arith)
      | inl miss₂ ↦ elim (Option-cases (HashMap.get d s.persistent_exact)) [
        | inr (a, found) ↦ get-All P d s.persistent_exact r e.persistent_exact (ground arith)
        | inl miss₃ ↦
            All-find P (λ q. matches q d) s.persistent_wildcard r e.persistent_wildcard
              (ground arith)
      ]
    ]
  ]
