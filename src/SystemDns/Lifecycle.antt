-- ===== src/SystemDns/Lifecycle.antt =====
-- What the system's configuration is while the manager runs and after it ends.
use sidedns.Prelude.{◌≡◌, refl, Bool, true, false, List, [], ◌∷◌, ◌++◌, any, Bool-cases, inl, inr}
use sidedns.Text.{Text}
use sidedns.Message.{DnsEvent}
use sidedns.State.{AppState, snapshot_all_domains}
use sidedns.Broadcast.{event, lagged, closed, Turn, cancelled, received}
use sidedns.SystemDns.{changes_rules, SystemDnsManager, manage, run_system_dns_manager}

-- The turns that end a run.
abbrev pub stops : AppState × Turn → Bool
stops (_, cancelled) = true
stops (_, received closed) = true
stops _ = false

module _ {System : Type 0} (manager : SystemDnsManager System)
    (works : (ds : List Text) (x : System) → (manager.apply ds x).0 ≡ true) where
  module _ (IsClean : System → Type 0) (cleans : (x : System) → IsClean (manager.revert x).1) where
    -- What an ended run leaves.
    abbrev pub Ended : Bool × System → Type 0
    Ended r = (r.0 ≡ true) × IsClean r.1

    manage-Ended :
        (turns : List (AppState × Turn)) (s : AppState) (x : System)
        → Ended (manage manager x (turns ++ (s, cancelled) ∷ []))
    unfolding manage
    manage-Ended [] s x = (refl, cleans x)
    manage-Ended ((_, cancelled) ∷ turns) s x = (refl, cleans x)
    manage-Ended ((_, received closed) ∷ turns) s x = (refl, cleans x)
    manage-Ended ((_, received (lagged n)) ∷ turns) s x = manage-Ended turns s x
    manage-Ended ((t, received (event e)) ∷ turns) s x = elim (Bool-cases (changes_rules e)) [
      | inr kept ↦ rw (kept, manage) (manage-Ended turns s x)
      | inl changed ↦
          rw (changed, works (snapshot_all_domains t) x, manage)
            (manage-Ended turns s (manager.apply (snapshot_all_domains t) x).1)
    ]

    -- If applying always works, a run that is cancelled at last ends without an error, and leaves
    -- the system clean, in whatever way reverting does.
    pub run_system_dns_manager-Ended :
        (start : AppState) (turns : List (AppState × Turn)) (s : AppState) (x : System)
        → Ended (run_system_dns_manager manager start x (turns ++ (s, cancelled) ∷ []))
    unfolding run_system_dns_manager
    run_system_dns_manager-Ended start turns s x =
        rw (works (snapshot_all_domains start) (manager.revert x).1, run_system_dns_manager)
          (manage-Ended turns s _)

  module _ (IsFor : List Text → System → Type 0)
      (applies : (ds : List Text) (x : System) → IsFor ds (manager.apply ds x).1) where
    manage_current :
        (turns : List (AppState × Turn)) (s : AppState) (e : DnsEvent) (x : System)
        → any stops turns ≡ false
        → changes_rules e ≡ true
        → IsFor
            (snapshot_all_domains s)
            (manage manager x (turns ++ (s, received (event e)) ∷ [])).1
    unfolding manage any
    manage_current [] s e x going change =
        rw (change, works (snapshot_all_domains s) x, manage) (applies (snapshot_all_domains s) x)
    manage_current ((_, cancelled) ∷ turns) s e x going change = cc
    manage_current ((_, received closed) ∷ turns) s e x going change = cc
    manage_current ((_, received (lagged n)) ∷ turns) s e x going change =
        manage_current turns s e x going change
    manage_current ((t, received (event d)) ∷ turns) s e x going change =
        elim (Bool-cases (changes_rules d)) [
          | inr kept ↦ rw (kept, manage) (manage_current turns s e x going change)
          | inl changed ↦
              rw (changed, works (snapshot_all_domains t) x, manage)
                (manage_current turns s e (manager.apply (snapshot_all_domains t) x).1 going change)
        ]

    -- If applying always works, then while the run lasts, as soon as a change of the rules is
    -- received the system is configured for the domains of the store as it then stands.
    pub run_system_dns_manager_current :
        (start : AppState) (turns : List (AppState × Turn)) (s : AppState) (e : DnsEvent)
        (x : System)
        → any stops turns ≡ false
        → changes_rules e ≡ true
        → IsFor
            (snapshot_all_domains s)
            (run_system_dns_manager manager start x (turns ++ (s, received (event e)) ∷ [])).1
    unfolding run_system_dns_manager
    run_system_dns_manager_current start turns s e x going change =
        rw (works (snapshot_all_domains start) (manager.revert x).1, run_system_dns_manager)
          (manage_current turns s e _ going change)
