-- ===== src/Processes/Descent.antt =====
-- The walk sees exactly the descendants.
use sidedns.Prelude.{
  ℕ, zero, suc, ◌≡◌, ◌↔◌, inl, inr, refl, ap, Bool, true, ◌&&◌, ◌||◌, some, List, [], ◌∷◌, map,
  retain, arith, nat_eq, length, any, Bool-cases, Option-cases,
}
use mathlib.Core.Path.{subst}
use sidedns.Processes.{
  System, contains, insert, is_new_child, walk, target_pids, Listener, detect_network_processes,
}
use sidedns.Processes.Stack.{HasNoRepeats, contains-insert, contains-push_children}
use sidedns.Processes.Walk.{seen_after, stack_after, target_pids_total}

-- A process is reached from the root by parenthood, through processes of the table.
pub data Descends (system : System) (root : ℕ) : ℕ → Type 0 where
  itself : Descends system root root
  child :
      {p q : ℕ}
      → Descends system root q
      → system.parent p ≡ some q
      → contains p system.pids ≡ true
      → Descends system root p

module _ (system : System) (root : ℕ) where
  -- Between rounds: what is held descends from the root, and the children of what was seen are
  -- held.
  record IsPartial (targets stack : List ℕ) : Type 0 where
    started : (contains root stack || contains root targets) ≡ true
    sound : (p : ℕ) → (contains p stack || contains p targets) ≡ true → Descends system root p
    closed :
        (p q : ℕ)
        → system.parent p ≡ some q
        → contains p system.pids ≡ true
        → contains q targets ≡ true
        → (contains p stack || contains p targets) ≡ true

  module _ (targets : List ℕ) (current : ℕ) (rest : List ℕ)
      (f : IsPartial targets (current ∷ rest)) where
    sound_after :
        (p : ℕ)
        → (contains p (stack_after system root targets current rest)
            || contains p (seen_after system root targets current))
          ≡ true
        → Descends system root p
    unfolding contains any is_new_child
    sound_after p held =
        let pushing =
          contains-push_children system current (insert current targets) p system.pids rest in
        let seeing = contains-insert p current targets in
        elim (Bool-cases (contains p (current ∷ rest) || contains p targets)) [
          | inl old ↦ f.sound p old
          | inr new ↦ elim (Option-cases (system.parent p)) [
            | inl orphan ↦ ground (arith, pushing, seeing)
            | inr (q, parented) ↦
                child (f.sound current (ground arith)) (ground (arith, pushing, seeing))
                  (ground (arith, pushing, seeing))
          ]
        ]

    closed_after :
        (p q : ℕ)
        → system.parent p ≡ some q
        → contains p system.pids ≡ true
        → contains q (seen_after system root targets current) ≡ true
        → (contains p (stack_after system root targets current rest)
            || contains p (seen_after system root targets current))
          ≡ true
    unfolding contains any is_new_child
    closed_after p q parented listed seen =
        let pushing =
          contains-push_children system current (insert current targets) p system.pids rest in
        let seeing = contains-insert p current targets in
        let seeing_parent = contains-insert q current targets in
        elim (Bool-cases (contains q targets)) [
          | inl old ↦ ground (arith, pushing, seeing, f.closed p q parented listed old)
          | inr new ↦ ground (arith, pushing, seeing, seeing_parent)
        ]

    round-IsPartial :
        IsPartial
          (seen_after system root targets current)
          (stack_after system root targets current rest)
    unfolding contains any
    round-IsPartial = record {
      started = ground (
        arith,
        f.started,
        contains-push_children system current (insert current targets) root system.pids rest,
        contains-insert root current targets,
      );
      sound = sound_after;
      closed = closed_after;
    }

  walk-IsPartial :
      (fuel : ℕ) (targets stack found : List ℕ)
      → IsPartial targets stack
      → walk system fuel targets stack ≡ some found
      → IsPartial found []
  unfolding walk
  walk-IsPartial fuel targets [] found f h = subst (λ t. IsPartial t []) (ground arith) f
  walk-IsPartial zero targets (current ∷ stack) found f h = cc
  walk-IsPartial (suc fuel) targets (current ∷ stack) found f h =
      walk-IsPartial fuel _ _ found (round-IsPartial targets current stack f) h

  start-IsPartial : IsPartial [] (root ∷ [])
  unfolding contains any
  start-IsPartial = record {
    started = ground arith;
    sound = λ p held. subst (Descends system root) (ground arith) itself;
    closed = λ p q parented listed seen. ground arith;
  }

  complete :
      (found : List ℕ)
      → IsPartial found []
      → (p : ℕ) → Descends system root p
      → contains p found ≡ true
  unfolding contains any
  complete found f _ itself = f.started
  complete found f _ (child {p} {q} d parented listed) =
      f.closed p q parented listed (complete found f q d)

  -- When the walk ends, the set holds exactly the process and its descendants.
  pub target_pids_correct :
      (found : List ℕ)
      → target_pids system root ≡ some found
      → (p : ℕ) → (contains p found ≡ true) ↔ Descends system root p
  unfolding target_pids contains any
  target_pids_correct found h p =
      let f = walk-IsPartial (suc (length system.pids)) [] (root ∷ []) found start-IsPartial h in
      (λ held. f.sound p held, complete found f p)

retain_same :
    (f g : Listener → Bool) (ls : List Listener)
    → ((l : Listener) → (f l ≡ true) ↔ (g l ≡ true))
    → retain f ls ≡ retain g ls
unfolding retain
retain_same f g [] same = refl
retain_same f g (l ∷ ls) same = ground (arith, same l, retain_same f g ls same)

-- If the table lists no pid twice, what is detected are exactly the TCP sockets, in their order, on
-- which the process or a descendant listens, however that is decided.
pub detect_network_processes_lem :
    (system : System) (root : ℕ) (listeners : List Listener) (decides : Listener → Bool)
    → HasNoRepeats system.pids
    → ((l : Listener) → (decides l ≡ true) ↔ (Descends system root l.pid × (l.is_tcp ≡ true)))
    → detect_network_processes system (some listeners) root
      ≡ some (map (λ l. (l.name, l.socket)) (retain decides listeners))
unfolding detect_network_processes
detect_network_processes_lem system root listeners decides distinct decision =
    let (found, ends) = target_pids_total system root distinct in
    let exact = target_pids_correct system root found ends in
    rw (ends, detect_network_processes)
      (ap (λ ls. some (map (λ l. (l.name, l.socket)) ls))
        (retain_same (λ l. contains l.pid found && l.is_tcp) decides listeners
          (λ l. ground (arith, exact l.pid, decision l))))
