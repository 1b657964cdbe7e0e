-- ===== src/Processes/Walk.antt =====
-- The search for descendants ends: no process is pushed twice.
use sidedns.Prelude.{
  ℕ, zero, suc, ◌+◌, ◌≤◌, ◌≡◌, ◌⊎◌, inl, inr, refl, Bool, true, false, not, ◌&&◌, none, some, List,
  [], ◌∷◌, arith, nat_eq, length, any, Bool-cases, Option-cases,
}
use sidedns.Processes.{System, contains, insert, is_new_child, push_children, walk, target_pids}
use sidedns.Processes.Stack.{
  HasNoRepeats, contains-insert, count, count_split, count-le-length, contains-push_children,
  length-push_children, push_children-HasNoRepeats,
}

module _ (system : System) (root : ℕ) where
  abbrev parent_in : List ℕ → ℕ → Bool
  parent_in targets p = elim (system.parent p) [ none ↦ false | some q ↦ contains q targets ]

  -- Between rounds: the stack repeats no pid and holds none that was seen, and what it holds was
  -- pushed with its parent, but for the root before the first round.
  pub record IsFresh (targets stack : List ℕ) : Type 0 where
    pub apart : HasNoRepeats stack
    pub unseen : (p : ℕ) → contains p stack ≡ true → contains p targets ≡ false
    pub pushed :
        (p : ℕ) → contains p stack ≡ true → (parent_in targets p ≡ true) ⊎ (stack ≡ root ∷ [])

  -- What is left to do: the processes not yet met, and those on the stack.
  abbrev pub unmet : List ℕ → List ℕ → ℕ → Bool
  unmet targets stack p = not (contains p stack) && not (contains p targets)

  abbrev pub work : List ℕ → List ℕ → ℕ
  work targets stack = count (unmet targets stack) system.pids + length stack

  -- One round of the walk: the pids seen after it, and the stack.
  abbrev pub seen_after : List ℕ → ℕ → List ℕ
  seen_after targets current = insert current targets

  abbrev pub stack_after : List ℕ → ℕ → List ℕ → List ℕ
  stack_after targets current rest =
      push_children system current (seen_after targets current) system.pids rest

  module _ (targets : List ℕ) (current : ℕ) (rest : List ℕ)
      (f : IsFresh targets (current ∷ rest)) where
    child_is_new :
        (p : ℕ)
        → is_new_child system current (seen_after targets current) p ≡ true
        → contains p rest ≡ false
    unfolding is_new_child contains any
    child_is_new p child = elim (Bool-cases (contains p rest)) [
      | inr new ↦ new
      | inl old ↦ elim (f.pushed p (ground arith)) [
        | inl by_parent ↦ ground (arith, f.unseen current (ground arith))
        | inr alone ↦ ground arith
      ]
    ]

    unseen_after :
        (p : ℕ)
        → contains p (stack_after targets current rest) ≡ true
        → contains p (seen_after targets current) ≡ false
    unfolding is_new_child contains any
    unseen_after p held =
        let pushing =
          contains-push_children system current (seen_after targets current) p system.pids rest in
        elim (Bool-cases (contains p rest)) [
          | inl old ↦
              ground
                (arith, contains-insert p current targets, f.unseen p (ground arith), f.apart.0)
          | inr new ↦ ground (arith, pushing)
        ]

    pushed_after :
        (p : ℕ)
        → contains p (stack_after targets current rest) ≡ true
        → parent_in (seen_after targets current) p ≡ true
    unfolding is_new_child contains any
    pushed_after p held =
        let pushing =
          contains-push_children system current (seen_after targets current) p system.pids rest in
        elim (Option-cases (system.parent p)) [
          | inl orphan ↦ elim (Bool-cases (contains p rest)) [
            | inl old ↦ elim (f.pushed p (ground arith)) [
              | inl by_parent ↦ ground arith
              | inr alone ↦ ground arith
            ]
            | inr new ↦ ground (arith, pushing)
          ]
          | inr (q, parented) ↦
              let seeing = contains-insert q current targets in
              elim (Bool-cases (contains p rest)) [
                | inl old ↦ elim (f.pushed p (ground arith)) [
                  | inl by_parent ↦ ground (arith, seeing)
                  | inr alone ↦ ground arith
                ]
                | inr new ↦ ground (arith, pushing, seeing)
              ]
        ]

    round-IsFresh :
        HasNoRepeats system.pids
        → IsFresh (seen_after targets current) (stack_after targets current rest)
    round-IsFresh distinct = record {
      apart =
          push_children-HasNoRepeats system current _ system.pids rest distinct
            (λ p _ child. child_is_new p child) (f.apart.1);
      unseen = unseen_after;
      pushed = λ p held. inl (pushed_after p held);
    }

    -- A round takes one process off the stack and pushes only processes that were not met.
    work_falls :
        work (seen_after targets current) (stack_after targets current rest) + 1
        ≤ work targets (current ∷ rest)
    unfolding is_new_child contains any
    work_falls =
        let child = is_new_child system current (seen_after targets current) in
        let pushing = λ (p : ℕ).
          contains-push_children system current (seen_after targets current) p system.pids rest in
        let seeing = λ (p : ℕ). contains-insert p current targets in
        omega (
          arith,
          length-push_children system current (seen_after targets current) system.pids rest,
          count_split (unmet (seen_after targets current) (stack_after targets current rest)) child
              (unmet targets (current ∷ rest)) system.pids
              (λ p inside new. ground (arith, pushing p, seeing p))
              (λ p inside new. ground (arith, child_is_new p new, seeing p)),
        )

module _ (system : System) (root : ℕ) (distinct : HasNoRepeats system.pids) where
  walk_total :
      (fuel : ℕ) (targets stack : List ℕ)
      → IsFresh system root targets stack
      → work system root targets stack ≤ fuel
      → (found : List ℕ) × (walk system fuel targets stack ≡ some found)
  unfolding walk
  walk_total fuel targets [] f h = (targets, refl)
  walk_total zero targets (current ∷ stack) f h = absurd (omega arith)
  walk_total (suc fuel) targets (current ∷ stack) f h =
      walk_total fuel _ _ (round-IsFresh system root targets current stack f distinct)
        (omega (arith, work_falls system root targets current stack f))

  start-IsFresh : IsFresh system root [] (root ∷ [])
  unfolding contains any
  start-IsFresh = record { apart = (refl, tt); unseen = λ p _. refl; pushed = λ p _. inr refl }

  -- The walk from any process ends within a round for each process and one for the root, if the
  -- table lists no pid twice.
  pub target_pids_total : (found : List ℕ) × (target_pids system root ≡ some found)
  unfolding target_pids
  target_pids_total =
      walk_total (suc (length system.pids)) [] (root ∷ []) start-IsFresh
        (omega (arith, count-le-length (unmet system root [] (root ∷ [])) system.pids))
