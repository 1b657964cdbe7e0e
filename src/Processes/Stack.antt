-- ===== src/Processes/Stack.antt =====
-- What a round pushes, and how often a test is passed.
use sidedns.Prelude.{
  ℕ, ◌+◌, ◌≤◌, ◌≡◌, inl, inr, Bool, true, false, ◌&&◌, ◌||◌, List, [], ◌∷◌, arith, ◌==◌, nat_eq,
  length, any, if◌then◌else◌, Bool-cases,
}
use sidedns.Processes.{System, contains, insert, is_new_child, push_children}

-- No pid stands twice.
abbrev pub HasNoRepeats : List ℕ → Type 0
HasNoRepeats [] = Unit
HasNoRepeats (p ∷ ps) = (contains p ps ≡ false) × HasNoRepeats ps

pub contains-insert :
    (p q : ℕ) (set : List ℕ) → contains p (insert q set) ≡ (q == p || contains p set)
unfolding insert contains any
contains-insert p q set = elim (Bool-cases (contains q set)) [
  | inl old ↦ ground arith
  | inr new ↦ ground arith
]

-- How many pids of a list pass a test.
abbrev pub count : (ℕ → Bool) → List ℕ → ℕ
count f [] = 0
count f (p ∷ ps) = if f p then count f ps + 1 else count f ps

-- Two tests that exclude each other and imply a third are passed no more often than that one.
pub count_split :
    (f g u : ℕ → Bool) (ps : List ℕ)
    → ((p : ℕ) → contains p ps ≡ true → f p ≡ true → (u p ≡ true) × (g p ≡ false))
    → ((p : ℕ) → contains p ps ≡ true → g p ≡ true → u p ≡ true)
    → count f ps + count g ps ≤ count u ps
unfolding contains any
count_split f g u [] hf hg = omega arith
count_split f g u (p ∷ ps) hf hg =
    let rest =
      count_split f g u ps (λ q inside. hf q (ground arith)) (λ q inside. hg q (ground arith)) in
    ground (arith, hf p (ground arith), hg p (ground arith), rest)

pub count-le-length : (f : ℕ → Bool) (ps : List ℕ) → count f ps ≤ length ps
count-le-length f [] = omega arith
count-le-length f (p ∷ ps) = ground (arith, count-le-length f ps)

module _ (system : System) (current : ℕ) (targets : List ℕ) where
  pub contains-push_children :
      (p : ℕ) (pids stack : List ℕ)
      → contains p (push_children system current targets pids stack)
        ≡ (contains p stack || (contains p pids && is_new_child system current targets p))
  unfolding push_children contains any
  contains-push_children p [] stack = ground arith
  contains-push_children p (q ∷ pids) stack =
      elim (Bool-cases (is_new_child system current targets q)) [
        | inl child ↦ ground (arith, contains-push_children p pids (q ∷ stack))
        | inr other ↦ ground (arith, contains-push_children p pids stack)
      ]

  pub length-push_children :
      (pids stack : List ℕ)
      → length (push_children system current targets pids stack)
        ≡ length stack + count (is_new_child system current targets) pids
  unfolding push_children
  length-push_children [] stack = omega arith
  length-push_children (q ∷ pids) stack =
      elim (Bool-cases (is_new_child system current targets q)) [
        | inl child ↦ ground (arith, length-push_children pids (q ∷ stack))
        | inr other ↦ ground (arith, length-push_children pids stack)
      ]

  pub push_children-HasNoRepeats :
      (pids stack : List ℕ)
      → HasNoRepeats pids
      → ((p : ℕ)
          → contains p pids ≡ true
          → is_new_child system current targets p ≡ true
          → contains p stack ≡ false)
      → HasNoRepeats stack
      → HasNoRepeats (push_children system current targets pids stack)
  unfolding push_children contains any
  push_children-HasNoRepeats [] stack _ _ h = h
  push_children-HasNoRepeats (q ∷ pids) stack (alone, apart) fresh h =
      elim (Bool-cases (is_new_child system current targets q)) [
        | inl child ↦
            rw (child, push_children)
              (push_children-HasNoRepeats pids (q ∷ stack) apart
                (λ p inside new. ground (arith, fresh p (ground arith) new))
                (fresh q (ground arith) child, h))
        | inr other ↦
            rw (other, push_children)
              (push_children-HasNoRepeats pids stack apart
                (λ p inside new. fresh p (ground arith) new) h)
      ]
