-- ===== src/Workflow/Assignments/Laws.antt =====
-- Who works on a task and who reviews it (parseTaskAssignments of src/phases/tasks.ts).
use agentic_mcp_teaming.Common.{
  ℕ, zero, suc, ◌+◌, ◌-◌, ◌%◌, ◌<◌, String, ◌≡◌, ◌≢◌, refl, subst, inl, inr, true, none, some, List,
  [], ◌∷◌, arith, length, get_elem?, str_eq, eq_iff, contains, all, Bool-cases, Option-cases, leb,
}
use agentic_mcp_teaming.Session.{TaskAssignment}
use agentic_mcp_teaming.Text.{lines}
use agentic_mcp_teaming.Workflow.Assignments.{
  TaskLine, task_lines, around, find_reviewer, Assigned, done, no_reviewer, no_implementer,
  cons_assigned, assign, parse_task_assignments,
}

contains-get_elem? :
    (xs : List String) (i : ℕ) (x : String) → get_elem? xs i ≡ some x → contains xs x ≡ true
unfolding contains
contains-get_elem? [] i x h = cc
contains-get_elem? (y ∷ ys) zero x h = ground (arith, eq_iff y x)
contains-get_elem? (y ∷ ys) (suc i) x h = ground (arith, contains-get_elem? ys i x)

get_elem?_total :
    (xs : List String) (i : ℕ) → i < length xs → (x : String) × (get_elem? xs i ≡ some x)
get_elem?_total [] i h = absurd (omega arith)
get_elem?_total (x ∷ xs) zero h = (x, refl)
get_elem?_total (x ∷ xs) (suc i) h = get_elem?_total xs i (omega arith)

mod_lt : (i n : ℕ) → 0 < n → i % n < n
mod_lt i n h = grind arith

contains-around :
    (xs : List String) (i : ℕ) (x : String) → around xs i ≡ some x → contains xs x ≡ true
unfolding around
contains-around [] i x h = cc
contains-around (y ∷ ys) i x h = contains-get_elem? (y ∷ ys) (i % length (y ∷ ys)) x h

-- The turn at which a place comes up, counted from `i`.
turn : (n i j : ℕ) → j < n → (k : ℕ) × (k < n) × ((i + k) % n ≡ j)
turn n i j h = elim (Bool-cases (leb (i % n) j)) [
  | inl e ↦ (j - i % n, grind arith, grind arith)
  | inr e ↦ (j + n - i % n, grind arith, grind arith)
]

around_total : (xs : List String) (i : ℕ) → 0 < length xs → (x : String) × (around xs i ≡ some x)
unfolding around
around_total [] i h = absurd (omega arith)
around_total (y ∷ ys) i h =
    get_elem?_total (y ∷ ys) (i % length (y ∷ ys)) (mod_lt i (length (y ∷ ys)) (omega arith))

find_reviewer-some :
    (n i : ℕ) (rs : List String) (p r : String)
    → find_reviewer n i rs p ≡ some r
    → (contains rs r ≡ true) × (r ≢ p)
unfolding find_reviewer
find_reviewer-some zero i rs p r h = absurd (ground (arith, h))
find_reviewer-some (suc n) i rs p r h = elim (Option-cases (around rs i)) [
  | inl e ↦ find_reviewer-some n (i + 1) rs p r (absurd (ground (arith, e, h)))
  | inr (x, e) ↦ elim (Bool-cases (str_eq x p)) [
    | inl same ↦ find_reviewer-some n (i + 1) rs p r (ground (arith, e, same, h))
    | inr other ↦ (
      ground (arith, contains-around rs i x e, e, other, h),
      λ q. ground (arith, e, other, h, q, eq_iff x p),
    )
  ]
]

-- A search that goes on has met the primary agent.
find_reviewer-next :
    (n i : ℕ) (rs : List String) (p : String)
    → 0 < length rs
    → find_reviewer (suc n) i rs p ≡ none
    → (around rs i ≡ some p) × (find_reviewer n (i + 1) rs p ≡ none)
unfolding find_reviewer
find_reviewer-next n i rs p pos h =
    let (x, e) = around_total rs i pos in
    elim (Bool-cases (str_eq x p)) [
      | inr other ↦ absurd (ground (arith, e, other, h))
      | inl same ↦ (ground (arith, e, eq_iff x p, same), ground (arith, e, same, h))
    ]

find_reviewer-none :
    (n i k : ℕ) (rs : List String) (p : String)
    → 0 < length rs
    → find_reviewer n i rs p ≡ none
    → k < n
    → around rs (i + k) ≡ some p
find_reviewer-none zero i k rs p pos h lt = absurd (omega arith)
find_reviewer-none (suc n) i zero rs p pos h lt =
    let shift : i + 0 ≡ i = omega arith in rw shift (find_reviewer-next n i rs p pos h).0
find_reviewer-none (suc n) i (suc k) rs p pos h lt =
    let shift : i + suc k ≡ i + 1 + k = omega arith in
    rw shift
      (find_reviewer-none n (i + 1) k rs p pos (find_reviewer-next n i rs p pos h).1 (omega arith))

all-get_elem? :
    (rs : List String) (p : String)
    → ((j : ℕ) → j < length rs → get_elem? rs j ≡ some p)
    → all (λ r. str_eq r p) rs ≡ true
unfolding all
all-get_elem? [] p h = refl
all-get_elem? (r ∷ rs) p h =
    ground
      (arith, h 0 (omega arith), eq_iff r p, all-get_elem? rs p (λ j lt. h (suc j) (omega arith)))

-- So nobody but the primary agent reviews.
find_reviewer-nobody :
    (i : ℕ) (rs : List String) (p : String)
    → find_reviewer (length rs) i rs p ≡ none
    → all (λ r. str_eq r p) rs ≡ true
unfolding around all
find_reviewer-nobody i [] p h = refl
find_reviewer-nobody i (r ∷ rs) p h = all-get_elem? (r ∷ rs) p λ j lt.
    let (k, below, e) = turn (length (r ∷ rs)) i j lt in
    subst (λ (t : ℕ). get_elem? (r ∷ rs) t ≡ some p) e
      (find_reviewer-none (length (r ∷ rs)) i k (r ∷ rs) p (omega arith) h below)

module _ (implementers reviewers : List String) where
  -- The tasks keep their order, ids and descriptions; the implementers take turns; each task has a
  -- reviewer, who is not its primary agent.
  abbrev pub AreAssigned : ℕ → List TaskLine → List TaskAssignment → Type 0
  AreAssigned i [] [] = Unit
  AreAssigned i [] (t ∷ ts) = ⊥
  AreAssigned i (l ∷ ls) [] = ⊥
  AreAssigned i (l ∷ ls) (t ∷ ts) =
      (t.task_id ≡ l.task_id)
      × (t.description ≡ l.description)
      × (around implementers i ≡ some t.primary_agent)
      × (contains reviewers t.reviewing_agent ≡ true)
      × (t.reviewing_agent ≢ t.primary_agent)
      × AreAssigned (i + 1) ls ts

  -- What a result says.
  abbrev pub Settles : ℕ → List TaskLine → Assigned → Type 0
  Settles i ls (done ts) = AreAssigned i ls ts
  Settles i ls (no_reviewer p) =
      (contains implementers p ≡ true) × (all (λ r. str_eq r p) reviewers ≡ true)
  Settles i ls no_implementer = implementers ≡ []

  cons_assigned-Settles :
      (i : ℕ) (l : TaskLine) (ls : List TaskLine) (t : TaskAssignment) (rest : Assigned)
      → (t.task_id ≡ l.task_id)
        × (t.description ≡ l.description)
        × (around implementers i ≡ some t.primary_agent)
        × (contains reviewers t.reviewing_agent ≡ true)
        × (t.reviewing_agent ≢ t.primary_agent)
      → Settles (i + 1) ls rest
      → Settles i (l ∷ ls) (cons_assigned t rest)
  cons_assigned-Settles i l ls t (done ts) h good = (h.0, h.1, h.2, h.3, h.4, good)
  cons_assigned-Settles i l ls t (no_reviewer p) h good = good
  cons_assigned-Settles i l ls t no_implementer h good = good

  around-none : (xs : List String) (i : ℕ) → around xs i ≡ none → xs ≡ []
  around-none [] i h = refl
  around-none (x ∷ xs) i h =
      let (y, e) = around_total (x ∷ xs) i (omega arith) in absurd (ground (arith, e, h))

  assign-Settles : (i : ℕ) (ls : List TaskLine) → Settles i ls (assign implementers reviewers i ls)
  unfolding assign
  assign-Settles i [] = tt
  assign-Settles i (l ∷ ls) = elim (Option-cases (around implementers i)) [
    | inl e ↦ rw e (around-none implementers i e)
    | inr (p, e) ↦ rw e (elim (Option-cases (find_reviewer (length reviewers) i reviewers p)) [
      | inl nobody ↦
          rw nobody (contains-around implementers i p e, find_reviewer-nobody i reviewers p nobody)
      | inr (r, found) ↦ rw found (
          cons_assigned-Settles i l ls _ _
            (
              refl,
              refl,
              e,
              (find_reviewer-some (length reviewers) i reviewers p r found).0,
              (find_reviewer-some (length reviewers) i reviewers p r found).1,
            )
            (assign-Settles (i + 1) ls))
    ])
  ]

-- Every task line of the file gets its turn's implementer and a reviewer that is another agent; if
-- some task gets no reviewer, its implementer is one of the list and no other agent reviews.
pub parse_task_assignments-Settles :
    (content : String) (implementers reviewers : List String)
    → Settles implementers reviewers 0
        (task_lines (lines content))
        (parse_task_assignments content implementers reviewers)
unfolding parse_task_assignments
parse_task_assignments-Settles content implementers reviewers =
    assign-Settles implementers reviewers 0 (task_lines (lines content))
