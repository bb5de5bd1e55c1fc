-- ===== src/SessionRegistry/Drain/Sorted.antt =====
-- The order in which `drainUnread` (src/core/session-registry.ts) visits the unread messages.
use mathlib.Core.List.{Perm}
use mathlib.Core.List.Perm
use agentic_mcp_teaming.Common.{
  ℕ, String, ◌≡◌, refl, inl, inr, true, false, ◌||◌, Option, some, List, [], ◌∷◌, map, arith, All,
  Bool-cases, contains, str_eq,
}
use agentic_mcp_teaming.Platform.{Platform}
use agentic_mcp_teaming.SessionRegistry.Drain.{Candidate, later, comes_after, insert, sort}

abbrev pub time_of : Platform → Candidate → Option ℕ
time_of p c = p.date_parse c.msg.timestamp

abbrev pub ids_of : List Candidate → List String
ids_of = map (λ c. c.id)

-- Every timestamp parses.
abbrev pub Parses : Platform → List Candidate → Type 0
Parses p = All (λ c. (t : ℕ) × (time_of p c ≡ some t))

-- No candidate comes after a later one of the list.
abbrev pub IsSorted : Platform → List Candidate → Type 0
IsSorted p [] = Unit
IsSorted p (c ∷ cs) = All (λ d. comes_after p c d ≡ false) cs × IsSorted p cs

later_trans :
    (x y z i j k : ℕ)
    → later (some x) i (some y) j ≡ false
    → later (some y) j (some z) k ≡ false
    → later (some x) i (some z) k ≡ false
later_trans x y z i j k h h' = ground arith

later_asym :
    (x y i j : ℕ) → later (some x) i (some y) j ≡ true → later (some y) j (some x) i ≡ false
later_asym x y i j h = ground arith

module _ (p : Platform) where
  comes_after_trans :
      (a b c : Candidate) (x y z : ℕ)
      → time_of p a ≡ some x
      → time_of p b ≡ some y
      → time_of p c ≡ some z
      → comes_after p a b ≡ false
      → comes_after p b c ≡ false
      → comes_after p a c ≡ false
  comes_after_trans a b c x y z ea eb ec h h' =
      rw (ea, ec) (later_trans x y z a.idx b.idx c.idx (rw (ea, eb) at h) (rw (eb, ec) at h'))

  comes_after_asym :
      (a b : Candidate) (x y : ℕ)
      → time_of p a ≡ some x
      → time_of p b ≡ some y
      → comes_after p a b ≡ true
      → comes_after p b a ≡ false
  comes_after_asym a b x y ea eb h = rw (ea, eb) (later_asym x y a.idx b.idx (rw (ea, eb) at h))

  below_trans :
      (a b : Candidate) (cs : List Candidate) (x y : ℕ)
      → time_of p a ≡ some x
      → time_of p b ≡ some y
      → Parses p cs
      → comes_after p a b ≡ false
      → All (λ d. comes_after p b d ≡ false) cs
      → All (λ d. comes_after p a d ≡ false) cs
  below_trans a b [] x y ea eb ps h hs = tt
  below_trans a b (c ∷ cs) x y ea eb ps h hs = (
    comes_after_trans a b c x y ps.0.0 ea eb ps.0.1 h hs.0,
    below_trans a b cs x y ea eb ps.1 h hs.1,
  )

  insert-All {ℓ} :
      (P : Candidate → Type ℓ) (c : Candidate) (cs : List Candidate)
      → P c
      → All P cs
      → All P (insert p c cs)
  unfolding insert
  insert-All P c [] pc ps = (pc, tt)
  insert-All P c (x ∷ xs) pc ps = elim (Bool-cases (comes_after p c x)) [
    | inl after ↦ rw (after, insert) (ps.0, insert-All P c xs pc ps.1)
    | inr before ↦ rw (before, insert) (pc, ps)
  ]

  pub sort-All {ℓ} : (P : Candidate → Type ℓ) (cs : List Candidate) → All P cs → All P (sort p cs)
  unfolding sort
  sort-All P [] ps = tt
  sort-All P (c ∷ cs) ps = insert-All P c (sort p cs) ps.0 (sort-All P cs ps.1)

  insert-IsSorted :
      (c : Candidate) (cs : List Candidate) (x : ℕ)
      → time_of p c ≡ some x
      → Parses p cs
      → IsSorted p cs
      → IsSorted p (insert p c cs)
  unfolding insert
  insert-IsSorted c [] x e ps s = (tt, tt)
  insert-IsSorted c (d ∷ ds) x e ps s = elim (Bool-cases (comes_after p c d)) [
    | inl after ↦
        rw (after, insert)
          (
            insert-All _ c ds (comes_after_asym c d x ps.0.0 e ps.0.1 after) s.0,
            insert-IsSorted c ds x e ps.1 s.1,
          )
    | inr before ↦
        rw (before, insert) ((before, below_trans c d ds x ps.0.0 e ps.0.1 ps.1 before s.0), s)
  ]

  -- If every timestamp parses, the candidates are visited by rising timestamp, and those of one
  -- timestamp in the order in which they were appended.
  pub sort-IsSorted : (cs : List Candidate) → Parses p cs → IsSorted p (sort p cs)
  unfolding sort
  sort-IsSorted [] ps = tt
  sort-IsSorted (c ∷ cs) ps =
      insert-IsSorted c (sort p cs) ps.0.0 ps.0.1 (sort-All _ cs ps.1) (sort-IsSorted cs ps.1)

  insert-perm : (c : Candidate) (cs : List Candidate) → Perm (insert p c cs) (c ∷ cs)
  unfolding insert
  insert-perm c [] = Perm.refl _
  insert-perm c (d ∷ ds) = elim (Bool-cases (comes_after p c d)) [
    | inl after ↦
        rw (after, insert) (Perm.trans (Perm.cons d (insert-perm c ds)) (Perm.swap c d ds))
    | inr before ↦ rw (before, insert) (Perm.refl _)
  ]

  pub sort-perm : (cs : List Candidate) → Perm (sort p cs) cs
  unfolding sort
  sort-perm [] = Perm.refl _
  sort-perm (c ∷ cs) = Perm.trans (insert-perm c (sort p cs)) (Perm.cons c (sort-perm cs))

  contains-insert :
      (c : Candidate) (cs : List Candidate) (s : String)
      → contains (ids_of (insert p c cs)) s ≡ (str_eq c.id s || contains (ids_of cs) s)
  unfolding insert contains
  contains-insert c [] s = refl
  contains-insert c (d ∷ ds) s = ground (arith, contains-insert c ds s)

  pub contains-sort :
      (cs : List Candidate) (s : String) → contains (ids_of (sort p cs)) s ≡ contains (ids_of cs) s
  unfolding sort contains
  contains-sort [] s = refl
  contains-sort (c ∷ cs) s = rw (contains-insert c (sort p cs) s, contains-sort cs s)
