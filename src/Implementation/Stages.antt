-- ===== src/Implementation/Stages.antt =====
-- The stages of the way to a merge, and the events that carry a task from one to the next
-- (src/phases/implementation.ts).
use agentic_mcp_teaming.Common.{String, ◌≡◌, refl, true, false, Option, none, some, ◌∷◌, arith}
use agentic_mcp_teaming.Machine.{Event, Trace}
use agentic_mcp_teaming.Implementation.{Job}
use agentic_mcp_teaming.Implementation.Clearance.{
  changes, accepts, session_head, candidate_head, is_merge, accepted, last_head, candidate,
  verifies, cleared, verified_at, IsSafe,
}

module _ (j : Job) where
  -- The stages of a task's way to its merge.
  pub record Reviewed (t : Trace) : Type 0 where
    pub safe : IsSafe j t
    pub ok : accepted j t ≡ true

  pub record AtHead (h : String) (t : Trace) : Type 0 where
    pub reviewed : Reviewed t
    pub head : last_head j t ≡ some h

  pub record WithCandidate (h c : String) (t : Trace) : Type 0 where
    pub at_head : AtHead h t
    pub commit : candidate j t ≡ some c

  pub record Verified (h : String) (t : Trace) : Type 0 where
    pub safe : IsSafe j t
    pub cleared : cleared j t ≡ true
    pub head : last_head j t ≡ some h
    pub at : verified_at j t ≡ some h

  -- An event that takes no task further or back.
  pub record IsNeutral (e : Event) : Type 0 where
    pub change : changes j e ≡ false
    pub merge : is_merge j e ≡ false
    pub session : session_head j e ≡ none
    pub head : candidate_head j e ≡ none
    pub verify : (h : Option String) → verifies j e h ≡ false

  pub IsSafe-∷ : (e : Event) (t : Trace) → is_merge j e ≡ false → IsSafe j t → IsSafe j (e ∷ t)
  IsSafe-∷ e t m s = (λ h. cc, s)

  pub Reviewed-∷ : (e : Event) (t : Trace) → IsNeutral e → Reviewed t → Reviewed (e ∷ t)
  unfolding accepted
  Reviewed-∷ e t n r = record {
    safe = IsSafe-∷ e t n.merge r.safe;
    ok = ground (arith, n.change, r.ok);
  }

  pub AtHead-∷ :
      (e : Event) (head : String) (t : Trace) → IsNeutral e → AtHead head t → AtHead head (e ∷ t)
  unfolding last_head
  AtHead-∷ e h t n r = record { reviewed = Reviewed-∷ e t n r.reviewed; head = rw n.session r.head }

  pub WithCandidate-∷ :
      (e : Event) (head commit : String) (t : Trace)
      → IsNeutral e
      → WithCandidate head commit t
      → WithCandidate head commit (e ∷ t)
  unfolding candidate
  WithCandidate-∷ e h c t n r = record {
    at_head = AtHead-∷ e h t n r.at_head;
    commit = rw (n.change, n.head) r.commit;
  }

  pub Verified-∷ :
      (e : Event) (head : String) (t : Trace)
      → IsNeutral e
      → Verified head t
      → Verified head (e ∷ t)
  unfolding cleared last_head verified_at
  Verified-∷ e h t n r = record {
    safe = IsSafe-∷ e t n.merge r.safe;
    cleared = ground (arith, n.change, r.cleared, n.verify (candidate j t));
    head = rw n.session r.head;
    at = rw (n.verify (candidate j t)) r.at;
  }

  -- A stage implies safety, and stays under neutral events.
  pub record Stage (P : Trace → Type 0) : Type 0 where
    pub safe : (t : Trace) → P t → IsSafe j t
    pub neutral : (e : Event) (t : Trace) → IsNeutral e → P t → P (e ∷ t)

  pub IsSafe-Stage : Stage (IsSafe j)
  IsSafe-Stage = record { safe = λ t s. s; neutral = λ e t n s. IsSafe-∷ e t n.merge s }

  pub Reviewed-Stage : Stage Reviewed
  Reviewed-Stage = record { safe = λ t r. r.safe; neutral = Reviewed-∷ }

  pub AtHead-Stage : (h : String) → Stage (AtHead h)
  AtHead-Stage h = record { safe = λ t r. r.reviewed.safe; neutral = λ e t. AtHead-∷ e h t }

  pub WithCandidate-Stage : (h c : String) → Stage (WithCandidate h c)
  WithCandidate-Stage h c = record {
    safe = λ t r. r.at_head.reviewed.safe;
    neutral = λ e t. WithCandidate-∷ e h c t;
  }

  pub Verified-Stage : (h : String) → Stage (Verified h)
  Verified-Stage h = record { safe = λ t r. r.safe; neutral = λ e t. Verified-∷ e h t }

  -- The events that carry a task on.
  pub Reviewed-accept :
      (e : Event) (t : Trace)
      → changes j e ≡ false
      → is_merge j e ≡ false
      → accepts j e ≡ true
      → IsSafe j t
      → Reviewed (e ∷ t)
  unfolding accepted
  Reviewed-accept e t c m a s = record { safe = IsSafe-∷ e t m s; ok = ground (arith, c, a) }

  pub AtHead-read :
      (e : Event) (h : String) (t : Trace)
      → changes j e ≡ false
      → is_merge j e ≡ false
      → session_head j e ≡ some h
      → Reviewed t
      → AtHead h (e ∷ t)
  unfolding accepted last_head
  AtHead-read e h t c m r v = record {
    reviewed = record { safe = IsSafe-∷ e t m v.safe; ok = ground (arith, c, v.ok) };
    head = rw r refl;
  }

  pub WithCandidate-read :
      (e : Event) (h c : String) (t : Trace)
      → changes j e ≡ false
      → is_merge j e ≡ false
      → session_head j e ≡ none
      → candidate_head j e ≡ some c
      → AtHead h t
      → WithCandidate h c (e ∷ t)
  unfolding accepted last_head candidate
  WithCandidate-read e h c t ch m n r v = record {
    at_head = record {
      reviewed = record {
        safe = IsSafe-∷ e t m v.reviewed.safe;
        ok = ground (arith, ch, v.reviewed.ok);
      };
      head = rw n v.head;
    };
    commit = rw (ch, r) refl;
  }

  pub Verified-gate :
      (e : Event) (h c : String) (t : Trace)
      → changes j e ≡ false
      → is_merge j e ≡ false
      → session_head j e ≡ none
      → verifies j e (some c) ≡ true
      → WithCandidate h c t
      → Verified h (e ∷ t)
  unfolding accepted last_head candidate cleared verified_at
  Verified-gate e h c t ch m n v w = record {
    safe = IsSafe-∷ e t m w.at_head.reviewed.safe;
    cleared = rw w.commit (ground (arith, ch, v, w.at_head.reviewed.ok));
    head = rw n w.at_head.head;
    at = rw (w.commit, v) w.at_head.head;
  }

  -- The head that is read again is the verified one.
  pub Verified-read :
      (e : Event) (h : String) (t : Trace)
      → changes j e ≡ false
      → is_merge j e ≡ false
      → ((head : Option String) → verifies j e head ≡ false)
      → session_head j e ≡ some h
      → Verified h t
      → Verified h (e ∷ t)
  unfolding last_head cleared verified_at
  Verified-read e h t ch m n r v = record {
    safe = IsSafe-∷ e t m v.safe;
    cleared = ground (arith, ch, v.cleared, n (candidate j t));
    head = rw r refl;
    at = rw (n (candidate j t)) v.at;
  }

  -- A merge at this stage was cleared.
  pub IsSafe-merge : (e : Event) (h : String) (t : Trace) → Verified h t → IsSafe j (e ∷ t)
  IsSafe-merge e h t v = (λ m. (v.cleared, (h, v.head, v.at)), v.safe)
