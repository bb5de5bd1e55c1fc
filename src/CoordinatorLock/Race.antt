-- ===== src/CoordinatorLock/Race.antt =====
-- Two processes that start on a stale lock (src/core/coordinator-lock.ts).
use agentic_mcp_teaming.Common.{
  String, ◌≡◌, refl, Bool, true, false, Option, some, arith, str_eq, eq_iff, str_eq_refl,
}
use agentic_mcp_teaming.CoordinatorLock.{
  Activity, create, inspect, remove_stale, recreate, holding, own_content, is_stale, World, next,
  act, IsPid, acts, Reachable, here, after_step,
}

module _ (alive : String → Bool) (p q : String) (other : str_eq p q ≡ false) where
  -- The file and what two processes are about to do.
  record At (w : World) (file : Option String) (a b : Activity) : Type 0 where
    pub at_file : w.file ≡ file
    pub at_p : w.activity p ≡ a
    pub at_q : w.activity q ≡ b

  step_p :
      {w : World} {file file' : Option String} {a a' b : Activity}
      → next alive p file a ≡ (file', a')
      → At w file a b
      → At (act alive p w) file' a' b
  unfolding act
  step_p {w} e v = record {
    at_file = rw (v.at_file, v.at_p, e) refl;
    at_p = rw (str_eq_refl p, v.at_file, v.at_p, e) refl;
    at_q = rw other v.at_q;
  }

  step_q :
      {w : World} {file file' : Option String} {a b b' : Activity}
      → next alive q file b ≡ (file', b')
      → At w file a b
      → At (act alive q w) file' a b'
  unfolding act
  step_q {w} e v =
      let apart : str_eq q p ≡ false = ground (arith, other, eq_iff p q, eq_iff q p) in
      record {
        at_file = rw (v.at_file, v.at_q, e) refl;
        at_p = rw apart v.at_p;
        at_q = rw (str_eq_refl q, v.at_file, v.at_q, e) refl;
      }

-- From a stale file two processes that start at once can both come to hold the lock: each finds the stale
-- lock, the first replaces it, and the second removes the file of the first and replaces it again.
pub stale_lock_shared :
    (alive : String → Bool) (w : World) (stale p q : String)
    → ((r : String) → w.activity r ≡ create)
    → w.file ≡ some stale
    → is_stale alive stale ≡ true
    → IsPid p
    → IsPid q
    → alive p ≡ true
    → alive q ≡ true
    → str_eq p q ≡ false
    → (u : World) × Reachable alive w u × (u.activity p ≡ holding) × (u.activity q ≡ holding)
stale_lock_shared alive w stale p q fresh file dead hp hq lp lq other = (
  act alive q (
      act alive q
        (act alive p (act alive p (act alive q (act alive p (act alive q (act alive p w))))))),
  by q hq lq (
      by q hq lq
        (by p hp lp (by p hp lp (by q hq lq (by p hp lp (by q hq lq (by p hp lp here))))))),
  end.at_p,
  end.at_q,
)
  where
    by :
        (r : String)
        → IsPid r
        → alive r ≡ true
        → {v : World} → Reachable alive w v
        → Reachable alive w (act alive r v)
    by r h l reach = after_step reach (acts r h l)

    end :
        At alive p q other
          (act alive q (
            act alive q (
              act alive p (act alive p (act alive q (act alive p (act alive q (act alive p w))))))))
          (some (own_content q))
          holding
          holding
    end = step_q alive p q other {b = recreate} refl (
        step_q alive p q other {b = remove_stale} refl (
          step_p alive p q other {a = recreate} refl (
            step_p alive p q other {a = remove_stale} refl (
              step_q alive p q other {file = some stale} {file' = some stale} {b = inspect}
                {b' = remove_stale} (rw dead refl)
                (step_p alive p q other {file = some stale} {file' = some stale} {a = inspect}
                  {a' = remove_stale} (rw dead refl)
                  (step_q alive p q other {b = create} refl (
                    step_p alive p q other {a = create} refl
                      (record { at_file = file; at_p = fresh p; at_q = fresh q }))))))))
