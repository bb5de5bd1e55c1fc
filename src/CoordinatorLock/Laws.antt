-- ===== src/CoordinatorLock/Laws.antt =====
-- Who holds the coordinator's lock (src/core/coordinator-lock.ts).
use Prim.Native.Char.{code}
use agentic_mcp_teaming.Common.{
  String, ◌≡◌, ◌≢◌, refl, sym, ◌∙◌, ap, subst, inl, inr, Bool, true, false, Option, none, some,
  arith, if◌then◌else◌, str_eq, eq_iff, Bool-cases,
}
use agentic_mcp_teaming.Patterns.{is_digit}
use agentic_mcp_teaming.Text.{span_while, every, ◌+++◌}
use agentic_mcp_teaming.Text.Find.{strip_prefix}
use agentic_mcp_teaming.CoordinatorLock.{
  Activity, create, inspect, remove_stale, recreate, holding, remove_own, refused, released,
  own_content, pid_of, is_stale, World, is_own, next, act, IsPid, acts, Reachable, here, after_step,
}

span-digits :
    (pid : String) → every is_digit pid ≡ true → (span_while is_digit (pid +++ "\n")).0 ≡ pid
unfolding every span_while ◌+++◌
span-digits String.[] h = refl
span-digits (String.◌∷◌ c s) h = elim (Bool-cases (is_digit (code c))) [
  | inl e ↦ rw e (ap (String.◌∷◌ c) (span-digits s (ground (arith, h))))
  | inr e ↦ absurd (ground (arith, e, h))
]

-- The content that a process writes names it.
pid_of-own_content : (pid : String) → IsPid pid → pid_of (own_content pid) ≡ some pid
unfolding pid_of own_content strip_prefix ◌+++◌
pid_of-own_content pid h = rw (span-digits pid h.1, h.0) refl

own_content_injective : (p q : String) → IsPid p → IsPid q → own_content p ≡ own_content q → p ≡ q
own_content_injective p q hp hq e =
    let same : some p ≡ some q =
      sym (pid_of-own_content p hp) ∙ (ap pid_of e ∙ pid_of-own_content q hq) in
    ground (arith, same)

own_content-not-stale :
    (alive : String → Bool) (p : String)
    → IsPid p
    → alive p ≡ true
    → is_stale alive (own_content p) ≡ false
unfolding is_stale
own_content-not-stale alive p h live = rw (pid_of-own_content p h, live) refl

-- A process has the lock until it has removed its file.
abbrev pub has_lock : Activity → Bool
has_lock holding = true
has_lock remove_own = true
has_lock _ = false

-- A process that neither has the lock nor takes it for stale.
abbrev pub idle : Activity → Bool
idle create = true
idle inspect = true
idle refused = true
idle released = true
idle _ = false

module _ (alive : String → Bool) where
  -- A lock that is held has its holder's file; no process takes the file for stale.
  record Locked (w : World) : Type 0 where
    pub holder :
        (p : String) → has_lock (w.activity p) ≡ true → IsPid p × (w.file ≡ some (own_content p))
    pub not_removing : (p : String) → w.activity p ≢ remove_stale
    pub not_recreating : (p : String) → w.activity p ≢ recreate
    pub not_stale : (c : String) → w.file ≡ some c → is_stale alive c ≡ false

  Locked-holders :
      {w : World} (p q : String)
      → Locked w
      → has_lock (w.activity p) ≡ true
      → has_lock (w.activity q) ≡ true
      → p ≡ q
  Locked-holders {w} p q v hp hq =
      own_content_injective p q (v.holder p hp).0 (v.holder q hq).0
        (ground (arith, (v.holder p hp).1, (v.holder q hq).1))

  -- A step that leaves the file, and takes the process to an activity that claims nothing new.
  quiet :
      (w : World) (pid : String) (a : Activity)
      → (has_lock a ≡ true → has_lock (w.activity pid) ≡ true)
      → a ≢ remove_stale
      → a ≢ recreate
      → Locked w
      → Locked (record { file = w.file; activity = λ q. if str_eq pid q then a else w.activity q })
  quiet w pid a nh nr nc v = record {
    holder = λ q h. elim (Bool-cases (str_eq pid q)) [
      | inl e ↦
          subst (λ x. IsPid x × (w.file ≡ some (own_content x))) ((eq_iff pid q).0 e)
            (v.holder pid (nh (ground (arith, h, e))))
      | inr e ↦ v.holder q (ground (arith, h, e))
    ];
    not_removing = λ q h. elim (Bool-cases (str_eq pid q)) [
      | inl e ↦ nr (ground (arith, h, e))
      | inr e ↦ v.not_removing q (ground (arith, h, e))
    ];
    not_recreating = λ q h. elim (Bool-cases (str_eq pid q)) [
      | inl e ↦ nc (ground (arith, h, e))
      | inr e ↦ v.not_recreating q (ground (arith, h, e))
    ];
    not_stale = v.not_stale;
  }

  -- The lock is taken where there is no file: nobody held it.
  taking :
      (w : World) (pid : String)
      → IsPid pid
      → alive pid ≡ true
      → w.file ≡ none
      → Locked w
      → Locked (record {
        file = some (own_content pid);
        activity = λ q. if str_eq pid q then holding else w.activity q;
      })
  taking w pid h live free v = record {
    holder = λ q e. elim (Bool-cases (str_eq pid q)) [
      | inl same ↦
          let eq : pid ≡ q = (eq_iff pid q).0 same in
          (subst IsPid eq h, ap (λ x. some (own_content x)) eq)
      | inr other ↦
          absurd (ground (arith, e, other, free, (v.holder q (ground (arith, e, other))).1))
    ];
    not_removing = λ q e. elim (Bool-cases (str_eq pid q)) [
      | inl same ↦ ground (arith, e, same)
      | inr other ↦ v.not_removing q (ground (arith, e, other))
    ];
    not_recreating = λ q e. elim (Bool-cases (str_eq pid q)) [
      | inl same ↦ ground (arith, e, same)
      | inr other ↦ v.not_recreating q (ground (arith, e, other))
    ];
    not_stale = λ c e.
        subst (λ x. is_stale alive x ≡ false) (ground (arith, e))
          (own_content-not-stale alive pid h live);
  }

  -- The holder's release takes the file off; nobody else holds the lock.
  releasing :
      (w : World) (pid : String)
      → has_lock (w.activity pid) ≡ true
      → Locked w
      → Locked
          (record { file = none; activity = λ q. if str_eq pid q then released else w.activity q })
  releasing w pid held v = record {
    holder = λ q e. elim (Bool-cases (str_eq pid q)) [
      | inl same ↦ absurd (ground (arith, e, same))
      | inr other ↦
          let same = Locked-holders pid q v held (ground (arith, e, other)) in
          absurd (ground (arith, other, same, eq_iff pid q))
    ];
    not_removing = λ q e. elim (Bool-cases (str_eq pid q)) [
      | inl same ↦ ground (arith, e, same)
      | inr other ↦ v.not_removing q (ground (arith, e, other))
    ];
    not_recreating = λ q e. elim (Bool-cases (str_eq pid q)) [
      | inl same ↦ ground (arith, e, same)
      | inr other ↦ v.not_recreating q (ground (arith, e, other))
    ];
    not_stale = λ c e. cc;
  }

  -- What a step makes of a world, given the file and the process's activity.
  abbrev stepped : World → String → Option String × Activity → World
  stepped w pid r = record {
    file = r.0;
    activity = λ q. if str_eq pid q then r.1 else w.activity q;
  }

  quiet_at :
      (w : World) (pid : String) (file : Option String) (a : Activity)
      → w.file ≡ file
      → (has_lock a ≡ true → has_lock (w.activity pid) ≡ true)
      → a ≢ remove_stale
      → a ≢ recreate
      → Locked w
      → Locked (stepped w pid (file, a))
  quiet_at w pid file a e nh nr nc v =
      subst (λ f. Locked (stepped w pid (f, a))) e (quiet w pid a nh nr nc v)

  step-Locked :
      (w : World) (pid : String) (file : Option String) (a : Activity)
      → w.file ≡ file
      → w.activity pid ≡ a
      → IsPid pid
      → alive pid ≡ true
      → Locked w
      → Locked (stepped w pid (next alive pid file a))
  unfolding own_content
  step-Locked w pid none create e d h live v = taking w pid h live e v
  step-Locked w pid (some c) create e d h live v =
      quiet_at w pid (some c) inspect e (λ x. absurd cc) (λ x. cc) (λ x. cc) v
  step-Locked w pid none inspect e d h live v =
      quiet_at w pid none refused e (λ x. absurd cc) (λ x. cc) (λ x. cc) v
  step-Locked w pid (some c) inspect e d h live v =
      rw (v.not_stale c e)
        (quiet_at w pid (some c) refused e (λ x. absurd cc) (λ x. cc) (λ x. cc) v)
  step-Locked w pid file remove_stale e d h live v = absurd (v.not_removing pid d)
  step-Locked w pid file recreate e d h live v = absurd (v.not_recreating pid d)
  step-Locked w pid file holding e d h live v = elim (Bool-cases (is_own pid file)) [
    | inl own ↦ rw own (quiet_at w pid file remove_own e (λ x. rw d refl) (λ x. cc) (λ x. cc) v)
    | inr other ↦ rw other (quiet_at w pid file released e (λ x. absurd cc) (λ x. cc) (λ x. cc) v)
  ]
  step-Locked w pid file remove_own e d h live v = releasing w pid (rw d refl) v
  step-Locked w pid file refused e d h live v =
      quiet_at w pid file refused e (λ x. absurd cc) (λ x. cc) (λ x. cc) v
  step-Locked w pid file released e d h live v =
      quiet_at w pid file released e (λ x. absurd cc) (λ x. cc) (λ x. cc) v

  Reachable-Locked : {w u : World} → Locked w → Reachable alive w u → Locked u
  unfolding act
  Reachable-Locked v here = v
  Reachable-Locked v (after_step {v = m} r (acts pid h live)) =
      step-Locked m pid m.file (m.activity pid) refl refl h live (Reachable-Locked v r)

-- From a state in which nobody has the lock or is about to remove it, and in which the file, if it is
-- there, is not stale, at most one process ever has the lock, until its release has removed the file, in
-- whatever order the running processes take their steps; and the file names the process that has it.
pub coordinator_lock_exclusive :
    (alive : String → Bool) (w u : World) (p q : String)
    → ((r : String) → idle (w.activity r) ≡ true)
    → ((c : String) → w.file ≡ some c → is_stale alive c ≡ false)
    → Reachable alive w u
    → has_lock (u.activity p) ≡ true
    → has_lock (u.activity q) ≡ true
    → (p ≡ q) × (u.file ≡ some (own_content p))
coordinator_lock_exclusive alive w u p q fresh live r hp hq =
    let v : Locked alive u =
      Reachable-Locked alive
        (record {
          holder = λ x e. absurd (not_both (w.activity x) (fresh x) e);
          not_removing = λ x e. ground (arith, e, fresh x);
          not_recreating = λ x e. ground (arith, e, fresh x);
          not_stale = live;
        })
        r in
    (Locked-holders alive p q v hp hq, (v.holder p hp).1)
  where
    not_both : (a : Activity) → idle a ≡ true → has_lock a ≡ true → ⊥
    not_both holding h e = cc
    not_both remove_own h e = cc
    not_both create h e = cc
    not_both inspect h e = cc
    not_both refused h e = cc
    not_both released h e = cc
    not_both remove_stale h e = cc
    not_both recreate h e = cc
