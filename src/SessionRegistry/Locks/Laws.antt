-- ===== src/SessionRegistry/Locks/Laws.antt =====
-- What the promises of `withLock` ensure (src/core/session-registry.ts).
use agentic_mcp_teaming.Common.{
  ℕ, ◌<◌, ◌≤◌, ◌==◌, String, ◌≡◌, refl, sym, ap, ◌∙◌, subst, Bool, true, false, ◌||◌, arith, str_eq,
  eq_iff, Bool-cases, inl, inr, ◌≢◌, ltb,
}
use agentic_mcp_teaming.Dict
use agentic_mcp_teaming.Dict.{get-set}
use agentic_mcp_teaming.SessionRegistry.Locks.{
  Promise, resolved, chained, CallPhase, absent, waiting, running, done, LockState, is_done,
  is_resolved, update, prior_for, call_lock, moved, entered, enter, let_go, release, no_calls,
  calling, entering, releasing, LockRun, unlocked, after_step,
}

-- A promise waits for a call.
unfoldable pub awaits : Promise → ℕ → Bool
awaits resolved i = false
awaits (chained prior call) i = call == i || awaits prior i

-- `fn` of the call has started.
abbrev pub has_started : CallPhase → Bool
has_started running = true
has_started done = true
has_started _ = false

is_done-done : (phase : CallPhase) → is_done phase ≡ true → phase ≡ done
is_done-done done h = refl
is_done-done absent h = cc
is_done-done waiting h = cc
is_done-done running h = cc

resolved-done :
    (phase : ℕ → CallPhase) (p : Promise) (i : ℕ)
    → is_resolved phase p ≡ true
    → awaits p i ≡ true
    → phase i ≡ done
unfolding is_resolved awaits
resolved-done phase resolved i h w = cc
resolved-done phase (chained prior call) i h w = elim (Bool-cases (call == i)) [
  | inl e ↦ ap phase (sym (the_call e)) ∙ is_done-done (phase call) (ground (arith, h))
  | inr e ↦ resolved-done phase prior i (ground (arith, h)) (ground (arith, w, e))
]
  where
    the_call : (call == i) ≡ true → call ≡ i
    the_call e = ground (arith, e)

record Valid (s : LockState) : Type 0 where
  fresh : (i : ℕ) → s.calls ≤ i → s.phase_of i ≡ absent
  stored : (i : ℕ) → i < s.calls → awaits (prior_for s (s.name_of i)) i ≡ true
  ordered :
      (i j : ℕ) → i < j → j < s.calls → s.name_of i ≡ s.name_of j → awaits (s.prior_of j) i ≡ true
  started :
      (i j : ℕ)
      → awaits (s.prior_of j) i ≡ true
      → has_started (s.phase_of j) ≡ true
      → s.phase_of i ≡ done

no_calls-Valid : Valid no_calls
unfolding awaits
no_calls-Valid = record {
  fresh = λ i h. refl;
  stored = λ i h. absurd (omega (arith, h));
  ordered = λ i j h k. absurd (omega (arith, k));
  started = λ i j w h. cc;
}

call-Valid : (name : String) (s : LockState) → Valid s → Valid (call_lock name s)
unfolding call_lock awaits
call-Valid name s v = record {
  fresh = λ i h. rw (not_last i (omega (arith, h))) (v.fresh i (omega (arith, h)));
  stored = λ i h. elim (Bool-cases (s.calls == i)) [
    | inl e ↦ rw (e, Dict.get-set_self s.locks name (chained (prior_for s name) s.calls), e) refl
    | inr e ↦
        let old : i < s.calls = ground (arith, h, e) in
        elim (Bool-cases (str_eq name (s.name_of i))) [
          | inl f ↦
              rw (e, get-set s.locks name (chained (prior_for s name) s.calls) (s.name_of i), f, e)
                (subst (λ n. awaits (prior_for s n) i ≡ true)
                  (sym ((eq_iff name (s.name_of i)).0 f)) (v.stored i old))
          | inr f ↦
              rw (e, get-set s.locks name (chained (prior_for s name) s.calls) (s.name_of i), f)
                (v.stored i old)
        ]
  ];
  ordered = λ i j h k same. elim (Bool-cases (s.calls == j)) [
    | inl e ↦
        let old : i < s.calls = ground (arith, h, e) in
        let earlier : (s.calls == i) ≡ false = ground (arith, old) in
        let named : s.name_of i ≡ name = rw (earlier, e) at same in
        rw e (subst (λ n. awaits (prior_for s n) i ≡ true) named (v.stored i old))
    | inr e ↦
        let old : j < s.calls = ground (arith, k, e) in
        let earlier : (s.calls == i) ≡ false = ground (arith, h, old) in
        rw e (v.ordered i j h old (rw (earlier, e) at same))
  ];
  started = λ i j w h. elim (Bool-cases (s.calls == j)) [
    | inl e ↦ absurd (ground (arith, e, h))
    | inr e ↦
        let ended : s.phase_of i ≡ done = v.started i j (rw e at w) (rw e at h) in
        elim (Bool-cases (s.calls == i)) [
          | inl f ↦ absurd (ground (arith, v.fresh i (ground (arith, f)), ended))
          | inr f ↦ rw f ended
        ]
  ];
}
  where
    not_last : (i : ℕ) → s.calls < i → (s.calls == i) ≡ false
    not_last i h = ground (arith, h)

-- A call that goes on to a later phase: it has started, and all that it waited for is done.
moved-Valid :
    (k : ℕ) (phase : CallPhase) (s : LockState)
    → s.phase_of k ≢ absent
    → s.phase_of k ≢ done
    → ((i : ℕ) → awaits (s.prior_of k) i ≡ true → s.phase_of i ≡ done)
    → Valid s
    → Valid (moved k phase s)
moved-Valid k phase s called open_yet ready v = record {
  fresh = λ i h. elim (Bool-cases (k == i)) [
    | inl e ↦ absurd (called (ap s.phase_of (the_call i e) ∙ v.fresh i h))
    | inr e ↦ rw e (v.fresh i h)
  ];
  stored = v.stored;
  ordered = v.ordered;
  started = λ i j w h. elim (Bool-cases (k == i)) [
    | inl e ↦ absurd (open_yet (ap s.phase_of (the_call i e) ∙ ended i j w h))
    | inr e ↦ rw e (ended i j w h)
  ];
}
  where
    the_call : (i : ℕ) → (k == i) ≡ true → k ≡ i
    the_call i e = ground (arith, e)

    ended :
        (i j : ℕ)
        → awaits (s.prior_of j) i ≡ true
        → has_started (update s.phase_of k phase j) ≡ true
        → s.phase_of i ≡ done
    ended i j w h = elim (Bool-cases (k == j)) [
      | inl e ↦ ready i (subst (λ x. awaits (s.prior_of x) i ≡ true) (sym (the_call j e)) w)
      | inr e ↦ v.started i j w (rw e at h)
    ]

entered-Valid :
    (i : ℕ) (s : LockState) (phase : CallPhase)
    → s.phase_of i ≡ phase
    → Valid s
    → Valid (entered i s phase)
entered-Valid i s waiting h v = elim (Bool-cases (is_resolved s.phase_of (s.prior_of i))) [
  | inr e ↦ rw e v
  | inl e ↦ rw e (
      moved-Valid i running s (λ x. absurd cc) (λ x. absurd cc)
        (λ k w. resolved-done s.phase_of (s.prior_of i) k e w) v)
]
entered-Valid i s absent h v = v
entered-Valid i s running h v = v
entered-Valid i s done h v = v

let_go-Valid :
    (i : ℕ) (s : LockState) (phase : CallPhase)
    → s.phase_of i ≡ phase
    → Valid s
    → Valid (let_go i s phase)
let_go-Valid i s running h v =
    moved-Valid i done s (λ x. absurd cc) (λ x. absurd cc) (λ k w. v.started k i w (rw h refl)) v
let_go-Valid i s waiting h v = v
let_go-Valid i s absent h v = v
let_go-Valid i s done h v = v

run-Valid : {s : LockState} → LockRun s → Valid s
unfolding enter release
run-Valid unlocked = no_calls-Valid
run-Valid (after_step {s} run (calling name)) = call-Valid name s (run-Valid run)
run-Valid (after_step {s} run (entering i)) = entered-Valid i s (s.phase_of i) refl (run-Valid run)
run-Valid (after_step {s} run (releasing i)) = let_go-Valid i s (s.phase_of i) refl (run-Valid run)

-- In every order of calls, starts and releases, a call starts only after every earlier call on its name
-- has released its lock: of two calls on a name, the later of which runs or is over, the earlier is over.
pub with_lock_exclusive :
    (s : LockState) (i j : ℕ)
    → LockRun s
    → s.name_of i ≡ s.name_of j
    → i < j
    → has_started (s.phase_of j) ≡ true
    → s.phase_of i ≡ done
with_lock_exclusive s i j run same earlier begun =
    let v = run-Valid run in
    elim (Bool-cases (ltb j s.calls)) [
      | inl known ↦ v.started i j (v.ordered i j earlier (ground (arith, known)) same) begun
      | inr beyond ↦ absurd (ground (arith, v.fresh j (ground (arith, beyond)), begun))
    ]
