-- ===== src/Machine/Keeps.antt =====
-- Invariants of the machine: what holds after a function whether it returns or throws.
use agentic_mcp_teaming.Common.{
  String, ◌≡◌, refl, subst, ◌⊎◌, inl, inr, Bool, true, false, Option, none, some, ◌∷◌, Bool-cases,
  arith,
}
use agentic_mcp_teaming.Session.{SessionState}
use agentic_mcp_teaming.Session
use agentic_mcp_teaming.Machine.{
  saved, Trace, Outside, Machine, Error, Outcome, ok, err, M, ◌>>=◌, ◌>>◌, or_throw, pure, throw,
  get_state, update,
}

abbrev pub Holds : {A : Type 0} → (Machine → Type 0) → Outcome A → Type 0
Holds P (ok a s) = P s
Holds P (err e s) = P s

abbrev pub Keeps : {A : Type 0} → (Machine → Type 0) → M A → Type 0
Keeps P m = (s : Machine) → P s → Holds P (m s)

pub Holds->>= :
    {A B : Type 0} (P : Machine → Type 0) (r : Outcome A) (f : A → M B)
    → Holds P r
    → ((a : A) → Keeps P (f a))
    → Holds P (elim r [ ok a s' ↦ f a s' | err e s' ↦ err e s' ])
Holds->>= P (ok a s) f h k = k a s h
Holds->>= P (err e s) f h k = h

pub Keeps->>= :
    {A B : Type 0} (P : Machine → Type 0) (m : M A) (f : A → M B)
    → Keeps P m
    → ((a : A) → Keeps P (f a))
    → Keeps P (m >>= f)
Keeps->>= P m f h k s p = Holds->>= P (m s) f (h s p) k

pub Keeps->> :
    {B : Type 0} (P : Machine → Type 0) (m : M (Unit {0})) (k : M B)
    → Keeps P m
    → Keeps P k
    → Keeps P (m >> k)
Keeps->> P m k h g s p = Holds->>= P (m s) (λ _. k) (h s p) (λ _. g)

-- The same as a record, which determines the function, so that `search` composes the rules.
pub record Safe {A : Type 0} (P : Machine → Type 0) (m : M A) : Type 0 where
  pub keeps : Keeps P m

pub Safe->>= :
    {A B : Type 0} {P : Machine → Type 0} {m : M A} {f : A → M B}
    → Safe P m
    → ((a : A) → Safe P (f a))
    → Safe P (m >>= f)
Safe->>= {m = m} {f = f} h k = record { keeps = Keeps->>= _ m f h.keeps (λ a. (k a).keeps) }

pub Safe->> :
    {B : Type 0} {P : Machine → Type 0} {m : M (Unit {0})} {k : M B}
    → Safe P m
    → Safe P k
    → Safe P (m >> k)
Safe->> {m = m} {k = k} h g = record { keeps = Keeps->> _ m k h.keeps g.keeps }

pub Safe-pure : {A : Type 0} {P : Machine → Type 0} {a : A} → Safe P (pure a)
Safe-pure = record { keeps = λ s p. p }

pub Safe-throw : {A : Type 0} {P : Machine → Type 0} {e : Error} → Safe {A = A} P (throw e)
Safe-throw = record { keeps = λ s p. p }

pub Safe-get_state : {P : Machine → Type 0} → Safe P get_state
Safe-get_state = record { keeps = λ s p. p }

pub ruleset safe_rules = (Safe->>=, Safe->>, Safe-pure, Safe-throw, Safe-get_state)

-- Every write of the session's file succeeds.
abbrev pub CanSave : Outside → Type 0
CanSave o = (t : Trace) → o.save t ≡ true

-- An update takes its patch, or leaves the machine as it is.
pub update_cases :
    (o : Outside) (patch : SessionState → SessionState) (s : Machine)
    → CanSave o
    → ((now : String) × (Session.update now patch s.state
          ≡ some (record (patch s.state) { updated_at = now }))
        × (update o patch s
            ≡ ok tt (record {
              state = record (patch s.state) { updated_at = now };
              trace = saved true ∷ s.trace;
            })))
      ⊎ (update o patch s ≡ err Error.invalid_state s)
unfolding update Session.update
update_cases o patch s can =
    elim (Bool-cases (Session.state_ok (record (patch s.state) { updated_at = o.now s.trace }))) [
      | inl good ↦ inl (o.now s.trace, rw good, rw (good, can s.trace))
      | inr bad ↦ inr (rw bad)
    ]

pub Holds-or_throw :
    {A : Type 0} (P : Machine → Type 0) (e : Error) (o : Option A) → Keeps P (or_throw e o)
Holds-or_throw P e none s p = p
Holds-or_throw P e (some a) s p = p

pub update-Safe :
    (o : Outside) (P : Machine → Type 0) (patch : SessionState → SessionState)
    → ((s : Machine) (now : String) (b : Bool)
        → P s
        → P (record {
          state = record (patch s.state) { updated_at = now };
          trace = saved b ∷ s.trace;
        }))
    → Safe P (update o patch)
unfolding update Session.update
update-Safe o P patch keep = record {
  keeps = λ s p.
      go s p (o.save s.trace)
        (Session.state_ok (record (patch s.state) { updated_at = o.now s.trace })) refl refl;
}
  where
    go :
        (s : Machine)
        → P s
        → (b c : Bool) → o.save s.trace ≡ b
        → Session.state_ok (record (patch s.state) { updated_at = o.now s.trace }) ≡ c
        → Holds P (update o patch s)
    go s p b false e f = rw f p
    go s p true true e f = rw (f, e) (keep s (o.now s.trace) true p)
    go s p false true e f = rw (f, e) (keep s (o.now s.trace) false p)

-- What a chain did that returned.
pub >>=-eq-ok :
    {A B : Type 0} (r : Outcome A) (f : A → M B) {b : B} {s' : Machine}
    → elim r [ ok a t ↦ f a t | err e t ↦ err e t ] ≡ ok b s'
    → (a : A) × (t : Machine) × (r ≡ ok a t) × (f a t ≡ ok b s')
>>=-eq-ok (ok a t) f h = (a, t, refl, h)
>>=-eq-ok (err e t) f h = cc

-- What a safe function leaves where it returns.
pub Safe-ok :
    {A : Type 0} (P : Machine → Type 0) {m : M A} {s s' : Machine} {a : A}
    → Safe P m
    → P s
    → m s ≡ ok a s'
    → P s'
Safe-ok P {s = s} safe p e = subst (Holds P) e (safe.keeps s p)

pub update-ok :
    (o : Outside) (patch : SessionState → SessionState) (s s' : Machine) (u : Unit {0})
    → update o patch s ≡ ok u s'
    → (now : String) × (s'.state ≡ record (patch s.state) { updated_at = now })
unfolding update Session.update
update-ok o patch s s' u h = (
  o.now s.trace,
  go (o.save s.trace) (Session.state_ok (record (patch s.state) { updated_at = o.now s.trace }))
      refl refl,
)
  where
    go :
        (b c : Bool)
        → o.save s.trace ≡ b
        → Session.state_ok (record (patch s.state) { updated_at = o.now s.trace }) ≡ c
        → s'.state ≡ record (patch s.state) { updated_at = o.now s.trace }
    go b false e f = absurd (ground (arith, f, h))
    go false true e f = absurd (ground (arith, f, e, h))
    go true true e f = ground (arith, f, e, h)
