-- ===== src/Machine/Triple.antt =====
-- Hoare triples: what holds before a function, what after it returns, and what after it throws.
use agentic_mcp_teaming.Common.{◌≡◌, refl, Bool, true, false, Option, none, some, ◌∷◌}
use agentic_mcp_teaming.Session.{SessionState}
use agentic_mcp_teaming.Session
use agentic_mcp_teaming.Machine
use agentic_mcp_teaming.Machine.{
  saved, Outside, Machine, Error, Outcome, ok, err, M, ◌>>=◌, ◌>>◌, pure, throw, get_state, update,
  Trace,
}

abbrev pub Ends : {A : Type 0} → (A → Machine → Type 0) → (Machine → Type 0) → Outcome A → Type 0
Ends Q E (ok a s) = Q a s
Ends Q E (err e s) = E s

pub record Triple {A : Type 0} (P : Machine → Type 0) (m : M A) (Q : A → Machine → Type 0)
    (E : Machine → Type 0) : Type 0 where
  pub run : (s : Machine) → P s → Ends Q E (m s)

Ends-bind :
    {A B : Type 0} (Q : A → Machine → Type 0) (R : B → Machine → Type 0) (E : Machine → Type 0)
    (r : Outcome A) (f : A → M B)
    → Ends Q E r
    → ((a : A) → Triple (Q a) (f a) R E)
    → Ends R E (elim r [ ok a s ↦ f a s | err e s ↦ err e s ])
Ends-bind Q R E (ok a s) f q k = (k a).run s q
Ends-bind Q R E (err e s) f q k = q

pub bind :
    {A B : Type 0} {P : Machine → Type 0} {Q : A → Machine → Type 0} {R : B → Machine → Type 0}
    {E : Machine → Type 0} {m : M A} {f : A → M B}
    → Triple P m Q E
    → ((a : A) → Triple (Q a) (f a) R E)
    → Triple P (m >>= f) R E
bind {Q = Q} {R = R} {E = E} {m = m} {f = f} h k = record {
  run = λ s p. Ends-bind Q R E (m s) f (h.run s p) k;
}

pub seq :
    {B : Type 0} {P Q : Machine → Type 0} {R : B → Machine → Type 0} {E : Machine → Type 0}
    {m : M (Unit {0})} {k : M B}
    → Triple P m (λ u. Q) E
    → Triple Q k R E
    → Triple P (m >> k) R E
seq {Q = Q} {R = R} {E = E} {m = m} {k = k} h g = record {
  run = λ s p. Ends-bind (λ u. Q) R E (m s) (λ u. k) (h.run s p) (λ u. g);
}

pub Ends-catch :
    {A : Type 0} (Q : A → Machine → Type 0) (E F : Machine → Type 0) (r : Outcome A)
    (handler : Error → M A)
    → Ends Q E r
    → ((e : Error) → Triple E (handler e) Q F)
    → Ends Q F (elim r [ ok a t ↦ ok a t | err e t ↦ handler e t ])
Ends-catch Q E F (ok a s) handler q k = q
Ends-catch Q E F (err e s) handler q k = (k e).run s q

pub weaken :
    {A : Type 0} {P P' : Machine → Type 0} {Q : A → Machine → Type 0} {E : Machine → Type 0}
    {m : M A}
    → ((s : Machine) → P s → P' s)
    → Triple P' m Q E
    → Triple P m Q E
weaken w h = record { run = λ s p. h.run s (w s p) }

pub pure-Triple :
    {A : Type 0} {Q : A → Machine → Type 0} {E : Machine → Type 0} (a : A)
    → Triple (Q a) (pure a) Q E
pure-Triple a = record { run = λ s p. p }

pub throw-Triple :
    {A : Type 0} {P : Machine → Type 0} {Q : A → Machine → Type 0} {E : Machine → Type 0}
    (e : Error)
    → ((s : Machine) → P s → E s)
    → Triple P (throw e) Q E
throw-Triple e w = record { run = w }

pub get_state-Triple : {P E : Machine → Type 0} → Triple P get_state (λ a. P) E
get_state-Triple = record { run = λ s p. p }

-- An update adds one event to the trace, or none.
pub update-Triple :
    (o : Outside) (P E : Trace → Type 0) (patch : SessionState → SessionState)
    → ((t : Trace) (b : Bool) → P t → P (saved b ∷ t))
    → ((t : Trace) → P t → E t)
    → Triple (λ s. P s.trace) (update o patch) (λ u s. P s.trace) (λ s. E s.trace)
unfolding update
update-Triple o P E patch keep weak = record {
  run = λ s p. go s p (Session.update (o.now s.trace) patch s.state) (o.save s.trace) refl;
}
  where
    go :
        (s : Machine)
        → P s.trace
        → (next : Option SessionState) (b : Bool) → o.save s.trace ≡ b
        → Ends (λ u m. P m.trace) (λ m. E m.trace) (Machine.settle o next s)
    go s p none b e = weak s.trace p
    go s p (some st) true e = rw e (keep s.trace true p)
    go s p (some st) false e = rw e (weak (saved false ∷ s.trace) (keep s.trace false p))

pub catching :
    {A : Type 0} {P : Machine → Type 0} {Q : A → Machine → Type 0} {E F : Machine → Type 0}
    {m : M A} {handler : Error → M A}
    → Triple P m Q E
    → ((e : Error) → Triple E (handler e) Q F)
    → Triple P (λ s. elim (m s) [ ok a t ↦ ok a t | err e t ↦ handler e t ]) Q F
catching {Q = Q} {E = E} {F = F} {m = m} {handler = handler} h k = record {
  run = λ s p. Ends-catch Q E F (m s) handler (h.run s p) k;
}
