-- ===== src/Store/Session/Atomic.antt =====
-- Operations that leave the database as it was when they raise (repository/uow.py).
use true_nas_controller.Common.{
  ◌≡◌, refl, ◌∙◌, Bool, true, false, Option, some, none, List, [], ◌∷◌, if◌then◌else◌,
}
use true_nas_controller.Store.Database.{Database, constraints_hold}
use true_nas_controller.Store.Session.{
  Error, Result, ok, err, integrity_error, Session, Tx, ◌>>=◌, ◌>>◌, pure, or_raise, one_or_none,
  commit, unit_of_work,
}

-- Code that leaves alone what `see` reads of the session.
abbrev pub Preserves : {X A : Type 0} → (Session → X) → Tx A → Type 0
Preserves see m = (s : Session) → see (m s).1 ≡ see s

-- Code that commits nothing.
abbrev pub Keeps : {A : Type 0} → Tx A → Type 0
Keeps m = (s : Session) → (m s).1.durable ≡ s.durable

-- Code that commits nothing when it raises.
abbrev pub Atomic : {A : Type 0} → Tx A → Type 0
Atomic m = (s : Session) (e : Error) → (m s).0 ≡ err e → (m s).1.durable ≡ s.durable

module _ {X : Type 0} (see : Session → X) where
  pub Preserves-or_raise : {A : Type 0} (o : Option A) (e : Error) → Preserves see (or_raise o e)
  Preserves-or_raise none e s = refl
  Preserves-or_raise (some a) e s = refl

  pub Preserves-one_or_none : {A : Type 0} (xs : List A) → Preserves see (one_or_none xs)
  Preserves-one_or_none [] s = refl
  Preserves-one_or_none (x ∷ []) s = refl
  Preserves-one_or_none (x ∷ y ∷ _) s = refl

  Preserves-then :
      {A B : Type 0} (first : Result A × Session) (k : A → Tx B) (s : Session)
      → see first.1 ≡ see s
      → ((a : A) → Preserves see (k a))
      → see (((λ _. first) >>= k) s).1 ≡ see s
  Preserves-then (ok a, s') k s h c = c a s' ∙ h
  Preserves-then (err e, s') k s h c = h

  pub Preserves->>= :
      {A B : Type 0} (m : Tx A) (k : A → Tx B)
      → Preserves see m
      → ((a : A) → Preserves see (k a))
      → Preserves see (m >>= k)
  Preserves->>= m k h c s = Preserves-then (m s) k s (h s) c

abbrev pub durable_part : Session → Database
durable_part s = s.durable

pub Keeps-or_raise : {A : Type 0} (o : Option A) (e : Error) → Keeps (or_raise o e)
Keeps-or_raise o e = Preserves-or_raise durable_part o e

pub Keeps-one_or_none : {A : Type 0} (xs : List A) → Keeps (one_or_none xs)
Keeps-one_or_none xs = Preserves-one_or_none durable_part xs

pub Keeps->>= :
    {A B : Type 0} (m : Tx A) (k : A → Tx B) → Keeps m → ((a : A) → Keeps (k a)) → Keeps (m >>= k)
Keeps->>= m k h c = Preserves->>= durable_part m k h c

Atomic-then :
    {A B : Type 0} (first : Result A × Session) (k : A → Tx B) (s : Session) (e : Error)
    → first.1.durable ≡ s.durable
    → ((a : A) → Atomic (k a))
    → (((λ _. first) >>= k) s).0 ≡ err e
    → (((λ _. first) >>= k) s).1.durable ≡ s.durable
Atomic-then (ok a, s') k s e h c x = c a s' e x ∙ h
Atomic-then (err _, s') k s e h c x = h

pub Atomic->>= :
    {A B : Type 0} (m : Tx A) (k : A → Tx B) → Keeps m → ((a : A) → Atomic (k a)) → Atomic (m >>= k)
Atomic->>= m k h c s e x = Atomic-then (m s) k s e (h s) c x

committed :
    {A : Type 0} (c : Bool) (a : A) (s : Session) (e : Error)
    → let first : Result (Unit {0}) × Session =
        if c then (ok tt, record s { durable = s.working }) else (err integrity_error, s) in
      (((λ _. first) >>= λ _. pure a) s).0 ≡ err e
      → (((λ _. first) >>= λ _. pure a) s).1.durable ≡ s.durable
committed true a s e h = cc
committed false a s e h = refl

-- The last two steps of a use case: the commit, and a value.
pub Atomic-commit : {A : Type 0} (a : A) → Atomic (commit >> pure a)
unfolding commit
Atomic-commit a s e h = committed (constraints_hold s.working) a s e h

committed_last :
    (c : Bool) (s : Session) (e : Error)
    → let r : Result (Unit {0}) × Session =
        if c then (ok tt, record s { durable = s.working }) else (err integrity_error, s) in
      r.0 ≡ err e → r.1.durable ≡ s.durable
committed_last true s e h = cc
committed_last false s e h = refl

-- A commit as the last step.
pub Atomic-commit_last : Atomic commit
unfolding commit
Atomic-commit_last s e h = committed_last (constraints_hold s.working) s e h

pub unit_of_work-Atomic :
    {A : Type 0} (m : Tx A) (db : Database) (e : Error)
    → Atomic m
    → (unit_of_work m db).0 ≡ err e
    → (unit_of_work m db).1 ≡ db
unfolding unit_of_work
unit_of_work-Atomic m db e a h = a (record { working = db; durable = db }) e h
