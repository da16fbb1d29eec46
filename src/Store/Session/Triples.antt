-- ===== src/Store/Session/Triples.antt =====
-- What code inside a unit of work establishes when it returns (repository/uow.py).
use mathlib.Core.Path.{subst}
use true_nas_controller.Common.{◌≡◌, refl, sym, ap, ◌∙◌, Bool, true, false, if◌then◌else◌}
use true_nas_controller.Store.Database.{Database, constraints_hold}
use true_nas_controller.Store.Session.{
  Result, ok, err, integrity_error, Session, Tx, ◌>>=◌, commit, unit_of_work,
}
use true_nas_controller.Store.Session.Atomic.{Preserves}

-- From a session where `P` holds, code that returns leaves one where `Q` holds.
abbrev pub Triple : {A : Type 0} → (Session → Type 0) → Tx A → (Session → Type 0) → Type 0
Triple {A} P m Q = (s s' : Session) (a : A) → P s → m s ≡ (ok a, s') → Q s'

Triple-then :
    {A B : Type 0} (Q R : Session → Type 0) (first : Result A × Session) (k : A → Tx B)
    (s s' : Session) (b : B)
    → ((s₁ : Session) (a : A) → first ≡ (ok a, s₁) → Q s₁)
    → ((a : A) → Triple Q (k a) R)
    → ((λ _. first) >>= k) s ≡ (ok b, s')
    → R s'
Triple-then Q R (ok a, s₁) k s s' b h c e = c a s₁ s' b (h s₁ a refl) e
Triple-then Q R (err _, s₁) k s s' b h c e = cc

pub Triple->>= :
    {A B : Type 0} (P Q R : Session → Type 0) (m : Tx A) (k : A → Tx B)
    → Triple P m Q
    → ((a : A) → Triple Q (k a) R)
    → Triple P (m >>= k) R
Triple->>= P Q R m k h c s s' b p e = Triple-then Q R (m s) k s s' b (λ s₁ a x. h s s₁ a p x) c e

committed :
    (c : Bool) (s s' : Session)
    → let r : Result (Unit {0}) × Session =
        if c then (ok tt, record s { durable = s.working }) else (err integrity_error, s) in
      r ≡ (ok tt, s') → s'.durable ≡ s.working
committed true s s' h = ap (λ (x : Result (Unit {0}) × Session). x.1.durable) (sym h)
committed false s s' h = cc

-- A commit makes the working copy durable.
pub Triple-commit : (P : Database → Type 0) → Triple (λ s. P s.working) commit (λ s. P s.durable)
unfolding commit
Triple-commit P s s' a p e = subst P (sym (committed (constraints_hold s.working) s s' e)) p

-- What is kept of the working copy by code that leaves alone what `see` reads.
pub Triple-Preserves :
    {X A : Type 0} (see : Session → X) (P : X → Type 0) (m : Tx A)
    → Preserves see m
    → Triple (λ s. P (see s)) m (λ s. P (see s))
Triple-Preserves see P m h s s' a p e =
    subst P (sym (h s) ∙ ap (λ (x : Result _ × Session). see x.1) e) p

pub unit_of_work-Triple :
    {A : Type 0} (P Q : Database → Type 0) (m : Tx A) (db db' : Database) (a : A)
    → Triple (λ s. P s.working) m (λ s. Q s.durable)
    → P db
    → unit_of_work m db ≡ (ok a, db')
    → Q db'
unfolding unit_of_work
unit_of_work-Triple P Q m db db' a t p e =
    let start : Session = record { working = db; durable = db } in
    let left : (m start).0 ≡ ok a = ap (λ (x : Result _ × Database). x.0) e in
    subst Q (ap (λ (x : Result _ × Database). x.1) e)
      (t start (m start).1 a p (ap (λ r. (r, (m start).1)) left))
