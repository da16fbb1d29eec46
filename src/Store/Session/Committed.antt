-- ===== src/Store/Session/Committed.antt =====
-- What a commit makes durable (repository/uow.py).
use true_nas_controller.Common.{◌≡◌, sym, ap, ◌∙◌, Bool, true, false, if◌then◌else◌}
use true_nas_controller.Store.Database.{Database, constraints_hold}
use true_nas_controller.Store.Session.{
  Result, ok, err, integrity_error, Session, Tx, ◌>>◌, pure, commit, unit_of_work,
}

abbrev pub session : Database → Session
session db = record { working = db; durable = db }

committed :
    (c : Bool) (s : Session) (db : Database)
    → let r : Result (Unit {0}) × Session =
        if c then (ok tt, record s { durable = s.working }) else (err integrity_error, s) in
      let found : Result (Unit {0}) × Database = (r.0, r.1.durable) in
      found ≡ (ok tt, db) → s.working ≡ db
committed true s db h = ap (λ (x : Result (Unit {0}) × Database). x.1) h
committed false s db h = cc

-- The block and the durable part of what it leaves.
abbrev finished : Session → Result (Unit {0}) × Session → Result (Unit {0}) × Database
finished s first = let (r, s') = ((λ _. first) >> commit) s in (r, s'.durable)

-- A block that ends in its commit leaves what it has worked out.
pub unit_of_work-commit :
    (m : Tx (Unit {0})) (db : Database) (s : Session) (db' : Database)
    → m (session db) ≡ (ok tt, s)
    → unit_of_work (m >> commit) db ≡ (ok tt, db')
    → s.working ≡ db'
unfolding unit_of_work commit
unit_of_work-commit m db s db' h e =
    committed (constraints_hold s.working) s db' (sym (ap (finished (session db)) h) ∙ e)

committed_value :
    {A : Type 0} (c : Bool) (s : Session) (a b : A) (db : Database)
    → let r : Result (Unit {0}) × Session =
        if c then (ok tt, record s { durable = s.working }) else (err integrity_error, s) in
      let (x, s') = ((λ _. r) >> pure a) s in
      let found : Result A × Database = (x, s'.durable) in
      found ≡ (ok b, db) → (ok a ≡ ok b) × (s.working ≡ db)
committed_value {A} true s a b db h =
    (ap (λ (x : Result A × Database). x.0) h, ap (λ (x : Result A × Database). x.1) h)
committed_value false s a b db h = cc

-- What a block returns after its commit, and what it leaves.
pub commit-pure :
    {A : Type 0} (s : Session) (a b : A) (db : Database)
    → let (x, s') = (commit >> pure a) s in
      let found : Result A × Database = (x, s'.durable) in
      found ≡ (ok b, db) → (ok a ≡ ok b) × (s.working ≡ db)
unfolding commit
commit-pure s a b db h = committed_value (constraints_hold s.working) s a b db h
