-- ===== src/Db/Rules.antt =====
-- Proof rules for actions: what keeps a property of the database, what only reads, what leaves the
-- database as it was when it raises, and what never raises.
use agpair.Base.{◌≡◌, refl, Bool, true, false, Option, none, some}
use agpair.Result.{Error, Result, ok, err}
use agpair.Db.{
  Db, Exec, ◌>>=◌, continue, pure, raise, lift, gets, modify, transaction, require_that,
  require_some,
}

-- `m` keeps `P`, whether it returns or raises.
pub record Keeps {ℓ} {A : Type ℓ} (P : Db → Type 0) (m : Exec A) : Type ℓ where
  pub at : (db : Db) → P db → P (m db).1

-- `m` changes nothing.
pub record Reads {ℓ} {A : Type ℓ} (m : Exec A) : Type ℓ where
  pub at : (db : Db) → (m db).1 ≡ db

-- `m` changes nothing if it raises.
pub record IsAtomic {ℓ} {A : Type ℓ} (m : Exec A) : Type ℓ where
  pub at : (db : Db) (e : Error) → (m db).0 ≡ err e → (m db).1 ≡ db

-- `m` does not raise.
pub record Returns {ℓ} {A : Type ℓ} (m : Exec A) : Type ℓ where
  pub at : (db : Db) → (a : A) × ((m db).0 ≡ ok a)

module _ {ℓ} {A : Type ℓ} where
  pub Reads-pure : (a : A) → Reads (pure a)
  Reads-pure a = record { at = λ db. refl }

  pub Reads-raise : (e : Error) → Reads (raise {A = A} e)
  Reads-raise e = record { at = λ db. refl }

  pub Reads-lift : (r : Result A) → Reads (lift r)
  Reads-lift r = record { at = λ db. refl }

  pub Reads-gets : (f : Db → A) → Reads (gets f)
  Reads-gets f = record { at = λ db. refl }

  pub Reads-require_some : (o : Option A) (e : Error) → Reads (require_some o e)
  Reads-require_some none e = record { at = λ db. refl }
  Reads-require_some (some a) e = record { at = λ db. refl }

  pub IsAtomic-of_Reads : {m : Exec A} → Reads m → IsAtomic m
  IsAtomic-of_Reads r = record { at = λ db e h. r.at db }

  rolled_back :
      (r : Result A) (after before : Db) (e : Error)
      → (transaction (λ _. (r, after)) before).0 ≡ err e
      → (transaction (λ _. (r, after)) before).1 ≡ before
  rolled_back (ok a) after before e h = cc
  rolled_back (err x) after before e h = refl

  pub IsAtomic-transaction : (m : Exec A) → IsAtomic (transaction m)
  IsAtomic-transaction m = record { at = λ db e. rolled_back (m db).0 (m db).1 db e }

  kept :
      (P : Db → Type 0) (r : Result A) (after before : Db)
      → P before
      → P after
      → P (transaction (λ _. (r, after)) before).1
  kept P (ok a) after before h k = k
  kept P (err x) after before h k = h

  pub Keeps-transaction : {P : Db → Type 0} (m : Exec A) → Keeps P m → Keeps P (transaction m)
  Keeps-transaction {P = P} m k = record { at = λ db h. kept P (m db).0 (m db).1 db h (k.at db h) }

pub Reads-require_that : (b : Bool) (e : Error) → Reads (require_that b e)
Reads-require_that true e = record { at = λ db. refl }
Reads-require_that false e = record { at = λ db. refl }

pub Returns-modify : (f : Db → Db) → Returns (modify f)
Returns-modify f = record { at = λ db. (tt, refl) }

pub IsAtomic-modify : (f : Db → Db) → IsAtomic (modify f)
IsAtomic-modify f = record { at = λ db e h. cc }

module _ {ℓ κ} {A : Type ℓ} {B : Type κ} where
  Reads-continue :
      (r : Result A) (f : A → Exec B) (before after : Db)
      → after ≡ before
      → ((a : A) → Reads (f a))
      → (continue r f after).1 ≡ before
  Reads-continue (ok a) f before after e k = rw (k a).at e
  Reads-continue (err x) f before after e k = e

  pub Reads-bind :
      (m : Exec A) (f : A → Exec B) → Reads m → ((a : A) → Reads (f a)) → Reads (m >>= f)
  unfolding ◌>>=◌
  Reads-bind m f r k = record { at = λ db. Reads-continue (m db).0 f db (m db).1 (r.at db) k }

  IsAtomic-continue :
      (r : Result A) (f : A → Exec B) (before after : Db) (e : Error)
      → after ≡ before
      → ((a : A) → IsAtomic (f a))
      → (continue r f after).0 ≡ err e
      → (continue r f after).1 ≡ before
  IsAtomic-continue (ok a) f before after e same k h = rw ((k a).at after e h) same
  IsAtomic-continue (err x) f before after e same k h = same

  -- First read, then act.
  pub IsAtomic-bind :
      (m : Exec A) (f : A → Exec B) → Reads m → ((a : A) → IsAtomic (f a)) → IsAtomic (m >>= f)
  unfolding ◌>>=◌
  IsAtomic-bind m f r k = record {
    at = λ db e. IsAtomic-continue (m db).0 f db (m db).1 e (r.at db) k;
  }

  never_raises :
      (r : Result A) (f : A → Exec B) (before after : Db) (e : Error)
      → ((x : Error) → r ≡ err x → after ≡ before)
      → ((a : A) → Returns (f a))
      → (continue r f after).0 ≡ err e
      → (continue r f after).1 ≡ before
  never_raises (ok a) f before after e atomic k h = let (b, p) = (k a).at after in cc
  never_raises (err x) f before after e atomic k h = atomic x refl

  raises_first :
      (r : Result A) (f : A → Exec B) (before after : Db) (e : Error)
      → ((x : Error) → r ≡ err x → after ≡ before)
      → ((a : A) → r ≡ ok a → (b : B) × ((f a after).0 ≡ ok b))
      → (continue r f after).0 ≡ err e
      → (continue r f after).1 ≡ before
  raises_first (ok a) f before after e atomic k h = let (b, p) = k a refl in cc
  raises_first (err x) f before after e atomic k h = atomic x refl

  -- Act, and then do what cannot raise.
  pub IsAtomic-bind-Returns :
      (m : Exec A) (f : A → Exec B) → IsAtomic m → ((a : A) → Returns (f a)) → IsAtomic (m >>= f)
  unfolding ◌>>=◌
  IsAtomic-bind-Returns m f r k = record {
    at = λ db e. never_raises (m db).0 f db (m db).1 e (r.at db) k;
  }

  -- Act, and then do what cannot raise after that.
  pub IsAtomic-bind-ok :
      (m : Exec A) (f : A → Exec B)
      → IsAtomic m
      → ((db : Db) (a : A) → (m db).0 ≡ ok a → (b : B) × ((f a (m db).1).0 ≡ ok b))
      → IsAtomic (m >>= f)
  unfolding ◌>>=◌
  IsAtomic-bind-ok m f r k = record {
    at = λ db e. raises_first (m db).0 f db (m db).1 e (r.at db) (k db);
  }

  Keeps-continue :
      (P : Db → Type 0) (r : Result A) (f : A → Exec B) (after : Db)
      → P after
      → ((a : A) → r ≡ ok a → Keeps P (f a))
      → P (continue r f after).1
  Keeps-continue P (ok a) f after h k = (k a refl).at after h
  Keeps-continue P (err x) f after h k = h

  pub Keeps-bind :
      {P : Db → Type 0} (m : Exec A) (f : A → Exec B)
      → Keeps P m
      → ((a : A) → Keeps P (f a))
      → Keeps P (m >>= f)
  unfolding ◌>>=◌
  Keeps-bind {P = P} m f r k = record {
    at = λ db h. Keeps-continue P (m db).0 f (m db).1 (r.at db h) (λ a _. k a);
  }

  lifted :
      (P : Db → Type 0) (r : Result A) (f : A → Exec B) (db : Db)
      → P db
      → ((a : A) → P (f a db).1)
      → P (continue r f db).1
  lifted P (ok a) f db h k = k a
  lifted P (err e) f db h k = h

  -- At one database: a computation that may raise, and then an action.
  pub lift_bind :
      (P : Db → Type 0) (r : Result A) (f : A → Exec B) (db : Db)
      → P db
      → ((a : A) → P (f a db).1)
      → P ((lift r >>= f) db).1
  unfolding ◌>>=◌
  lift_bind P r f db h k = lifted P r f db h k

  -- At one database: an action, and then one that keeps the property.
  pub bind_Keeps :
      (P : Db → Type 0) (m : Exec A) (f : A → Exec B) (db : Db)
      → P (m db).1
      → ((a : A) → Keeps P (f a))
      → P ((m >>= f) db).1
  unfolding ◌>>=◌
  bind_Keeps P m f db h k = Keeps-continue P (m db).0 f (m db).1 h (λ a _. k a)

module _ {ℓ} {A : Type ℓ} where
  pub Keeps-of_Reads : {P : Db → Type 0} (m : Exec A) → Reads m → Keeps P m
  Keeps-of_Reads {P = P} m r = record { at = λ db h. rw (r.at db) h }

pub ruleset reads_rules = (
  Reads-pure, Reads-raise, Reads-lift, Reads-gets, Reads-require_some, Reads-require_that,
  Reads-bind,
)
