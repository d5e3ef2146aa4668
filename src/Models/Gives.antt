-- ===== src/Models/Gives.antt =====
-- What a block of statements hands on: the value that it returns may appear in what is then true of
-- the database, and what an exception leaves is stated apart.
use flownexus.Models.Db.{Db}
use flownexus.Models.Exec.{Result, ok, err, Exec, pure, proceed, ◌>>=◌}
use flownexus.Models.Keeps.{Keeps}

-- `Q` of what was returned, or `R` after an exception.
abbrev pub Ends : {A : Type 0} → (A → Db → Type 0) → (Db → Type 0) → Result A × Db → Type 0
Ends Q R (ok a, db) = Q a db
Ends Q R (err e, db) = R db

pub record Gives {A : Type 0} (P : Db → Type 0) (Q : A → Db → Type 0) (R : Db → Type 0) (m : Exec A)
    : Type 0 where
  pub at : (db : Db) → P db → Ends Q R (m db)

module _ {A B : Type 0} {R : Db → Type 0} (Q : A → Db → Type 0) (T : B → Db → Type 0) where
  after-Gives :
      (f : A → Exec B) (x : Result A × Db)
      → ((a : A) → Gives (Q a) T R (f a))
      → Ends Q R x
      → Ends T R (proceed f x)
  after-Gives f (ok a, db) g h = (g a).at db h
  after-Gives f (err e, db) g h = h

module _ {P R : Db → Type 0} where
  pub Gives-pure :
      {A : Type 0} {Q : A → Db → Type 0} (a : A)
      → ((db : Db) → P db → Q a db)
      → Gives P Q R (pure a)
  Gives-pure a h = record { at = h }

  module _ {A B : Type 0} {Q : A → Db → Type 0} {T : B → Db → Type 0} where
    pub Gives-bind :
        (m : Exec A) (f : A → Exec B)
        → Gives P Q R m
        → ((a : A) → Gives (Q a) T R (f a))
        → Gives P T R (m >>= f)
    Gives-bind m f g l = record { at = λ db h. after-Gives Q T f (m db) l (g.at db h) }

  module _ {A : Type 0} (stops : (db : Db) → P db → R db) where
    either_way_kept : (x : Result A × Db) → P x.1 → Ends (λ _. P) R x
    either_way_kept (ok a, db) h = h
    either_way_kept (err e, db) h = stops db h

    pub Gives-Keeps : (m : Exec A) → Keeps P m → Gives P (λ _. P) R m
    Gives-Keeps m k = record { at = λ db h. either_way_kept (m db) (k.at db h) }

either_way : {A : Type 0} (R : Db → Type 0) (x : Result A × Db) → Ends (λ _. R) R x → R x.1
either_way R (ok a, db) h = h
either_way R (err e, db) h = h

module _ {A : Type 0} {P R : Db → Type 0} where
  -- Whether it returns or raises.
  pub Gives-left : (m : Exec A) → Gives P (λ _. R) R m → (db : Db) → P db → R (m db).1
  Gives-left m g db h = either_way R (m db) (g.at db h)
