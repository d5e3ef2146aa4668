-- ===== src/Models/Keeps.antt =====
-- What a block of statements does to the database, whether it returns or raises: `Keeps P` where a
-- predicate stays true, `Leads P Q` where one predicate is exchanged for another.
use flownexus.Prelude.{Bool, true, false, Option, none, some, List, [], ◌∷◌, if◌then◌else◌}
use flownexus.Models.Db.{Db}
use flownexus.Models.Exec.{
  Error, Result, ok, err, Exec, Action, pure, raise, gets, need, proceed, ◌>>=◌, when, for_each,
}

pub record Keeps {A : Type 0} (P : Db → Type 0) (m : Exec A) : Type 0 where
  pub at : (db : Db) → P db → P (m db).1

pub record Leads {A : Type 0} (P Q : Db → Type 0) (m : Exec A) : Type 0 where
  pub at : (db : Db) → P db → Q (m db).1

module _ {A : Type 0} {P : Db → Type 0} where
  pub Keeps-pure : (a : A) → Keeps P (pure a)
  Keeps-pure a = record { at = λ db h. h }

  pub Keeps-raise : (e : Error) → Keeps {A = A} P (raise e)
  Keeps-raise e = record { at = λ db h. h }

  pub Keeps-gets : (f : Db → A) → Keeps P (gets f)
  Keeps-gets f = record { at = λ db h. h }

  pub Keeps-need : (e : Error) (o : Option A) → Keeps P (need e o)
  Keeps-need e none = record { at = λ db h. h }
  Keeps-need e (some a) = record { at = λ db h. h }

  pub Keeps-if : (b : Bool) (m n : Exec A) → Keeps P m → Keeps P n → Keeps P (if b then m else n)
  Keeps-if true m n k l = k
  Keeps-if false m n k l = l

module _ {P : Db → Type 0} where
  pub Keeps-when : (b : Bool) (m : Action) → Keeps P m → Keeps P (when b m)
  Keeps-when true m k = k
  Keeps-when false m k = Keeps-pure tt

module _ {A B : Type 0} {P : Db → Type 0} where
  after-Keeps :
      (f : A → Exec B) (x : Result A × Db) → ((a : A) → Keeps P (f a)) → P x.1 → P (proceed f x).1
  after-Keeps f (ok a, db) k h = (k a).at db h
  after-Keeps f (err e, db) k h = h

  pub Keeps-bind :
      (m : Exec A) (f : A → Exec B) → Keeps P m → ((a : A) → Keeps P (f a)) → Keeps P (m >>= f)
  Keeps-bind m f k l = record { at = λ db h. after-Keeps f (m db) l (k.at db h) }

module _ {A : Type 0} {P : Db → Type 0} where
  pub Keeps-for_each :
      (f : A → Action) (xs : List A) → ((a : A) → Keeps P (f a)) → Keeps P (for_each f xs)
  Keeps-for_each f [] k = Keeps-pure tt
  Keeps-for_each f (x ∷ xs) k =
      Keeps-bind (f x) (λ _. for_each f xs) (k x) (λ _. Keeps-for_each f xs k)

pub ruleset keeps_rules = (
  Keeps-pure, Keeps-raise, Keeps-gets, Keeps-need, Keeps-if, Keeps-when, Keeps-bind, Keeps-for_each,
)

module _ {A B : Type 0} {P Q : Db → Type 0} (weaker : (db : Db) → P db → Q db) where
  after-Leads :
      (f : A → Exec B) (x : Result A × Db) → ((a : A) → Leads P Q (f a)) → P x.1 → Q (proceed f x).1
  after-Leads f (ok a, db) l h = (l a).at db h
  after-Leads f (err e, db) l h = weaker db h

  pub Leads-bind :
      (m : Exec A) (f : A → Exec B) → Keeps P m → ((a : A) → Leads P Q (f a)) → Leads P Q (m >>= f)
  Leads-bind m f k l = record { at = λ db h. after-Leads f (m db) l (k.at db h) }

module _ {A : Type 0} {P Q : Db → Type 0} (weaker : (db : Db) → P db → Q db) where
  pub Leads-Keeps : (m : Exec A) → Keeps P m → Leads P Q m
  Leads-Keeps m k = record { at = λ db h. weaker (m db).1 (k.at db h) }

module _ {A : Type 0} {P Q : Db → Type 0} where
  pub Leads-if :
      (b : Bool) (m n : Exec A) → Leads P Q m → Leads P Q n → Leads P Q (if b then m else n)
  Leads-if true m n k l = k
  Leads-if false m n k l = l
