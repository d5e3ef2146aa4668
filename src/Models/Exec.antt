-- ===== src/Models/Exec.antt =====
-- Python code that reads and writes the database and may raise. Each statement commits by itself, so
-- what was written before an exception stays written, except inside `transaction.atomic()`.
use flownexus.Prelude.{◌≡◌, refl, ap, Bool, Option, none, some, List, [], ◌∷◌, ◌++◌, if◌then◌else◌}
use flownexus.Models.Rows.{Task}
use flownexus.Models.Db.{Db}

pub data Error : Type 0 where
  validation_error does_not_exist multiple_objects value_error key_error overflow_error : Error
  integrity_error index_error http_404 command_error field_error type_error : Error

pub data Result (A : Type 0) : Type 0 where
  ok : A → Result A
  err : Error → Result A

abbrev pub Exec : Type 0 → Type 0
Exec A = Db → Result A × Db

abbrev pub Action : Type 0
Action = Exec (Unit {0})

module _ {A : Type 0} where
  abbrev pub pure : A → Exec A
  pure a db = (ok a, db)

  abbrev pub raise : Error → Exec A
  raise e db = (err e, db)

  abbrev pub gets : (Db → A) → Exec A
  gets f db = (ok (f db), db)

  -- The value, or the exception that a missing one raises.
  abbrev pub need : Error → Option A → Exec A
  need e none = raise e
  need e (some a) = pure a

  -- `with transaction.atomic():` an exception undoes what was written.
  abbrev pub roll_back : Db → Result A × Db → Result A × Db
  roll_back before (ok a, after) = (ok a, after)
  roll_back before (err e, after) = (err e, before)

  abbrev pub atomic : Exec A → Exec A
  atomic m db = roll_back db (m db)

-- The statements after one that has ended so.
abbrev pub proceed : {A B : Type 0} → (A → Exec B) → Result A × Db → Result B × Db
proceed f (ok a, db) = f a db
proceed f (err e, db) = (err e, db)

infixl 8 ◌>>=◌ ◌>>◌
abbrev pub ◌>>=◌ : {A B : Type 0} → Exec A → (A → Exec B) → Exec B
◌>>=◌ m f db = proceed f (m db)

abbrev pub ◌>>◌ : {A B : Type 0} → Exec A → Exec B → Exec B
m >> k = m >>= λ _. k

abbrev pub done : Action
done = pure tt

abbrev pub modify : (Db → Db) → Action
modify f db = (ok tt, f db)

-- `if test: …`
abbrev pub when : Bool → Action → Action
when b m = if b then m else done

-- `for x in xs: …`
abbrev pub for_each : {A : Type 0} → (A → Action) → List A → Action
for_each f [] = done
for_each f (x ∷ xs) = f x >> for_each f xs

-- `task.delay(…)`
abbrev pub delay : Task → Action
delay t = modify (λ db. record db { tasks = db.tasks ++ t ∷ [] })

-- A call that returns hands on its value and its state.
pub bind-ok :
    {A B : Type 0} (m : Exec A) (f : A → Exec B) (db : Db) {a : A} {after : Db}
    → m db ≡ (ok a, after)
    → (m >>= f) db ≡ f a after
bind-ok m f db e = ap (proceed f) e

-- A call whose value is known hands on its state.
pub proceed-ok :
    {A B : Type 0} (f : A → Exec B) (x : Result A × Db) (a : A) → x.0 ≡ ok a → proceed f x ≡ f a x.1
proceed-ok f (ok b, db) a e = cc
proceed-ok f (err q, db) a e = cc

pub state_of : {A : Type 0} {x y : Result A × Db} → x ≡ y → x.1 ≡ y.1
state_of e = ap (λ p. p.1) e

-- A block that returned has called its first part, which returned.
pub bind-returned :
    {A B : Type 0} (m : Exec A) (f : A → Exec B) (db : Db) {b : B} {after : Db}
    → (m >>= f) db ≡ (ok b, after)
    → (a : A) × (mid : Db) × (m db ≡ (ok a, mid)) × (f a mid ≡ (ok b, after))
bind-returned {A} {B} m f db {b} {after} h = ended (m db) refl h
  where
    ended :
        (x : Result A × Db)
        → m db ≡ x
        → proceed f x ≡ (ok b, after)
        → (a : A) × (mid : Db) × (m db ≡ (ok a, mid)) × (f a mid ≡ (ok b, after))
    ended (ok a, mid) e q = (a, mid, e, q)
    ended (err x, mid) e q = cc
