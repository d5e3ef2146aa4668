-- ===== src/Api/Catch.antt =====
-- Catching a validation error changes the answer alone.
use flownexus.Models.Db.{Db}
use flownexus.Models.Exec.{
  Result, Exec, ok, err, Error, validation_error, does_not_exist, multiple_objects, value_error,
  key_error, overflow_error, integrity_error, index_error, http_404, command_error, field_error,
  type_error,
}
use flownexus.Models.Keeps.{Keeps}
use flownexus.Api.{Reply, refused_as, caught, catch_validation}

module _ (P : Db → Type 0) (A : Type 0) where
  refused-kept : (e : Error) (db : Db) → P db → P (refused_as {A = A} e db).1
  refused-kept validation_error db h = h
  refused-kept does_not_exist db h = h
  refused-kept multiple_objects db h = h
  refused-kept value_error db h = h
  refused-kept key_error db h = h
  refused-kept overflow_error db h = h
  refused-kept integrity_error db h = h
  refused-kept index_error db h = h
  refused-kept http_404 db h = h
  refused-kept command_error db h = h
  refused-kept field_error db h = h
  refused-kept type_error db h = h

  caught-kept : (x : Result (Reply A) × Db) → P x.1 → P (caught x).1
  caught-kept (ok a, db) h = h
  caught-kept (err e, db) h = refused-kept e db h

pub Keeps-catch :
    {A : Type 0} {P : Db → Type 0} (m : Exec (Reply A)) → Keeps P m → Keeps P (catch_validation m)
Keeps-catch {A} {P} m k = record { at = λ db h. caught-kept P A (m db) (k.at db h) }
