-- ===== src/Ingest/Stored.antt =====
-- The value that `handle_resource` stores is the one that `get_value` reads back.
use flownexus.Prelude.{
  ℕ, ◌≡◌, refl, String, Bool, false, Option, none, some, List, inl, inr, Option-cases, Bool-cases,
  if◌then◌else◌,
}
use flownexus.Prelude.Int.{ℤ, fits_column}
use flownexus.Text.Number.{int}
use flownexus.Text.Hex.{fromhex}
use flownexus.Models.Rows.{
  DataType, time, string, opaque, integer, float, boolean, none_type, other, ResourceType, Resource,
}
use flownexus.Models.Db.{Db}
use flownexus.Models.Exec.{Result, ok, err, validation_error, value_error, overflow_error}
use flownexus.Models.Device.{
  Field, int_value, float_value, str_value, Value, number, decimal, text, bytes, value_field,
  get_value, column, bare_resource,
}
use flownexus.Fota.{check_column}
use flownexus.Ingest.Resource.{typed_row, store_text, is_opaque}

-- What a column makes of an integer.
abbrev integer_value : Option ℤ → Result Value
integer_value none = err value_error
integer_value (some z) = if fits_column z then ok (number z) else err overflow_error

abbrev bytes_value : Option (List ℕ) → Result Value
bytes_value none = err value_error
bytes_value (some b) = ok (bytes b)

-- The value that a text stands for in a resource of a data type, or how reading it fails.
abbrev pub read_as : (String → Bool) → DataType → String → Result Value
read_as is_float time v = integer_value (int v)
read_as is_float integer v = integer_value (int v)
read_as is_float boolean v = integer_value (int v)
read_as is_float float v = if is_float v then ok (decimal v) else err value_error
read_as is_float string v = ok (text v)
read_as is_float opaque v = bytes_value (fromhex v)
read_as is_float none_type v = err validation_error
read_as is_float (other t) v = err validation_error

abbrev pub read_row : ResourceType → Result Resource → Result Value
read_row rt (ok r) = ok (get_value rt r)
read_row rt (err e) = err e

module _ (is_float : String → Bool) (ep : String) (k : ℕ) (v : String) (db : Db) where
  int-read :
      (rt : ResourceType)
      → value_field rt.data_type ≡ some int_value
      → read_row rt (store_text is_float int_value v (bare_resource ep k) db).0
        ≡ integer_value (int v)
  unfolding store_text check_column get_value column
  int-read rt h = elim (Option-cases (int v)) [
    | inl bad ↦ simp bad refl
    | inr (z, good) ↦ elim (Bool-cases (fits_column z)) [
      | inl fits ↦ simp (good, fits, h) refl
      | inr large ↦ simp (good, large) refl
    ]
  ]

  as_integer :
      (rt : ResourceType) (t : DataType) (field : Field)
      → rt.data_type ≡ t
      → is_opaque t ≡ false
      → value_field t ≡ some int_value
      → value_field t ≡ some field
      → read_row rt (typed_row is_float rt field v (bare_resource ep k) db).0
        ≡ integer_value (int v)
  unfolding typed_row
  as_integer rt t field e shut here h =
      let same : field ≡ int_value = cc in simp (e, shut, same) (int-read rt (rw e here))

  as_float :
      (rt : ResourceType) (t : DataType)
      → rt.data_type ≡ float
      → read_row rt (typed_row is_float rt float_value v (bare_resource ep k) db).0
        ≡ (if is_float v then ok (decimal v) else err value_error)
  unfolding typed_row store_text value_field get_value column
  as_float rt t e = elim (Bool-cases (is_float v)) [
    | inl good ↦ simp (e, good) refl
    | inr bad ↦ simp (e, bad) refl
  ]

  as_bytes :
      (rt : ResourceType) (field : Field)
      → rt.data_type ≡ opaque
      → read_row rt (typed_row is_float rt field v (bare_resource ep k) db).0
        ≡ bytes_value (fromhex v)
  unfolding typed_row value_field get_value column
  as_bytes rt field e = elim (Option-cases (fromhex v)) [
    | inl bad ↦ simp (e, bad) refl
    | inr (b, good) ↦ simp (e, good) refl
  ]

  by_type :
      (rt : ResourceType) (field : Field) (t : DataType)
      → rt.data_type ≡ t
      → value_field t ≡ some field
      → read_row rt (typed_row is_float rt field v (bare_resource ep k) db).0 ≡ read_as is_float t v
  unfolding value_field
  by_type rt field time e h = as_integer rt time field e refl refl h
  by_type rt field integer e h = as_integer rt integer field e refl refl h
  by_type rt field boolean e h = as_integer rt boolean field e refl refl h
  by_type rt field float e h = let same : field ≡ float_value = cc in rw same (as_float rt float e)
  by_type rt field string e h =
      let same : field ≡ str_value = cc in
      unfold typed_row store_text get_value column in simp (same, e) refl
  by_type rt field opaque e h = as_bytes rt field e
  by_type rt field none_type e h = cc
  by_type rt field (other t) e h = cc

  -- The row that is stored reads back as the value that its text stands for in the resource type's
  -- data type; where the text stands for none, the row is refused with the same error.
  pub typed_row-get_value :
      (rt : ResourceType) (field : Field)
      → value_field rt.data_type ≡ some field
      → read_row rt (typed_row is_float rt field v (bare_resource ep k) db).0
        ≡ read_as is_float rt.data_type v
  typed_row-get_value rt field h = by_type rt field rt.data_type refl h
