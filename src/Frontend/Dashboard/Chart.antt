-- ===== src/Frontend/Dashboard/Chart.antt =====
-- The chart of the dashboard counts every reading of its span once.
use native.Mathlib.Nat.{suc-mul}
use flownexus.Prelude.{
  ℕ, zero, suc, ◌+◌, ◌*◌, ◌≤◌, ◌≡◌, refl, sym, String, List, [], ◌∷◌, arith, if◌then◌else◌,
}
use flownexus.Table.{Rows, count}
use flownexus.Models.Rows.{Endpoint, Resource}
use flownexus.Frontend.Dashboard.{in_step, chart}

abbrev pub total : List (ℕ × ℕ) → ℕ
total [] = 0
total ((t, n) ∷ rest) = n + total rest

module _ (eps : Rows String Endpoint) where
  row_split :
      (from mid to k : ℕ) (r : Resource)
      → from ≤ mid
      → mid ≤ to
      → (if in_step eps from mid k r then 1 else 0) + (if in_step eps mid to k r then 1 else 0)
        ≡ (if in_step eps from to k r then 1 else 0)
  row_split from mid to k r a b = ground arith

  count_split :
      (from mid to : ℕ) (rows : Rows ℕ Resource)
      → from ≤ mid
      → mid ≤ to
      → count (in_step eps from mid) rows + count (in_step eps mid to) rows
        ≡ count (in_step eps from to) rows
  count_split from mid to [] a b = refl
  count_split from mid to ((k, r) ∷ rows) a b =
      omega (arith, row_split from mid to k r a b, count_split from mid to rows a b)

  count_empty : (from : ℕ) (rows : Rows ℕ Resource) → count (in_step eps from from) rows ≡ 0
  count_empty from [] = refl
  count_empty from ((k, r) ∷ rows) = ground (arith, count_empty from rows)

  -- The counts of the steps add up to the number of readings of these endpoints from the first step's
  -- begin to the last step's end, so that no reading is missed or counted twice.
  pub total-chart :
      (rows : Rows ℕ Resource) (delta n from : ℕ)
      → total (chart eps rows delta n from) ≡ count (in_step eps from (from + n * delta)) rows
  unfolding chart
  total-chart rows delta zero from =
      let same : from + 0 * delta ≡ from = omega arith in rw same (sym (count_empty from rows))
  total-chart rows delta (suc n) from =
      let shift : from + suc n * delta ≡ from + delta + n * delta =
        omega (arith, suc-mul n delta) in
      rw (shift, total-chart rows delta n (from + delta))
        (count_split from (from + delta) (from + delta + n * delta) rows (omega arith)
          (omega arith))
