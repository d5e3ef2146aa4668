-- ===== src/Table.antt =====
-- A table of the database behind `objects`: rows under a primary key, in the order in which they
-- were created. `Table` gives keys itself, as an AutoField does; `Named` is keyed by a text.
pub mod Laws
pub mod Search
pub mod Batch
pub mod Sorted
pub mod Single
pub mod Upsert
use flownexus.Prelude.{
  ℕ, suc, ◌+◌, ◌≤◌, ◌<◌, String, Bool, true, false, Option, none, some, List, [], ◌∷◌, ◌++◌, Key,
  ◌==◌, nat_key, not, if◌then◌else◌,
}

-- A row with its key.
abbrev pub Rows : Type 0 → Type 0 → Type 0
Rows K A = List (K × A)

module _ {K A : Type 0} where
  -- `filter(…)`, in the order of keys.
  abbrev pub select : (K → A → Bool) → Rows K A → Rows K A
  select p [] = []
  select p ((k, a) ∷ r) = let rest = select p r in if p k a then (k, a) ∷ rest else rest

  -- `filter(…).first()`
  abbrev pub first : (K → A → Bool) → Rows K A → Option (K × A)
  first p [] = none
  first p ((k, a) ∷ r) = let rest = first p r in if p k a then some (k, a) else rest

  -- `filter(…).exists()`
  abbrev pub exists : (K → A → Bool) → Rows K A → Bool
  exists p [] = false
  exists p ((k, a) ∷ r) = if p k a then true else exists p r

  -- `filter(…).count()`
  abbrev pub count : (K → A → Bool) → Rows K A → ℕ
  count p [] = 0
  count p ((k, a) ∷ r) = (if p k a then 1 else 0) + count p r

  -- `filter(…).update(…)`
  abbrev pub update_where : (K → A → Bool) → (A → A) → Rows K A → Rows K A
  update_where p f [] = []
  update_where p f ((k, a) ∷ r) = (k, if p k a then f a else a) ∷ update_where p f r

module _ {K A : Type 0} ⦃e : Key K⦄ where
  -- `filter(pk=k).first()`
  abbrev pub find : K → Rows K A → Option A
  find k [] = none
  find k ((j, a) ∷ r) = if j == k then some a else find k r

  -- `save()` of an object that stands in the table: every column of its row is written.
  abbrev pub write : K → A → Rows K A → Rows K A
  write k a [] = []
  write k a ((j, b) ∷ r) = (j, if j == k then a else b) ∷ write k a r

-- A table that numbers its rows.
pub record Table (A : Type 0) : Type 0 where
  pub rows : Rows ℕ A
  pub next_id : ℕ

module _ {A : Type 0} where
  abbrev pub empty : Table A
  empty = record { rows = []; next_id = 1 }

  -- `objects.create(…)`: the new row's key is `t.next_id`.
  abbrev pub insert : A → Table A → Table A
  insert a t = record { rows = t.rows ++ (t.next_id, a) ∷ []; next_id = suc t.next_id }

  -- `objects.get(pk=k)`
  abbrev pub get : ℕ → Table A → Option A
  get k t = find k t.rows

  -- `save()` of a row that was read before.
  abbrev pub put : ℕ → A → Table A → Table A
  put k a t = record t { rows = write k a t.rows }

  -- `delete()` of the rows that the test selects.
  abbrev pub delete_where : (ℕ → A → Bool) → Table A → Table A
  delete_where p t = record t { rows = select (λ k a. not (p k a)) t.rows }
