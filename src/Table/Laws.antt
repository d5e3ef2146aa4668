-- ===== src/Table/Laws.antt =====
-- The laws of tables: what a lookup finds after each operation, and that keys stay in order.
use flownexus.Prelude.{
  ℕ, suc, ◌≤◌, ◌≡◌, refl, Bool, Option, none, some, [], ◌∷◌, ◌++◌, Key, ◌==◌, nat_key, not,
  if◌then◌else◌, arith, nat_eq_iff, Bool-cases, inl, inr,
}
use flownexus.Table.{Rows, Table, select, update_where, find, write, insert, get, put, delete_where}

abbrev pub replaced : {A : Type 0} → Option A → A → Option A
replaced none a = none
replaced (some b) a = some a

module _ {K A : Type 0} ⦃e : Key K⦄ where
  pub find-write :
      (k j : K) (a : A) (r : Rows K A)
      → find j (write k a r) ≡ (if k == j then replaced (find k r) a else find j r)
  find-write k j a [] = ground arith
  find-write k j a ((i, b) ∷ r) =
      ground (arith, find-write k j a r, e.same_iff k j, e.same_iff i k, e.same_iff i j)

  pub find-append :
      (j k : K) (a : A) (r : Rows K A)
      → find j (r ++ (k, a) ∷ [])
        ≡ elim (find j r) [ none ↦ (if k == j then some a else none) | some b ↦ some b ]
  find-append j k a [] = refl
  find-append j k a ((i, b) ∷ r) = ground (arith, find-append j k a r)

  -- An update through a test keeps every key.
  pub find-update_where :
      (p : K → A → Bool) (f : A → A) (j : K) (r : Rows K A)
      → find j (update_where p f r)
        ≡ elim (find j r) [ none ↦ none | some b ↦ some (if p j b then f b else b) ]
  find-update_where p f j [] = refl
  find-update_where p f j ((i, b) ∷ r) = elim (Bool-cases (i == j)) [
    | inl same ↦ rw (same, (e.same_iff i j).0 same) refl
    | inr other ↦ rw other (find-update_where p f j r)
  ]

-- Keys rise from `lo`, and all are below `hi`.
abbrev pub Rising : {A : Type 0} → ℕ → Rows ℕ A → ℕ → Type 0
Rising lo [] hi = lo ≤ hi
Rising lo ((k, a) ∷ r) hi = (lo ≤ k) × Rising (suc k) r hi

abbrev pub IsValid : {A : Type 0} → Table A → Type 0
IsValid t = Rising 0 t.rows t.next_id

module _ {A : Type 0} where
  Rising-append :
      (lo hi : ℕ) (a : A) (r : Rows ℕ A) → Rising lo r hi → Rising lo (r ++ (hi, a) ∷ []) (suc hi)
  Rising-append lo hi a [] h = omega arith
  Rising-append lo hi a ((k, b) ∷ r) h = (h.0, Rising-append (suc k) hi a r h.1)

  Rising-write : (lo hi k : ℕ) (a : A) (r : Rows ℕ A) → Rising lo r hi → Rising lo (write k a r) hi
  Rising-write lo hi k a [] h = h
  Rising-write lo hi k a ((j, b) ∷ r) h = (h.0, Rising-write (suc j) hi k a r h.1)

  Rising-weaken : (lo lo' hi : ℕ) (r : Rows ℕ A) → lo' ≤ lo → Rising lo r hi → Rising lo' r hi
  Rising-weaken lo lo' hi [] le h = omega arith
  Rising-weaken lo lo' hi ((k, b) ∷ r) le h = (omega arith, h.1)

  Rising-select :
      (p : ℕ → A → Bool) (lo hi : ℕ) (r : Rows ℕ A) → Rising lo r hi → Rising lo (select p r) hi
  Rising-select p lo hi [] h = h
  Rising-select p lo hi ((k, b) ∷ r) h = elim (Bool-cases (p k b)) [
    | inl kept ↦ rw kept (h.0, Rising-select p (suc k) hi r h.1)
    | inr left ↦
        rw left (
          Rising-weaken (suc k) lo hi (select p r) (omega arith) (Rising-select p (suc k) hi r h.1))
  ]

  Rising-le : (lo hi : ℕ) (r : Rows ℕ A) → Rising lo r hi → lo ≤ hi
  Rising-le lo hi [] h = h
  Rising-le lo hi ((k, b) ∷ r) h = omega (arith, Rising-le (suc k) hi r h.1)

  -- No row stands under a key that has not been given.
  find-above : (lo hi j : ℕ) (r : Rows ℕ A) → Rising lo r hi → hi ≤ j → find j r ≡ none
  find-above lo hi j [] h le = refl
  find-above lo hi j ((k, b) ∷ r) h le =
      ground (arith, find-above (suc k) hi j r h.1 le, Rising-le (suc k) hi r h.1)

  pub insert-IsValid : (a : A) (t : Table A) → IsValid t → IsValid (insert a t)
  insert-IsValid a t h = Rising-append 0 t.next_id a t.rows h

  pub put-IsValid : (k : ℕ) (a : A) (t : Table A) → IsValid t → IsValid (put k a t)
  put-IsValid k a t h = Rising-write 0 t.next_id k a t.rows h

  pub delete_where-IsValid :
      (p : ℕ → A → Bool) (t : Table A) → IsValid t → IsValid (delete_where p t)
  delete_where-IsValid p t h = Rising-select (λ k a. not (p k a)) 0 t.next_id t.rows h

  pub get-next_id : (t : Table A) → IsValid t → get t.next_id t ≡ none
  get-next_id t h = find-above 0 t.next_id t.next_id t.rows h (omega arith)

  pub get-insert :
      (j : ℕ) (a : A) (t : Table A)
      → IsValid t
      → get j (insert a t) ≡ (if t.next_id == j then some a else get j t)
  get-insert j a t h =
      ground (arith, find-append j t.next_id a t.rows, get-next_id t h, nat_eq_iff t.next_id j)

  pub get-put :
      (k j : ℕ) (a : A) (t : Table A)
      → get j (put k a t) ≡ (if k == j then replaced (get k t) a else get j t)
  get-put k j a t = find-write k j a t.rows
