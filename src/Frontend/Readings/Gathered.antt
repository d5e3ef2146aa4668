-- ===== src/Frontend/Readings/Gathered.antt =====
-- What `res_data` holds of an event.
use flownexus.Prelude.{
  ℕ, ◌≡◌, refl, ap, sym, ◌∙◌, true, false, Option, none, some, List, [], ◌∷◌, ◌++◌, arith,
  append-nil, append_assoc, nat_eq, nat_eq_iff, Bool-cases, inl, inr, ◌↔◌, if◌then◌else◌,
}
use flownexus.Text.{same_codes}
use flownexus.Models.Db.{Db}
use flownexus.Frontend.Pump.{links_of}
use flownexus.Frontend.Readings.Cells.{
  Shown, Name, named_values, Held, one, several, extended, ResData, remember, gathered, res_data,
  held,
}

pub same_codes_iff : (s t : List ℕ) → (same_codes s t ≡ true) ↔ (s ≡ t)
same_codes_iff [] [] = (λ _. refl, λ _. refl)
same_codes_iff [] (d ∷ t) = (λ h. cc, λ h. cc)
same_codes_iff (c ∷ s) [] = (λ h. cc, λ h. cc)
same_codes_iff (c ∷ s) (d ∷ t) =
    let rest = same_codes_iff s t in
    (
      λ h.
          let head_same : c ≡ d = ground (arith, nat_eq_iff c d) in
          let tail_same : s ≡ t = rest.0 (ground arith) in cc,
      λ e.
          let head_same : nat_eq c d ≡ true = (nat_eq_iff c d).1 (cc) in
          let tail_same : same_codes s t ≡ true = rest.1 (cc) in rw (head_same, tail_same) refl,
    )

-- The values of a name, in their order.
abbrev pub values_named : Name → List (Name × Shown) → List Shown
values_named name [] = []
values_named name ((n, v) ∷ rest) =
    let later = values_named name rest in if same_codes n name then v ∷ later else later

-- One value stands by itself, several are a list.
abbrev pub as_held : List Shown → Option Held
as_held [] = none
as_held (v ∷ []) = some (one v)
as_held (v ∷ w ∷ vs) = some (several (v ∷ w ∷ vs))

abbrev grown : Option Held → Shown → Held
grown none v = one v
grown (some h) v = extended h v

abbrev grown_by : Option Held → List Shown → Option Held
grown_by o [] = o
grown_by o (v ∷ vs) = grown_by (some (grown o v)) vs

grown_by-several :
    (ws vs : List Shown) → grown_by (some (several ws)) vs ≡ some (several (ws ++ vs))
grown_by-several ws [] = ap (λ xs. some (several xs)) (sym (append-nil ws))
grown_by-several ws (v ∷ vs) =
    grown_by-several (ws ++ v ∷ []) vs ∙ ap (λ xs. some (several xs)) (append_assoc ws (v ∷ []) vs)

grown_by-none : (vs : List Shown) → grown_by none vs ≡ as_held vs
grown_by-none [] = refl
grown_by-none (v ∷ []) = refl
grown_by-none (v ∷ w ∷ vs) = grown_by-several (v ∷ w ∷ []) vs

held-remember :
    (name n : Name) (v : Shown) (d : ResData)
    → held name (remember n v d)
      ≡ (if same_codes n name then some (grown (held name d) v) else held name d)
unfolding remember
held-remember name n v [] = refl
held-remember name n v ((m, h) ∷ d) = elim (Bool-cases (same_codes m n)) [
  | inl same ↦
      let key : m ≡ n = (same_codes_iff m n).0 same in
      rw (same, key)
        (elim (Bool-cases (same_codes n name)) [ inl e ↦ rw e refl | inr e ↦ rw e refl ])
  | inr apart ↦ rw apart (elim (Bool-cases (same_codes m name)) [
    | inl e ↦
        let key : m ≡ name = (same_codes_iff m name).0 e in
        let other : same_codes n name ≡ false = elim (Bool-cases (same_codes n name)) [
          | inr f ↦ f
          | inl f ↦
              let clash : same_codes m n ≡ true =
                (same_codes_iff m n).1 (key ∙ sym ((same_codes_iff n name).0 f)) in
              cc
        ] in
        rw (e, other) refl
    | inr e ↦ rw e (held-remember name n v d)
  ])
]

held-gathered :
    (name : Name) (xs : List (Name × Shown)) (d : ResData)
    → held name (gathered xs d) ≡ grown_by (held name d) (values_named name xs)
unfolding gathered
held-gathered name [] d = refl
held-gathered name ((n, v) ∷ xs) d =
    held-gathered name xs (remember n v d) ∙ (elim (Bool-cases (same_codes n name)) [
      | inl e ↦ rw (held-remember name n v d, e) refl
      | inr e ↦ rw (held-remember name n v d, e) refl
    ])

-- `res_data` of an event holds, under each name, the values of the event's resources with that name, in
-- the order of their links: one value by itself, several as a list, and nothing where there is none.
pub held-res_data :
    (db : Db) (event : ℕ) (name : Name)
    → held name (res_data db event)
      ≡ as_held (values_named name (named_values db (links_of db event)))
unfolding res_data
held-res_data db event name =
    let xs = named_values db (links_of db event) in
    held-gathered name xs [] ∙ grown_by-none (values_named name xs)
