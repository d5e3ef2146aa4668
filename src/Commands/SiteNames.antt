-- ===== src/Commands/SiteNames.antt =====
-- The names of sites after `update_or_create` of one.
use flownexus.Prelude.{
  ℕ, ◌≡◌, refl, sym, ◌∙◌, subst, String, true, false, Option, none, some, ◌∷◌, ◌==◌, nat_key,
  text_key, arith, Bool-cases, inl, inr, if◌then◌else◌, nat_eq_iff, eq_iff,
}
use flownexus.Table.{Table, first, find, get, put, insert}
use flownexus.Table.Upsert.{none_exists}
use flownexus.Table.Laws.{IsValid, get-insert, get-put, get-next_id, insert-IsValid, put-IsValid}
use flownexus.Table.Search.{Elem-first, Elem-get, get-Elem, exists-intro}
use flownexus.Models.Rows.{Site}
use flownexus.Commands.{save_row}
use flownexus.Commands.Members.{SitesMap, site_named, is_named}

-- No two sites have one name.
abbrev pub Unique : Table Site → Type 0
Unique t =
    (name : String) (s z : ℕ)
    → is_named (get s t) (some name) ≡ true
    → is_named (get z t) (some name) ≡ true
    → s ≡ z

-- The site `k` is the only one of that name in `t`.
abbrev Only : String → ℕ → Table Site → Type 0
Only name k t = (s : ℕ) → is_named (get s t) (some name) ≡ (k == s)

-- Other names stand where they stood.
abbrev Others : String → Table Site → Table Site → Type 0
Others name t t' =
    (other : String) (s : ℕ)
    → (name == other) ≡ false
    → is_named (get s t') (some other) ≡ is_named (get s t) (some other)

nobody :
    (name : String) (t : Table Site) (s : ℕ)
    → first (site_named name) t.rows ≡ none
    → is_named (get s t) (some name) ≡ false
nobody name t s h = go (get s t) refl
  where
    go : (o : Option Site) → get s t ≡ o → is_named o (some name) ≡ false
    go none e = refl
    go (some site) e = elim (Bool-cases (site.name == name)) [
      | inr differs ↦ differs
      | inl same ↦
          let there = exists-intro (site_named name) (s, site) t.rows (Elem-get s site t e) same in
          let missing = none_exists (site_named name) t.rows h in cc
    ]

module _ (t : Table Site) (valid : IsValid t) where
  named-insert :
      (new : Site) (other : String) (s : ℕ)
      → is_named (get s (insert new t)) (some other)
        ≡ (if t.next_id == s then new.name == other else is_named (get s t) (some other))
  named-insert new other s = elim (Bool-cases (t.next_id == s)) [
    | inl e ↦ rw (get-insert s new t valid, e) refl
    | inr e ↦ rw (get-insert s new t valid, e) refl
  ]

  named-put :
      (k : ℕ) (old row : Site) (other : String) (s : ℕ)
      → get k t ≡ some old
      → row.name ≡ old.name
      → is_named (get s (put k row t)) (some other) ≡ is_named (get s t) (some other)
  named-put k old row other s h e = elim (Bool-cases (k == s)) [
    | inl same ↦
        let at_s : get s t ≡ some old = rw (sym ((nat_eq_iff k s).0 same)) h in
        rw (get-put k s row t, same, h, at_s, e) refl
    | inr apart ↦ rw (get-put k s row t, apart) refl
  ]

module _ (name : String) (new : Site) (change : Site → Site) (t : Table Site) (valid : IsValid t)
    (unique : Unique t) (called : new.name ≡ name)
    (keeps : (site : Site) → (change site).name ≡ site.name) where
  abbrev pub Saved : Option (ℕ × Site) → Type 0
  Saved found =
      let (k, t') = save_row found new change t in
      IsValid t' × Unique t' × Only name k t' × Others name t t'

  own_name : (new.name == name) ≡ true
  own_name = (eq_iff new.name name).1 called

  elsewhere :
      (other : String) (s : ℕ)
      → (name == other) ≡ false
      → (if t.next_id == s then new.name == other else is_named (get s t) (some other))
        ≡ is_named (get s t) (some other)
  elsewhere other s apart = elim (Bool-cases (t.next_id == s)) [
    | inl e ↦
        let free : get s t ≡ none =
          subst (λ n. get n t ≡ none) ((nat_eq_iff t.next_id s).0 e) (get-next_id t valid) in
        rw (e, free, called, apart) refl
    | inr e ↦ rw e refl
  ]

  only_one :
      (k : ℕ) (site : Site) (s : ℕ)
      → get k t ≡ some site
      → (site.name == name) ≡ true
      → is_named (get s t) (some name) ≡ (k == s)
  only_one k site s at_k own =
      let first_one : is_named (get k t) (some name) ≡ true = rw at_k own in
      elim (Bool-cases (is_named (get s t) (some name))) [
        | inl e ↦ e ∙ sym ((nat_eq_iff k s).1 (unique name k s first_one e))
        | inr e ↦ elim (Bool-cases (k == s)) [
          | inr apart ↦ e ∙ sym apart
          | inl same ↦
              let at_s : is_named (get s t) (some name) ≡ true =
                subst (λ n. is_named (get n t) (some name) ≡ true) ((nat_eq_iff k s).0 same)
                  first_one in
              cc
        ]
      ]

  new-Saved : first (site_named name) t.rows ≡ none → Saved none
  new-Saved h = (
    insert-IsValid new t valid,
    λ nm s z hs hz. ground (
      arith,
      named-insert t valid new nm s,
      named-insert t valid new nm z,
      nobody name t s h,
      nobody name t z h,
      unique nm s z,
      nat_eq_iff t.next_id s,
      nat_eq_iff t.next_id z,
      eq_iff new.name nm,
    ),
    λ s. named-insert t valid new name s ∙ elim (Bool-cases (t.next_id == s)) [
      | inl e ↦ rw e own_name
      | inr e ↦ rw e (nobody name t s h)
    ],
    λ other s apart. named-insert t valid new other s ∙ elsewhere other s apart,
  )

  old-Saved :
      (k : ℕ) (site : Site)
      → first (site_named name) t.rows ≡ some (k, site)
      → Saved (some (k, site))
  old-Saved k site h =
      let here = Elem-first (site_named name) (k, site) t.rows h in
      let at_k : get k t ≡ some site = get-Elem (k, site) t valid here.0 in
      let same =
        λ (nm : String) (s : ℕ). named-put t valid k site (change site) nm s at_k (keeps site) in
      (
        put-IsValid k (change site) t valid,
        λ nm s z hs hz. unique nm s z (sym (same nm s) ∙ hs) (sym (same nm z) ∙ hz),
        λ s. same name s ∙ only_one k site s at_k here.1,
        λ other s apart. same other s,
      )

  pub saved : (found : Option (ℕ × Site)) → first (site_named name) t.rows ≡ found → Saved found
  saved none h = new-Saved h
  saved (some (k, site)) h = old-Saved k site h

pub mapped :
    (name : String) (here : ℕ) (known : SitesMap) (t t' : Table Site)
    → Only name here t'
    → Others name t t'
    → ((other : String) (k s : ℕ)
        → find other known ≡ some k
        → is_named (get s t) (some other) ≡ (k == s))
    → (other : String) (k s : ℕ) → find other ((name, here) ∷ known) ≡ some k
    → is_named (get s t') (some other) ≡ (k == s)
mapped name here known t t' only others loaded other k s h = elim (Bool-cases (name == other)) [
  | inl same ↦
      let found : ◌≡◌ {A = Option ℕ} (some here) (some k) = rw same at h in
      let key : here ≡ k = cc in rw (sym ((eq_iff name other).0 same), sym key) (only s)
  | inr apart ↦ others other s apart ∙ loaded other k s (rw apart at h)
]
