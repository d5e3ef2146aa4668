-- ===== src/Commands/Granted.antt =====
-- The memberships that `load_user` leaves.
use flownexus.Prelude.{
  ℕ, ◌≡◌, refl, String, Bool, true, false, Option, none, some, ◌==◌, nat_key, text_key, Bool-cases,
  inl, inr, if◌then◌else◌, eq_iff,
}
use flownexus.Table.{Table, first}
use flownexus.Table.Laws.{IsValid}
use flownexus.Models.Rows.{User}
use flownexus.Models.Db.{Db}
use flownexus.Models.Exec.{Result, ok, err, command_error}
use flownexus.Commands.{update_or_create}
use flownexus.Commands.Stored.{
  row_of, stored, update_or_create-first, update_or_create-kept, update_or_create-IsValid,
}
use flownexus.Commands.Members.{
  UserConfig, SitesMap, credentials, some_text, load_memberships, load_user, store_user,
}
use flownexus.Commands.Memberships.{granted}
use flownexus.Commands.Provided.{Loaded, as_listed, load_memberships-Provided}

pub some_text_lem : (o : Option String) (t : String) → some_text o ≡ some t → o ≡ some t
some_text_lem none t h = cc
some_text_lem (some x) t h = elim (Bool-cases (x == "")) [
  | inl e ↦ let refused : ◌≡◌ {A = Option String} none (some t) = rw e at h in cc
  | inr e ↦ rw e at h
]

abbrev pub called : String → ℕ → User → Bool
called name _ x = x.username == name

-- What is stored of the user.
abbrev pub Stored : UserConfig → ℕ → Table User → Type 0
Stored c u t =
    (name : String) × (row : User) × (c.username ≡ some name)
    × (first (called name) t.rows ≡ some (u, row))
    × (row.is_superuser ≡ c.is_superuser)
    × (row.is_staff ≡ c.is_superuser)

-- Whether the entry is about the user of that name.
abbrev pub is_user : String → UserConfig → Bool
is_user name c = elim c.username [ none ↦ false | some n ↦ n == name ]

-- The user, what each user may do at each site, and that other users stand as they were.
abbrev pub UserLoaded : SitesMap → UserConfig → ℕ → Db → Db → Type 0
UserLoaded known c u before after =
    Stored c u after.users
    × ((w s : ℕ)
        → granted w s after.memberships ≡ (
            if w == u
            then as_listed known c.is_superuser c.sites s
            else granted w s before.memberships))
    × ((other : String)
        → is_user other c ≡ false
        → first (called other) after.users.rows ≡ first (called other) before.users.rows)

-- What the next user entry needs.
abbrev pub Ready : SitesMap → Db → Type 0
Ready known db = IsValid db.users × IsValid db.memberships × Loaded known db

credentials_named :
    (c : UserConfig) (name : String) → credentials c ≡ some name → c.username ≡ some name
credentials_named c name h = go (some_text c.password) refl
  where
    go : (o : Option String) → some_text c.password ≡ o → c.username ≡ some name
    go none e =
        let refused : ◌≡◌ {A = Option String} none (some name) = rw (e, credentials) at h in cc
    go (some secret) e = some_text_lem c.username name (rw (e, credentials) at h)

module _ (c : UserConfig) where
  abbrev fresh_user : String → User
  fresh_user name = record {
    username = name;
    email = "";
    is_superuser = c.is_superuser;
    is_staff = c.is_superuser;
  }

  abbrev flagged : User → User
  flagged x = record x { is_superuser = c.is_superuser; is_staff = c.is_superuser }

  flags :
      (name : String) (o : Option User)
      → ((stored (fresh_user name) flagged o).is_superuser ≡ c.is_superuser)
        × ((stored (fresh_user name) flagged o).is_staff ≡ c.is_superuser)
  flags name none = (refl, refl)
  flags name (some x) = (refl, refl)

called_apart :
    (name other : String) (k : ℕ) (x : User)
    → (name == other) ≡ false
    → called name k x ≡ true
    → called other k x ≡ false
called_apart name other k x apart h =
    let key : x.username ≡ name = (eq_iff x.username name).0 h in rw key apart

-- A user entry that `load_user` accepts is stored under its name with the flags that it says. The user
-- then has, at each site, the role and permissions of the last entry for that site, and no membership
-- where there is no entry; a superuser has no membership. What other users may do is as before, and so
-- are their rows. Keys of users and memberships are rising, and the map names the sites, before and
-- after.
pub load_user-Stored :
    (known : SitesMap) (c : UserConfig) (db after : Db)
    → Ready known db
    → load_user known c db ≡ (ok tt, after)
    → Ready known after × ((u : ℕ) × UserLoaded known c u db after)
unfolding load_user store_user
load_user-Stored known c db after (users_valid, v, loaded) h = go (credentials c) refl
  where
    go :
        (o : Option String)
        → credentials c ≡ o
        → Ready known after × ((u : ℕ) × UserLoaded known c u db after)
    go none e =
        let refused : ◌≡◌ {A = Result (Unit {0}) × Db} (err command_error, db) (ok tt, after) =
          rw e at h in
        cc
    go (some name) e =
        let p : ℕ → User → Bool = called name in
        let (u, t) = update_or_create p (fresh_user c name) (flagged c) db.users in
        let ran : load_memberships u c.is_superuser known c.sites (record db { users = t })
            ≡ (ok tt, after) =
          rw e at h in
        let (view, users, sites, memberships_valid) =
          load_memberships-Provided u c.is_superuser known c.sites (record db { users = t }) after v
            loaded ran in
        let fits : p db.users.next_id (fresh_user c name) ≡ true = (eq_iff name name).1 refl in
        let before = row_of (first p db.users.rows) in
        let found =
          update_or_create-first (fresh_user c name) (flagged c) db.users users_valid p
            (λ k a. refl) fits in
        let username = credentials_named c name e in
        let row = stored (fresh_user c name) (flagged c) before in
        (
          (
            rw users
                (update_or_create-IsValid p (fresh_user c name) (flagged c) db.users users_valid),
            memberships_valid,
            rw sites loaded,
          ),
          (
            u,
            (
              (
                name,
                row,
                username,
                rw users found,
                (flags c name before).0,
                (flags c name before).1,
              ),
              view,
              λ other apart.
                  let differs : (name == other) ≡ false = rw username at apart in
                  rw users (
                    update_or_create-kept (fresh_user c name) (flagged c) db.users users_valid p
                      (called other) (λ k x. called_apart name other k x differs)
                      (λ k x. called_apart name other k x differs) differs),
            ),
          ),
        )
