-- ===== src/Frontend/Grants/Devices.antt =====
-- What the permissions page does to devices.
use flownexus.Prelude.{
  ℕ, ◌≡◌, refl, String, Bool, true, false, ◌&&◌, Option, none, some, List, ◌⊎◌, inl, inr, arith,
  ◌==◌, text_key, Bool-cases, is_some,
}
use flownexus.Table.{Table, Rows, find}
use flownexus.Table.Laws.{find-update_where}
use flownexus.Models.Rows.{User, Endpoint, SiteMembership, Permission}
use flownexus.Models.Db.{Db}
use flownexus.Models.Exec.{ok, modify}
use flownexus.Models.Keeps.{Keeps, keeps_rules}
use flownexus.Models.Membership.{save_new_membership}
use flownexus.Frontend.Page.{forbidden}
use flownexus.Frontend.Grants.{
  Flags, Grant, create_user, create_site, create_membership, update_membership, revoke_membership,
  assign_device, transfer_device, bulk_assign, unknown, is_active_at, add_user, add_site,
  add_membership, change_membership, update_flags, revoke, place, assign, transfer, bulk, is_chosen,
  is_unassigned_in, is_nonempty, all_unassigned, grant, permissions_page,
}

-- The device keeps its site, or comes to an active one.
abbrev pub Moved : Db → Endpoint → Endpoint → Type 0
Moved db old new =
    (new.site ≡ old.site) ⊎ ((s : ℕ) × (new.site ≡ some s) × (is_active_at db s ≡ true))

-- Every device is still there, as registered as it was.
abbrev pub Places : Db → Db → Type 0
Places db after =
    (ep : String) (old : Endpoint)
    → find ep db.endpoints ≡ some old
    → (new : Endpoint) × (find ep after.endpoints ≡ some new)
      × (new.registered ≡ old.registered)
      × Moved db old new

Places-same : (db after : Db) → after.endpoints ≡ db.endpoints → Places db after
Places-same db after same ep old here = (old, simp same here, refl, inl refl)

place-Places :
    (p : String → Endpoint → Bool) (s : ℕ) (db : Db)
    → is_active_at db s ≡ true
    → Places db (place p s db).1
place-Places p s db active ep old here =
    let after =
      find-update_where p (λ (e : Endpoint). record e { site = some s }) ep db.endpoints in
    elim (Bool-cases (p ep old)) [
      | inl chosen ↦ (
        record old { site = some s },
        simp (after, here, chosen) refl,
        refl,
        inr (s, refl, active),
      )
      | inr left ↦ (old, simp (after, here, left) refl, refl, inl refl)
    ]

assign-Places : (ep : String) (s : ℕ) (db : Db) → Places db (assign ep s db).1
unfolding assign
assign-Places ep s db = elim (Bool-cases (is_unassigned_in db.endpoints ep && is_active_at db s)) [
  | inl valid ↦ simp valid (place-Places (λ k _. k == ep) s db (ground arith))
  | inr invalid ↦ simp invalid (Places-same db db refl)
]

transfer-Places : (ep : String) (form : Option ℕ) (db : Db) → Places db (transfer ep form db).1
unfolding transfer
transfer-Places ep none db = Places-same db db refl
transfer-Places ep (some s) db = elim (Bool-cases (is_active_at db s)) [
  | inl valid ↦ simp valid (place-Places (λ k _. k == ep) s db valid)
  | inr invalid ↦ simp invalid (Places-same db db refl)
]

bulk-Places : (eps : List String) (s : ℕ) (db : Db) → Places db (bulk eps s db).1
unfolding bulk
bulk-Places eps s db =
    elim (Bool-cases (is_nonempty eps && all_unassigned db.endpoints eps && is_active_at db s)) [
      | inl valid ↦ simp valid (place-Places (is_chosen eps) s db (ground arith))
      | inr invalid ↦ simp invalid (Places-same db db refl)
    ]

abbrev SameDevices : Rows String Endpoint → Db → Type 0
SameDevices rows db = db.endpoints ≡ rows

module _ (rows : Rows String Endpoint) where
  save_new-Same :
      (explicit : Permission → Bool) (m : SiteMembership)
      → Keeps (SameDevices rows) (save_new_membership explicit m)
  unfolding save_new_membership
  save_new-Same explicit m = record { at = λ db h. ground arith }

  modify_memberships-Same :
      (f : Table SiteMembership → Table SiteMembership)
      → Keeps (SameDevices rows) (modify (λ db. record db { memberships = f db.memberships }))
  modify_memberships-Same f = record { at = λ db h. h }

  add_user-Same : (name email : String) → Keeps (SameDevices rows) (add_user name email)
  unfolding add_user
  add_user-Same name email = record { at = λ db h. h }

  add_site-Same : (name text : String) → Keeps (SameDevices rows) (add_site name text)
  unfolding add_site
  add_site-Same name text = record { at = λ db h. h }

  ruleset device_rules = (keeps_rules, save_new-Same, modify_memberships-Same)

  add_membership-Same : (u s : ℕ) (f : Flags) → Keeps (SameDevices rows) (add_membership u s f)
  unfolding add_membership
  add_membership-Same u s f = search device_rules depth 9

  change-Same :
      (k : ℕ) (m : SiteMembership) (form : Option Flags)
      → Keeps (SameDevices rows) (change_membership k m form)
  change-Same k m none = search device_rules
  change-Same k m (some f) = search device_rules depth 9

  update_flags-Same :
      (id : Option ℕ) (form : Option Flags) → Keeps (SameDevices rows) (update_flags id form)
  unfolding update_flags
  update_flags-Same id form = search (device_rules, change-Same) depth 9

  revoke-Same : (id : Option ℕ) → Keeps (SameDevices rows) (revoke id)
  unfolding revoke
  revoke-Same id = search device_rules depth 9

grant-Places : (g : Grant) (db : Db) → Places db (grant g db).1
unfolding grant
grant-Places (create_user none) db = Places-same db db refl
grant-Places (create_user (some (name, email))) db =
    Places-same db (add_user name email db).1 ((add_user-Same db.endpoints name email).at db refl)
grant-Places (create_site none) db = Places-same db db refl
grant-Places (create_site (some (name, text))) db =
    Places-same db (add_site name text db).1 ((add_site-Same db.endpoints name text).at db refl)
grant-Places (create_membership none) db = Places-same db db refl
grant-Places (create_membership (some (u, s, f))) db =
    Places-same db (add_membership u s f db).1 ((add_membership-Same db.endpoints u s f).at db refl)
grant-Places (update_membership id form) db =
    Places-same db (update_flags id form db).1 ((update_flags-Same db.endpoints id form).at db refl)
grant-Places (revoke_membership id) db =
    Places-same db (revoke id db).1 ((revoke-Same db.endpoints id).at db refl)
grant-Places (assign_device none) db = Places-same db db refl
grant-Places (assign_device (some (ep, s))) db = assign-Places ep s db
grant-Places (transfer_device none form) db = Places-same db db refl
grant-Places (transfer_device (some ep) form) db =
    elim (Bool-cases (is_some (find ep db.endpoints))) [
      | inl known ↦ simp known (transfer-Places ep form db)
      | inr missing ↦ simp missing (Places-same db db refl)
    ]
grant-Places (bulk_assign none) db = Places-same db db refl
grant-Places (bulk_assign (some (eps, s))) db = bulk-Places eps s db
grant-Places unknown db = Places-same db db refl

-- The permissions page answers anyone but a global admin with 403 and changes nothing. Whatever a
-- global admin posts, and however it ends: every device is still there, is registered as it was, and
-- keeps its site or comes to a site that is active.
pub permissions_page-Places :
    (user : User) (g : Option Grant) (db : Db)
    → ((user.is_superuser ≡ false) × (permissions_page user g db ≡ (ok forbidden, db)))
      ⊎ ((user.is_superuser ≡ true) × Places db (permissions_page user g db).1)
unfolding permissions_page
permissions_page-Places user none db = elim (Bool-cases user.is_superuser) [
  | inl root ↦ inr (root, Places-same db db refl)
  | inr plain ↦ inl (plain, simp plain refl)
]
permissions_page-Places user (some g) db = elim (Bool-cases user.is_superuser) [
  | inl root ↦ inr (root, simp root (grant-Places g db))
  | inr plain ↦ inl (plain, simp plain refl)
]
