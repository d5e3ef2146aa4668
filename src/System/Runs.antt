-- ===== src/System/Runs.antt =====
-- What the single writes of the permissions page keep, the page keeps.
use flownexus.Prelude.{ℕ, String, Bool, Option, none, some, List, Bool-cases, inl, inr}
use flownexus.Table.{Rows, Table, exists}
use flownexus.Models.Rows.{User, Permission, Endpoint, SiteMembership}
use flownexus.Models.Db.{Db}
use flownexus.Models.Exec.{modify}
use flownexus.Models.Keeps.{Keeps, keeps_rules}
use flownexus.Models.Membership.{same_pair, save_new_membership}
use flownexus.Frontend.Grants.{
  Flags, Grant, create_user, create_site, create_membership, update_membership, revoke_membership,
  assign_device, transfer_device, bulk_assign, unknown, add_user, add_site, add_membership,
  change_membership, update_flags, revoke, assign, transfer, bulk, grant, permissions_page,
}

pub record Granting (P : Db → Type 0) : Type 0 where
  pub members : (db : Db) (t : Table SiteMembership) → P db → P (record db { memberships = t })
  pub devices : (db : Db) (rows : Rows String Endpoint) → P db → P (record db { endpoints = rows })
  pub user : (name email : String) → Keeps P (add_user name email)
  pub site : (name text : String) → Keeps P (add_site name text)

module _ {P : Db → Type 0} (g : Granting P) where
  save_new-Keeps :
      (explicit : Permission → Bool) (m : SiteMembership) → Keeps P (save_new_membership explicit m)
  unfolding save_new_membership
  save_new-Keeps explicit m = record {
    at = λ db h. elim (Bool-cases (exists (same_pair m.member m.site) db.memberships.rows)) [
      | inl taken ↦ simp taken h
      | inr free ↦ simp free (g.members db _ h)
    ];
  }

  memberships-Keeps :
      (f : Db → Table SiteMembership) → Keeps P (modify (λ db. record db { memberships = f db }))
  memberships-Keeps f = record { at = λ db h. g.members db _ h }

  endpoints-Keeps : (f : Db → _) → Keeps P (modify (λ db. record db { endpoints = f db }))
  endpoints-Keeps f = record { at = λ db h. g.devices db _ h }

  add_user-Keeps : (name email : String) → Keeps P (add_user name email)
  add_user-Keeps = g.user

  add_site-Keeps : (name text : String) → Keeps P (add_site name text)
  add_site-Keeps = g.site

  ruleset grants_rules = (
    keeps_rules, save_new-Keeps, memberships-Keeps, endpoints-Keeps, add_user-Keeps, add_site-Keeps,
  )

  add_membership-Keeps : (u s : ℕ) (f : Flags) → Keeps P (add_membership u s f)
  unfolding add_membership
  add_membership-Keeps u s f = search grants_rules depth 9

  change-Keeps :
      (k : ℕ) (m : SiteMembership) (form : Option Flags) → Keeps P (change_membership k m form)
  change-Keeps k m none = search grants_rules
  change-Keeps k m (some f) = search grants_rules depth 9

  update_flags-Keeps : (id : Option ℕ) (form : Option Flags) → Keeps P (update_flags id form)
  unfolding update_flags
  update_flags-Keeps id form = search (grants_rules, change-Keeps) depth 9

  revoke-Keeps : (id : Option ℕ) → Keeps P (revoke id)
  unfolding revoke
  revoke-Keeps id = search grants_rules depth 9

  assign-Keeps : (ep : String) (s : ℕ) → Keeps P (assign ep s)
  unfolding assign
  assign-Keeps ep s = search grants_rules depth 9

  transfer-Keeps : (ep : String) (form : Option ℕ) → Keeps P (transfer ep form)
  unfolding transfer
  transfer-Keeps ep none = search grants_rules
  transfer-Keeps ep (some s) = search grants_rules depth 9

  bulk-Keeps : (eps : List String) (s : ℕ) → Keeps P (bulk eps s)
  unfolding bulk
  bulk-Keeps eps s = search grants_rules depth 9

  grant-Keeps : (x : Grant) → Keeps P (grant x)
  unfolding grant
  grant-Keeps (create_user none) = search grants_rules
  grant-Keeps (create_user (some (name, email))) = add_user-Keeps name email
  grant-Keeps (create_site none) = search grants_rules
  grant-Keeps (create_site (some (name, text))) = add_site-Keeps name text
  grant-Keeps (create_membership none) = search grants_rules
  grant-Keeps (create_membership (some (u, s, f))) = add_membership-Keeps u s f
  grant-Keeps (update_membership id form) = update_flags-Keeps id form
  grant-Keeps (revoke_membership id) = revoke-Keeps id
  grant-Keeps (assign_device none) = search grants_rules
  grant-Keeps (assign_device (some (ep, s))) = assign-Keeps ep s
  grant-Keeps (transfer_device id form) = search (grants_rules, transfer-Keeps) depth 9
  grant-Keeps (bulk_assign none) = search grants_rules
  grant-Keeps (bulk_assign (some (eps, s))) = bulk-Keeps eps s
  grant-Keeps unknown = search grants_rules

  pub granted-Keeps : (user : User) (x : Option Grant) → Keeps P (permissions_page user x)
  unfolding permissions_page
  granted-Keeps user none = search grants_rules
  granted-Keeps user (some x) = search (grants_rules, grant-Keeps)
