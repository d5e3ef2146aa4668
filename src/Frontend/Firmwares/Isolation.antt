-- ===== src/Frontend/Firmwares/Isolation.antt =====
-- The firmware page starts updates only for endpoints where the user may perform operations.
use flownexus.Prelude.{
  ℕ, ◌≡◌, refl, String, Bool, true, false, Option, none, some, [], ◌∷◌, ◌⊎◌, inl, inr, arith, ◌==◌,
  text_key, Bool-cases, Option-cases, if◌then◌else◌, is_some,
}
use flownexus.Table.{Table, Rows, find, get}
use flownexus.Table.Laws.{IsValid}
use flownexus.Table.Search.{Elem, Elem-select}
use flownexus.Models.Rows.{
  User, Permission, can_view_firmware, can_perform_operations, Endpoint, File, FirmwareUpdate,
  process_pending_operations,
}
use flownexus.Models.Db.{Db}
use flownexus.Models.Exec.{Exec, Result, ok, err, proceed, pure, delay, ◌>>◌}
use flownexus.Models.Update.{save_new_update}
use flownexus.Models.Save.{Same, Added, Inserted, save_new_update-Added}
use flownexus.Api.{save_firmware}
use flownexus.Access.Middleware.{SiteKey, Context, site_context}
use flownexus.Access.Permissions.{is_visible, has_site_permission, site_filtered_endpoints}
use flownexus.Access.Isolation.{IsPermitted, site_filtered_endpoints-IsPermitted}
use flownexus.Frontend.Page.{Page, redirected, rendered}
use flownexus.Frontend.Firmwares.{
  Post, upload_firmware, start_update_of, delete_firmware, guarded, handle_post, firmware_page,
  upload_valid, update_valid,
}

pub find-Elem :
    (ep : String) (rows : Rows String Endpoint)
    → is_some (find ep rows) ≡ true
    → (e : Endpoint) × Elem (ep, e) rows
find-Elem ep [] h = cc
find-Elem ep ((k, e) ∷ rows) h = elim (Bool-cases (k == ep)) [
  | inl same ↦ (e, inl (rw ((text_key.same_iff k ep).0 same) refl))
  | inr other ↦ let (f, i) = find-Elem ep rows (rw other at h) in (f, inr i)
]

-- What saving leaves is still there after the task has been queued.
queued-Added :
    (t : Table FirmwareUpdate) (ep : String) (firmware : ℕ) (x : Result ℕ × Db)
    → Added t ep firmware x.1
    → Added t ep firmware
        (proceed (λ _. delay (process_pending_operations ep) >> pure redirected) x).1
queued-Added t ep firmware (ok k, db) h = h
queued-Added t ep firmware (err e, db) h = h

upload_firmware-Same :
    (form : Option (String × File)) (db : Db) → Same db.updates (upload_firmware form db).1
unfolding upload_firmware save_firmware
upload_firmware-Same none db = refl
upload_firmware-Same (some (version, file)) db = elim (Bool-cases (upload_valid db version file)) [
  | inl valid ↦ simp valid refl
  | inr invalid ↦ simp invalid refl
]

module _ (u : ℕ) (user : User) (c : Context) where
  -- Nothing is started, or one update for an endpoint among those that the user may operate.
  abbrev Started : Db → Db → Type 0
  Started db after =
      Same db.updates after
      ⊎ ((ep : String) × (e : Endpoint) × (firmware : ℕ) × Elem (ep, e)
            (site_filtered_endpoints db u user c (some can_perform_operations))
          × Inserted db.updates ep firmware after)

  delete_firmware-Same :
      (k : Option ℕ) (db : Db) → Same db.updates (delete_firmware u user c k db).1
  unfolding delete_firmware
  delete_firmware-Same none db = refl
  delete_firmware-Same (some k) db = elim (Option-cases (get k db.firmwares)) [
    | inl gone ↦ simp gone refl
    | inr (fw, found) ↦ simp found refl
  ]

  start_update-Started :
      (form : Option (String × ℕ)) (db : Db) → Started db (start_update_of u user c form db).1
  unfolding start_update_of
  start_update-Started none db = inl refl
  start_update-Started (some (ep, firmware)) db =
      let sites = site_filtered_endpoints db u user c (some can_perform_operations) in
      elim (Bool-cases (update_valid u user c db ep firmware)) [
        | inr invalid ↦ simp invalid (inl refl)
        | inl valid ↦
            let known : is_some (find ep sites) ≡ true = ground arith in
            let (e, listed) = find-Elem ep sites known in
            let saved = (save_new_update-Added db.updates ep firmware).at db refl in
            simp valid
              (elim (queued-Added db.updates ep firmware (save_new_update ep firmware db) saved) [
                | inl same ↦ inl same
                | inr new ↦ inr (ep, e, firmware, listed, new)
              ])
      ]

record Starts (u : ℕ) (user : User) (c : Context) (m : Exec Page) : Type 0 where
  at : (db : Db) → Started u user c db (m db).1

module _ (u : ℕ) (user : User) (c : Context) where
  upload-Starts : (form : Option (String × File)) → Starts u user c (upload_firmware form)
  upload-Starts form = record { at = λ db. inl (upload_firmware-Same form db) }

  delete-Starts : (k : Option ℕ) → Starts u user c (delete_firmware u user c k)
  delete-Starts k = record { at = λ db. inl (delete_firmware-Same u user c k db) }

  update-Starts : (form : Option (String × ℕ)) → Starts u user c (start_update_of u user c form)
  update-Starts form = record { at = start_update-Started u user c form }

  pure-Starts : (page : Page) → Starts u user c (pure page)
  pure-Starts page = record { at = λ db. inl refl }

  guarded-Starts :
      (p : Permission) (m : Exec Page) → Starts u user c m → Starts u user c (guarded u user c p m)
  guarded-Starts p m h = record {
    at = λ db. elim (Bool-cases (has_site_permission db u user c p)) [
      | inl may ↦ simp may (h.at db)
      | inr refused ↦ simp refused (inl refl)
    ];
  }

  Starts-if :
      (b : Bool) (m n : Exec Page)
      → Starts u user c m
      → Starts u user c n
      → Starts u user c (if b then m else n)
  Starts-if true m n h k = h
  Starts-if false m n h k = k

  handle_post-Starts : (p : Post) → Starts u user c (handle_post u user c p)
  unfolding handle_post
  handle_post-Starts p =
      search (Starts-if, guarded-Starts, upload-Starts, delete-Starts, update-Starts, pure-Starts)
        depth 9

  page-Starts : (post : Option Post) → Starts u user c (firmware_page u user c post)
  unfolding firmware_page
  page-Starts none = guarded-Starts can_view_firmware (pure rendered) (pure-Starts rendered)
  page-Starts (some p) =
      guarded-Starts can_view_firmware (handle_post u user c p) (handle_post-Starts p)

-- A request to the firmware page, of a user who is no global admin, changes the table of updates in
-- one way only: one new update is added, for an endpoint of an active site where a membership of that
-- user allows operations. The context is the middleware's, and site keys are unique.
pub firmware_page-IsPermitted :
    (u : ℕ) (user : User) (session after : Option SiteKey) (c : Context) (post : Option Post)
    (db : Db)
    → user.is_superuser ≡ false
    → IsValid db.sites
    → site_context db u user session ≡ ok (c, after)
    → Same db.updates (firmware_page u user c post db).1
      ⊎ ((ep : String) × (s : ℕ) × (firmware : ℕ) × IsPermitted db u can_perform_operations s
          × ((e : Endpoint) × Elem (ep, e) db.endpoints × (e.site ≡ some s))
          × Inserted db.updates ep firmware (firmware_page u user c post db).1)
unfolding site_filtered_endpoints
firmware_page-IsPermitted u user session after c post db plain valid set =
    elim ((page-Starts u user c post).at db) [
      | inl same ↦ inl same
      | inr (ep, e, firmware, listed, new) ↦
          let (s, at, may) =
            site_filtered_endpoints-IsPermitted db u user plain can_perform_operations session after
              c ep e valid set listed in
          let (row, _) =
            Elem-select (λ _ x. is_visible db u user c (some can_perform_operations) x) (ep, e)
              db.endpoints listed in
          inr (ep, s, firmware, may, (e, row, at), new)
    ]
