-- ===== src/Frontend/Devices/Isolation.antt =====
-- The device list shows permitted devices, and selects one of them.
use flownexus.Prelude.{
  ℕ, ◌≡◌, refl, String, Bool, true, false, Option, none, some, List, [], ◌∷◌, text_key, inl, inr,
  ◌⊎◌, map, head, if◌then◌else◌,
}
use flownexus.Table.Laws.{IsValid}
use flownexus.Table.Search.{Elem, Elem-map, Elem-select, Elem-sort_by, Elem-head}
use flownexus.Table.Sorted.{first_of, Elem-first_of, first_of-none}
use flownexus.Models.Rows.{User, Endpoint, can_view_overview}
use flownexus.Models.Db.{Db}
use flownexus.Models.Exec.{ok}
use flownexus.Access.Middleware.{SiteKey, Context, site_context}
use flownexus.Access.Permissions.{is_visible, site_filtered_endpoints, has_site_permission}
use flownexus.Access.Isolation.{IsPermitted, site_filtered_endpoints-IsPermitted}
use flownexus.Frontend.Devices.{
  Device, device_of, by_endpoint, is_selected, or_head, select_device, listed, devices,
}

-- The device stands in the table as it is shown, in a site where the user may see the overview.
abbrev pub MayList : Db → ℕ → Device → Type 0
MayList db u d =
    (s : ℕ) × Elem {A = String × Endpoint} (d.name, d.endpoint) db.endpoints
    × (d.endpoint.site ≡ some s)
    × IsPermitted db u can_view_overview s

-- The device that was asked for if it is listed, and otherwise the first, if there is one.
abbrev pub Selected : Option String → List Device → Option Device → Type 0
Selected asked ds none = ds ≡ []
Selected asked ds (some d) =
    Elem d ds
    × ((is_selected asked d ≡ true)
        ⊎ ((head ds ≡ some d) × ((e : Device) → Elem e ds → is_selected asked e ≡ false)))

-- A list that is shown, and the selection beside it.
abbrev pub Listed : Db → ℕ → Option String → Option (List Device × Option Device) → Type 0
Listed db u asked none = Unit
Listed db u asked (some (ds, d)) = ((e : Device) → Elem e ds → MayList db u e) × Selected asked ds d

select_device-Selected :
    (asked : Option String) (ds : List Device) → Selected asked ds (select_device asked ds)
unfolding select_device
select_device-Selected asked ds = by_first (first_of (is_selected asked) ds) refl
  where
    by_head :
        (h : Option Device)
        → head ds ≡ h
        → first_of (is_selected asked) ds ≡ none
        → Selected asked ds h
    by_head none e f = no_head ds e
      where
        no_head : (xs : List Device) → head xs ≡ none → xs ≡ []
        no_head [] e = refl
        no_head (x ∷ xs) e = cc
    by_head (some d) e f =
        (Elem-head d ds e, inr (e, λ x i. first_of-none (is_selected asked) x ds f i))

    by_first :
        (o : Option Device) → first_of (is_selected asked) ds ≡ o → Selected asked ds (or_head o ds)
    by_first none f = by_head (head ds) refl f
    by_first (some d) f = let (i, q) = Elem-first_of (is_selected asked) d ds f in (i, inl q)

Listed-if :
    (db : Db) (u : ℕ) (asked : Option String) (b : Bool) (x : Option (List Device × Option Device))
    → Listed db u asked x
    → Listed db u asked (if b then x else none)
Listed-if db u asked true x h = h
Listed-if db u asked false x h = tt

module _ (db : Db) (u : ℕ) (user : User) (session after : Option SiteKey) (c : Context)
    (plain : user.is_superuser ≡ false) (valid : IsValid db.sites)
    (set : site_context db u user session ≡ ok (c, after)) where
  abbrev shown : List Device
  shown = map (device_of db (listed db u user c)) (listed db u user c)

  shown-MayList : (d : Device) → Elem d shown → MayList db u d
  unfolding device_of site_filtered_endpoints
  shown-MayList d i =
      let eps = site_filtered_endpoints db u user c (some can_view_overview) in
      let ((ep, e), j, same) =
        Elem-map (device_of db (listed db u user c)) d (listed db u user c) i in
      let k = Elem-sort_by by_endpoint (ep, e) eps j in
      let (s, at, may) =
        site_filtered_endpoints-IsPermitted db u user plain can_view_overview session after c ep e
          valid set k in
      let (row, _) =
        Elem-select (λ _ x. is_visible db u user c (some can_view_overview) x) (ep, e) db.endpoints
          k in
      rw same (s, row, at, may)

  -- Every device that the list shows to a user who is no global admin is of an active site where a
  -- membership of that user allows the overview. The selected device is one of the list: the one
  -- asked for if it is there, otherwise the first; there is none only if the list is empty. The
  -- context is the middleware's, and site keys are unique.
  pub devices-Listed : (asked : Option String) → Listed db u asked (devices db u user c asked)
  unfolding devices
  devices-Listed asked =
      Listed-if db u asked (has_site_permission db u user c can_view_overview)
        (some (shown, select_device asked shown))
        (shown-MayList, select_device-Selected asked shown)
