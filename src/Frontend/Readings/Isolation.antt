-- ===== src/Frontend/Readings/Isolation.antt =====
-- An export holds rows of permitted endpoints only.
use flownexus.Prelude.{
  ℕ, ◌≡◌, String, Bool, true, false, Option, some, List, arith, Bool-cases, inl, inr, is_some, ltb,
  length, if◌then◌else◌, text_key,
}
use flownexus.Table.{select, find}
use flownexus.Table.Laws.{IsValid}
use flownexus.Table.Search.{Elem, Elem-sort_by, Elem-select}
use flownexus.Models.Rows.{User, Endpoint, Resource, Event, can_view_data_analysis}
use flownexus.Models.Db.{Db}
use flownexus.Models.Exec.{ok}
use flownexus.Access.Middleware.{SiteKey, Context, site_context}
use flownexus.Access.Permissions.{is_visible, site_filtered_endpoints, has_site_permission}
use flownexus.Access.Isolation.{IsPermitted, site_filtered_endpoints-IsPermitted}
use flownexus.Frontend.Firmwares.Isolation.{find-Elem}
use flownexus.Frontend.Readings.{
  Filters, matches_resource, matches_event, earlier, newer_event, values_of, events_of,
  within_limit, export_row_limit, Export, not_allowed, too_long, sheet, sheet_of, analysed,
  export_values, export_events,
}

-- The endpoint of a row lies in a site where the user may view the data.
abbrev pub MayView : Db → ℕ → String → Type 0
MayView db u ep =
    (e : Endpoint) × (s : ℕ) × Elem {A = String × Endpoint} (ep, e) db.endpoints
    × (e.site ≡ some s)
    × IsPermitted db u can_view_data_analysis s

-- `P` holds of every row of the sheet, if there is one.
abbrev pub EachRow : {A : Type 0} → (A → Type 0) → Export A → Type 0
EachRow P not_allowed = Unit
EachRow P too_long = Unit
EachRow {A} P (sheet rows) = (x : A) → Elem x rows → P x

EachRow-sheet_of :
    {A : Type 0} (P : A → Type 0) (rows : List A)
    → ((x : A) → Elem x rows → P x)
    → EachRow P (sheet_of (within_limit rows))
EachRow-sheet_of P rows each = elim (Bool-cases (ltb export_row_limit (length rows))) [
  | inl long ↦ rw long tt
  | inr short ↦ rw short each
]

EachRow-if :
    {A : Type 0} (P : A → Type 0) (b : Bool) (x : Export A)
    → EachRow P x
    → EachRow P (if b then x else not_allowed)
EachRow-if P true x h = h
EachRow-if P false x h = tt

module _ (db : Db) (u : ℕ) (user : User) (plain : user.is_superuser ≡ false)
    (session after : Option SiteKey) (c : Context) (valid : IsValid db.sites)
    (set : site_context db u user session ≡ ok (c, after)) where
  pub listed-MayView :
      (ep : String) → is_some (find ep (analysed db u user c)) ≡ true → MayView db u ep
  unfolding site_filtered_endpoints
  listed-MayView ep h =
      let (e, i) = find-Elem ep (analysed db u user c) h in
      let (s, at, may) =
        site_filtered_endpoints-IsPermitted db u user plain can_view_data_analysis session after c
          ep e valid set i in
      let (row, _) =
        Elem-select (λ _ x. is_visible db u user c (some can_view_data_analysis) x) (ep, e)
          db.endpoints i in
      (e, s, row, at, may)

  pub value-MayView :
      (f : Filters) (x : ℕ × Resource)
      → Elem x (values_of db (analysed db u user c) f)
      → MayView db u x.1.endpoint
  unfolding values_of
  value-MayView f x h =
      let p = matches_resource (analysed db u user c) f in
      let (row, q) =
        Elem-select p x db.resources.rows (Elem-sort_by earlier x (select p db.resources.rows) h) in
      listed-MayView x.1.endpoint (ground arith)

  event-MayView :
      (f : Filters) (x : ℕ × Event)
      → Elem x (events_of db (analysed db u user c) f)
      → MayView db u x.1.endpoint
  unfolding events_of
  event-MayView f x h =
      let p = matches_event (analysed db u user c) f in
      let (row, q) =
        Elem-select p x db.events.rows (Elem-sort_by newer_event x (select p db.events.rows) h) in
      listed-MayView x.1.endpoint (ground arith)

  -- Whatever filters are given, every reading and every event in an export, for a user who is no
  -- global admin, is of a device of an active site where a membership of that user allows the data
  -- pages. The context is the middleware's, and site keys are unique.
  pub exports-MayView :
      (f : Filters)
      → EachRow (λ (x : ℕ × Resource). MayView db u x.1.endpoint) (export_values db u user c f)
        × EachRow (λ (x : ℕ × Event). MayView db u x.1.endpoint) (export_events db u user c f)
  unfolding export_values export_events
  exports-MayView f =
      let may = has_site_permission db u user c can_view_data_analysis in
      let values = values_of db (analysed db u user c) f in
      let events = events_of db (analysed db u user c) f in
      (
        EachRow-if (λ (x : ℕ × Resource). MayView db u x.1.endpoint) may
            (sheet_of (within_limit values))
            (EachRow-sheet_of (λ (x : ℕ × Resource). MayView db u x.1.endpoint) values
              (value-MayView f)),
        EachRow-if (λ (x : ℕ × Event). MayView db u x.1.endpoint) may
            (sheet_of (within_limit events))
            (EachRow-sheet_of (λ (x : ℕ × Event). MayView db u x.1.endpoint) events
              (event-MayView f)),
      )
