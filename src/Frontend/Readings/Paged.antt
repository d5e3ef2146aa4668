-- ===== src/Frontend/Readings/Paged.antt =====
-- The JSON pages of `data_analysis` hold readings and events of permitted devices only.
use flownexus.Prelude.{
  ℕ, ◌≡◌, refl, sym, subst, String, Bool, true, false, Option, none, some, List, [], ◌∷◌, arith,
  sort_by, inl, inr, if◌then◌else◌, text_key,
}
use flownexus.Table.{select, get}
use flownexus.Table.Laws.{IsValid}
use flownexus.Table.Search.{Elem, Elem-sort_by, Elem-select, Elem-map}
use flownexus.Models.Rows.{User, Resource, ResourceType, Event, can_view_data_analysis}
use flownexus.Models.Db.{Db}
use flownexus.Models.Exec.{Result, ok, err}
use flownexus.Models.Device.{Value}
use flownexus.Access.Middleware.{SiteKey, Context, site_context}
use flownexus.Access.Permissions.{has_site_permission}
use flownexus.Frontend.Paging.{RowPage, Paginator, HoldsRows}
use flownexus.Frontend.Readings.{Filters, analysed, values_of, matches_event}
use flownexus.Frontend.Readings.Isolation.{MayView, listed-MayView, value-MayView}
use flownexus.Frontend.Readings.Cells.{both}
use flownexus.Frontend.Readings.Pages.{
  Point, ValuePage, value_of, as_json, pointed, points, chosen_type, values_page, values_with,
  data_values, EventEntry, event_entry, Orders, events_with, data_events,
}

-- `P` holds of the device of every point.
abbrev pub OfPoints : (String → Type 0) → Result (Option ValuePage) → Type 0
OfPoints P (ok (some page)) = (x : Point) → Elem x page.points → P x.endpoint
OfPoints P _ = Unit

-- `P` holds of the device of every entry.
abbrev pub OfEvents :
    (String → Type 0) → Result (Option (List EventEntry × RowPage (ℕ × Event))) → Type 0
OfEvents P (ok (some (entries, page))) = (x : EventEntry) → Elem x entries → P x.endpoint
OfEvents P _ = Unit

module _ (P : String → Type 0) (db : Db) where
  abbrev OfList : Result (List Point) → Type 0
  OfList (err e) = Unit
  OfList (ok ps) = (x : Point) → Elem x ps → P x.endpoint

  OfList-both :
      (x : ℕ × Resource) (v : Result Value) (rest : Result (List Point))
      → P x.1.endpoint
      → OfList rest
      → OfList (both (λ p ps. p ∷ ps) (pointed x v) rest)
  OfList-both x (err e) rest h r = tt
  OfList-both x (ok v) (err e) h r = tt
  OfList-both x (ok v) (ok ps) h r = λ y i. elim i [
    | inl same ↦ subst (λ (z : Point). P z.endpoint) (sym same) h
    | inr later ↦ r y later
  ]

  OfList-points :
      (rows : List (ℕ × Resource))
      → ((x : ℕ × Resource) → Elem x rows → P x.1.endpoint)
      → OfList (points db rows)
  unfolding points
  OfList-points [] h = λ y i. absurd i
  OfList-points (x ∷ rows) h =
      OfList-both x (as_json (value_of (get x.1.resource_type db.resource_types) x.1))
        (points db rows) (h x (inl refl)) (OfList-points rows (λ y i. h y (inr i)))

module _ (P : String → Type 0) where
  OfPoints-if :
      (b : Bool) (x : Result (Option ValuePage))
      → OfPoints P x
      → OfPoints P (if b then x else ok none)
  OfPoints-if true x h = h
  OfPoints-if false x h = tt

  OfEvents-if :
      (b : Bool) (x : Result (Option (List EventEntry × RowPage (ℕ × Event))))
      → OfEvents P x
      → OfEvents P (if b then x else ok none)
  OfEvents-if true x h = h
  OfEvents-if false x h = tt

module _ (p : Paginator) (db : Db) (u : ℕ) (user : User) (plain : user.is_superuser ≡ false)
    (session after : Option SiteKey) (c : Context) (valid : IsValid db.sites)
    (set : site_context db u user session ≡ ok (c, after)) (f : Filters) (holds : HoldsRows p) where
  values_with-MayView :
      (number : Option String) (rt : Result (Option ResourceType)) (ps : Result (List Point))
      → OfList (MayView db u) db ps
      → OfPoints (MayView db u) (values_with p db u user c f number rt ps)
  values_with-MayView number (err e) ps h = tt
  values_with-MayView number (ok rt) (err e) h = tt
  values_with-MayView number (ok rt) (ok ps) h = h

  values-MayView :
      (number : Option String) → OfPoints (MayView db u) (data_values p db u user c f number)
  unfolding data_values
  values-MayView number =
      let rows = (values_page p db u user c f number).object_list in
      OfPoints-if (MayView db u) (has_site_permission db u user c can_view_data_analysis)
        (values_with p db u user c f number (chosen_type db f.resource_type_id) (points db rows))
        (values_with-MayView number (chosen_type db f.resource_type_id) (points db rows) (
          OfList-points (MayView db u) db rows (λ x i.
            value-MayView db u user plain session after c valid set f x
              (holds (ℕ × Resource) 100 number (values_of db (analysed db u user c) f) x i))))

  events_with-MayView :
      (number : Option String) (order : Option (ℕ × Event → ℕ × Event → Bool))
      → OfEvents (MayView db u) (events_with p db u user c f number order)
  unfolding event_entry
  events_with-MayView number none = tt
  events_with-MayView number (some le) = λ x i.
      let test = matches_event (analysed db u user c) f in
      let events = sort_by le (select test db.events.rows) in
      let page = p.get_page (ℕ × Event) 50 number events in
      let (y, j, e) = Elem-map (event_entry db) x page.object_list i in
      let (row, q) =
        Elem-select test y db.events.rows (
          Elem-sort_by le y (select test db.events.rows)
            (holds (ℕ × Event) 50 number events y j)) in
      rw e (listed-MayView db u user plain session after c valid set y.1.endpoint (ground arith))

  -- Whatever filters, page and order are asked for, every reading and every event on the data page of a
  -- user who is no global admin is of a device of an active site where a membership of that user allows
  -- the data pages. The context is the middleware's, site keys are unique, and a page holds objects of
  -- the paged list.
  pub data_analysis-MayView :
      (order_by : Orders) (column : String) (ascending : Bool) (number : Option String)
      → OfPoints (MayView db u) (data_values p db u user c f number)
        × OfEvents (MayView db u) (data_events p db u user c f order_by column ascending number)
  unfolding data_events
  data_analysis-MayView order_by column ascending number = (
    values-MayView number,
    OfEvents-if (MayView db u) (has_site_permission db u user c can_view_data_analysis)
        (events_with p db u user c f number (order_by column ascending))
        (events_with-MayView number (order_by column ascending)),
  )
