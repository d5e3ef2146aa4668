-- ===== src/Frontend/Pump/Isolation.antt =====
-- The pump monitor shows events of permitted devices only.
use flownexus.Prelude.{
  ℕ, ◌≡◌, refl, String, Bool, true, false, Option, none, some, List, arith, map, is_some,
  if◌then◌else◌, text_key,
}
use flownexus.Table.{select, first, find}
use flownexus.Table.Laws.{IsValid}
use flownexus.Table.Search.{Elem, Elem-sort_by, Elem-select, Elem-first, Elem-map}
use flownexus.Models.Rows.{User, Event, can_view_data_analysis}
use flownexus.Models.Db.{Db}
use flownexus.Models.Exec.{ok}
use flownexus.Access.Middleware.{SiteKey, Context, site_context}
use flownexus.Access.Permissions.{has_site_permission}
use flownexus.Frontend.Paging.{RowPage, Paginator, HoldsRows}
use flownexus.Frontend.Readings.{window, unless_all, analysed}
use flownexus.Frontend.Readings.Isolation.{MayView, listed-MayView}
use flownexus.Frontend.Pump.{SortColumn, ordered, is_pump_event, pump_events}
use flownexus.Frontend.Pump.Entries.{PumpEntry, entry_of, Query, pump_list}
use flownexus.Frontend.Pump.Detail.{
  detail_of, PumpReply, not_allowed, event_shown, reply_with, is_pump_event_at, show_event,
  pump_detail,
}

-- `P` holds of the device of a shown event.
abbrev pub OfShown : (String → Type 0) → PumpReply → Type 0
OfShown P (event_shown d) = P d.endpoint
OfShown P _ = Unit

-- `P` holds of the device of every entry.
abbrev pub OfEntries : (String → Type 0) → Option (List PumpEntry × RowPage (ℕ × Event)) → Type 0
OfEntries P none = Unit
OfEntries P (some (entries, page)) = (x : PumpEntry) → Elem x entries → P x.endpoint

module _ (P : String → Type 0) (db : Db) where
  OfShown-reply_with :
      (o : Option (ℕ × Event))
      → ((x : ℕ × Event) → o ≡ some x → P x.1.endpoint)
      → OfShown P (reply_with db o)
  unfolding detail_of
  OfShown-reply_with none h = tt
  OfShown-reply_with (some x) h = h x refl

  OfShown-if : (b : Bool) (x : PumpReply) → OfShown P x → OfShown P (if b then x else not_allowed)
  OfShown-if true x h = h
  OfShown-if false x h = tt

  OfEntries-if :
      (b : Bool) (x : Option (List PumpEntry × RowPage (ℕ × Event)))
      → OfEntries P x
      → OfEntries P (if b then x else none)
  OfEntries-if true x h = h
  OfEntries-if false x h = tt

module _ (db : Db) (u : ℕ) (user : User) (plain : user.is_superuser ≡ false)
    (session after : Option SiteKey) (c : Context) (valid : IsValid db.sites)
    (set : site_context db u user session ≡ ok (c, after)) where
  event-MayView :
      (x : ℕ × Event)
      → is_some (find x.1.endpoint (analysed db u user c)) ≡ true
      → MayView db u x.1.endpoint
  event-MayView x h = listed-MayView db u user plain session after c valid set x.1.endpoint h

  pump_events-MayView :
      (ep : Option String) (from to : Option ℕ) (column : SortColumn) (ascending : Bool)
      (x : ℕ × Event)
      → Elem x (pump_events db (analysed db u user c) ep from to column ascending)
      → MayView db u x.1.endpoint
  unfolding pump_events
  pump_events-MayView ep from to column ascending x h =
      let p = is_pump_event (analysed db u user c) ep from to in
      let (row, q) =
        Elem-select p x db.events.rows
          (Elem-sort_by (ordered db column ascending) x (select p db.events.rows) h) in
      event-MayView x (ground arith)

  show_event-MayView : (id : Option ℕ) → OfShown (MayView db u) (show_event db u user c id)
  unfolding show_event
  show_event-MayView none = tt
  show_event-MayView (some id) =
      OfShown-reply_with (MayView db u) db
        (first (is_pump_event_at (analysed db u user c) id) db.events.rows)
        (λ x e.
          let (row, q) =
            Elem-first (is_pump_event_at (analysed db u user c) id) x db.events.rows e in
          event-MayView x (ground arith))

  list-MayView :
      (p : Paginator) (q : Query)
      → HoldsRows p
      → OfEntries (MayView db u) (pump_list p db u user c q)
  unfolding pump_list entry_of
  list-MayView p q holds =
      let (from, to) = window q.range db.now in
      let events =
        pump_events db (analysed db u user c) (unless_all q.endpoint) from to q.column
          q.ascending in
      let page = p.get_page (ℕ × Event) 50 q.page events in
      OfEntries-if (MayView db u) db (has_site_permission db u user c can_view_data_analysis)
        (some (map (entry_of db) page.object_list, page))
        (λ x i.
          let (y, j, e) = Elem-map (entry_of db) x page.object_list i in
          rw e (
            pump_events-MayView (unless_all q.endpoint) from to q.column q.ascending y
              (holds (ℕ × Event) 50 q.page events y j)))

  -- The event that the detail view shows, and every entry of the list, is of a device of an active
  -- site where a membership of the user, who is no global admin, allows the data pages. The context
  -- is the middleware's, site keys are unique, and a page holds objects of the paged list.
  pub pump_monitor-MayView :
      (p : Paginator) (q : Query) (id : Option ℕ)
      → HoldsRows p
      → OfShown (MayView db u) (pump_detail db u user c id)
        × OfEntries (MayView db u) (pump_list p db u user c q)
  unfolding pump_detail
  pump_monitor-MayView p q id holds = (
    OfShown-if (MayView db u) db (has_site_permission db u user c can_view_data_analysis)
        (show_event db u user c id) (show_event-MayView id),
    list-MayView p q holds,
  )
