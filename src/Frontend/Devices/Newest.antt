-- ===== src/Frontend/Devices/Newest.antt =====
-- Each detail of a device is what its newest resource says.
use flownexus.Prelude.{
  ℕ, ◌≤◌, ◌≡◌, refl, ap, sym, ◌∙◌, inl, inr, String, Bool, true, false, Option, none, some, List,
  [], ◌==◌, text_key, nat_key, is_some, arith, eq_iff, sort_by, any, filter,
}
use flownexus.Prelude.Int.{pos, int_key, int_eq_iff}
use flownexus.Text.Order.{text_le-IsOrder, leb_ℤ-IsOrder}
use flownexus.Table.{Rows, find}
use flownexus.Table.Search.{Elem}
use flownexus.Table.Sorted.{
  IsOrder-refl, first_of, Elem-first_of, Elem-filter, filter-Elem, first_of-none, first_of-sort_by,
  sort_by-Elem,
}
use flownexus.Table.Search.{Elem-sort_by}
use flownexus.Models.Rows.{Endpoint, ResourceType, Resource}
use flownexus.Models.Db.{Db}
use flownexus.Frontend.Devices.{
  Detail, manufacturer, model_number, serial_number, firmware_version, power_source_v,
  battery_level, resource_of, details, Reading, readings, is_detail, detail_le, Slot, slot_of,
  or_nothing, detail_slot, detail_value,
}
use flownexus.Frontend.Devices.Collected.{
  Reports, NewestOf, same_slot_sound, in_slot, or_first, collect_lem, readings-Elem, Elem-readings,
  detail_le-IsOrder,
}

-- In one slot the order is that of the keys, downwards.
detail_le-slot : (x y : Reading) → slot_of x ≡ slot_of y → detail_le x y ≡ true → y.id ≤ x.id
detail_le-slot x y e h =
    let same_endpoint : x.resource.endpoint ≡ y.resource.endpoint =
      ap (λ (s : Slot). s.endpoint) e in
    let same_object : x.type.object_id ≡ y.type.object_id = ap (λ (s : Slot). s.object_id) e in
    let same_resource : x.type.resource_id ≡ y.type.resource_id =
      ap (λ (s : Slot). s.resource_id) e in
    let h' = rw (same_endpoint, same_object, same_resource) at h in
    ground (
      arith,
      h',
      IsOrder-refl text_le-IsOrder y.resource.endpoint,
      IsOrder-refl leb_ℤ-IsOrder y.type.object_id,
      IsOrder-refl leb_ℤ-IsOrder y.type.resource_id,
    )

any_detail : (d : Detail) → any (λ e. resource_of d == resource_of e) details ≡ true
any_detail manufacturer = refl
any_detail model_number = refl
any_detail serial_number = refl
any_detail firmware_version = refl
any_detail power_source_v = refl
any_detail battery_level = refl

module _ (db : Db) (eps : Rows String Endpoint) (ep : String) (d : Detail)
    (known : is_some (find ep eps) ≡ true) where
  abbrev all_details : List Reading
  all_details = filter (is_detail eps) (readings db db.resources.rows)

  abbrev here : Reading → Bool
  here = in_slot (detail_slot ep d)

  Reports-all :
      (x : ℕ × Resource) (rt : ResourceType)
      → Elem x db.resources.rows
      → Reports db ep d x rt
      → Elem (record { id = x.0; resource = x.1; type = rt }) all_details
        × (here (record { id = x.0; resource = x.1; type = rt }) ≡ true)
  Reports-all (k, r) rt i (t, e, o, n) = (
    filter-Elem (is_detail eps) (record { id = k; resource = r; type = rt })
        (readings db db.resources.rows) (readings-Elem db k r rt db.resources.rows t i)
        (rw (e, o, n, known, any_detail d) refl),
    ground (
      arith,
      eq_iff r.endpoint ep,
      int_eq_iff rt.object_id (pos 3),
      int_eq_iff rt.resource_id (resource_of d),
    ),
  )

  all-Reports :
      (x : Reading)
      → Elem x all_details
      → here x ≡ true
      → Elem (x.id, x.resource) db.resources.rows × Reports db ep d (x.id, x.resource) x.type
  all-Reports x i q =
      let (j, _) = Elem-filter (is_detail eps) x (readings db db.resources.rows) i in
      let (row, t) = Elem-readings db x db.resources.rows j in
      let same : slot_of x ≡ detail_slot ep d = same_slot_sound (slot_of x) (detail_slot ep d) q in
      (
        row,
        (
          t,
          ap (λ (s : Slot). s.endpoint) same,
          ap (λ (s : Slot). s.object_id) same,
          ap (λ (s : Slot). s.resource_id) same,
        ),
      )

  largest :
      (x : Reading)
      → here x ≡ true
      → first_of here (sort_by detail_le all_details) ≡ some x
      → (y : ℕ × Resource) (t : ResourceType) → Elem y db.resources.rows
      → Reports db ep d y t
      → y.0 ≤ x.id
  largest x q f y t i reports =
      let z : Reading = record { id = y.0; resource = y.1; type = t } in
      let (j, p) = Reports-all y t i reports in
      let same : slot_of x ≡ slot_of z =
        same_slot_sound (slot_of x) (detail_slot ep d) q
        ∙ sym (same_slot_sound (slot_of z) (detail_slot ep d) p) in
      elim (first_of-sort_by detail_le detail_le-IsOrder here x z all_details f j p) [
        | inl e ↦ let ids : y.0 ≡ x.id = ap (λ (r : Reading). r.id) e in omega arith
        | inr before ↦ detail_le-slot x z same before
      ]

  by_first :
      (o : Option Reading)
      → first_of here (sort_by detail_le all_details) ≡ o
      → NewestOf db ep d (or_nothing (or_first none o))
  by_first none f = inl (
    refl,
    λ x rt i reports.
        let (j, q) = Reports-all x rt i reports in
        let y : Reading = record { id = x.0; resource = x.1; type = rt } in
        let no : here y ≡ false =
          first_of-none here y (sort_by detail_le all_details) f
            (sort_by-Elem detail_le y all_details j) in
        cc,
  )
  by_first (some x) f =
      let (i, q) = Elem-first_of here x (sort_by detail_le all_details) f in
      let (row, reports) = all-Reports x (Elem-sort_by detail_le x all_details i) q in
      inr ((x.id, x.resource), x.type, row, reports, refl, largest x q f)

  pub detail_value-NewestOf : NewestOf db ep d (detail_value db eps ep d)
  unfolding detail_value
  detail_value-NewestOf =
      rw (collect_lem (detail_slot ep d) (sort_by detail_le all_details) [])
        (by_first (first_of here (sort_by detail_le all_details)) refl)
