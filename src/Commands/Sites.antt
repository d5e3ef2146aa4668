-- ===== src/Commands/Sites.antt =====
-- The map of site names that `load_sites` hands on.
use flownexus.Prelude.{
  ℕ, ◌≡◌, refl, ap, sym, ◌∙◌, String, true, Option, none, some, List, [], ◌∷◌, ◌==◌, nat_key,
  text_key, Bool-cases, inl, inr, eq_iff, is_some, All,
}
use flownexus.Table.{first, find}
use flownexus.Table.Laws.{IsValid}
use flownexus.Models.Rows.{Site}
use flownexus.Models.Db.{Db}
use flownexus.Models.Exec.{Result, ok, err, proceed, command_error}
use flownexus.Models.Device.{or_else}
use flownexus.Commands.{save_row, update_or_create}
use flownexus.Commands.Members.{SiteConfig, SitesMap, site_named, store_site, load_sites, some_text}
use flownexus.Commands.Granted.{some_text_lem}
use flownexus.Commands.Provided.{Loaded}
use flownexus.Commands.SiteNames.{Unique, saved, mapped}

-- The invariants of the loop.
Sound : SitesMap → Db → Type 0
Sound known db = IsValid db.sites × Unique db.sites × Loaded known db

module _ (name description : String) (known : SitesMap) (db : Db) where
  store_site-Sound :
      Sound known db
      → (k : ℕ) × (after : Db) × (store_site name description db ≡ (ok k, after))
        × Sound ((name, k) ∷ known) after
  unfolding store_site update_or_create Sound
  store_site-Sound (valid, unique, loaded) =
      let new : Site = record {
        name = name;
        description = description;
        is_active = true;
        created_at = db.now;
      } in
      let change : Site → Site = λ s. record s { description = description; is_active = true } in
      let found = first (site_named name) db.sites.rows in
      let (v, u, only, others) =
        saved name new change db.sites valid unique refl (λ s. refl) found refl in
      (
        (save_row found new change db.sites).0,
        record db { sites = (save_row found new change db.sites).1 },
        refl,
        (
          v,
          u,
          mapped name _ known db.sites (save_row found new change db.sites).1 only others loaded,
        ),
      )

-- The name is in the map.
abbrev Maps : SitesMap → String → Type 0
Maps known name = is_some (find name known) ≡ true

-- The site of the configuration is in the map.
abbrev pub Mapped : SitesMap → SiteConfig → Type 0
Mapped known c = (name : String) × (c.name ≡ some name) × Maps known name

Maps-later :
    (name other : String) (k : ℕ) (known : SitesMap)
    → Maps known name
    → Maps ((other, k) ∷ known) name
Maps-later name other k known h = elim (Bool-cases (other == name)) [
  | inl e ↦ rw e refl
  | inr e ↦ rw e h
]

Maps-here : (name : String) (k : ℕ) (known : SitesMap) → Maps ((name, k) ∷ known) name
Maps-here name k known = rw ((eq_iff name name).1 refl) refl

Looped : List SiteConfig → SitesMap → SitesMap → Db → Type 0
Looped cs known end after =
    Sound end after × All (Mapped end) cs × ((name : String) → Maps known name → Maps end name)

looped :
    (cs : List SiteConfig) (known end : SitesMap) (db after : Db)
    → Sound known db
    → load_sites cs known db ≡ (ok end, after)
    → Looped cs known end after
unfolding load_sites Looped
looped [] known end db after sound h =
    let map_kept : known ≡ end = cc in
    let db_kept : db ≡ after = ap (λ (x : Result SitesMap × Db). x.1) h in
    rw (sym map_kept, sym db_kept) (sound, tt, λ name m. m)
looped (c ∷ cs) known end db after sound h =
    go (some_text c.name) refl (λ map mid. looped cs map end mid after)
  where
    go :
        (o : Option String)
        → some_text c.name ≡ o
        → ((map : SitesMap) (mid : Db)
            → Sound map mid
            → load_sites cs map mid ≡ (ok end, after)
            → Looped cs map end after)
        → Looped (c ∷ cs) known end after
    go none e rest =
        let refused : ◌≡◌ {A = Result SitesMap × Db} (err command_error, db) (ok end, after) =
          rw e at h in
        cc
    go (some name) e rest =
        let (k, mid, stored, sound_then) =
          store_site-Sound name (or_else c.description "") known db sound in
        let onward = λ (key : ℕ). load_sites cs ((name, key) ∷ known) in
        let run : proceed onward (store_site name (or_else c.description "") db) ≡ (ok end, after) =
          rw e at h in
        let (sound_end, all_mapped, kept) =
          rest ((name, k) ∷ known) mid sound_then (sym (ap (proceed onward) stored) ∙ run) in
        (
          sound_end,
          ((name, some_text_lem c.name name e, kept name (Maps-here name k known)), all_mapped),
          λ other m. kept other (Maps-later other name k known m),
        )

-- Site entries that `load_sites` accepts are all in the map that it hands on, and each name of the map
-- has the key of the one site with that name: no other site has it. Site names are still unique and
-- keys rising, as before.
pub load_sites-Loaded :
    (cs : List SiteConfig) (db after : Db) (known : SitesMap)
    → IsValid db.sites
    → Unique db.sites
    → load_sites cs [] db ≡ (ok known, after)
    → Loaded known after × All (Mapped known) cs × Unique after.sites × IsValid after.sites
unfolding Sound Looped
load_sites-Loaded cs db after known valid unique h =
    let ((v, u, loaded), all_mapped, _) =
      looped cs [] known db after (valid, unique, λ name k s e. cc) h in
    (loaded, all_mapped, u, v)
