-- ===== src/Commands/Accepted.antt =====
-- What an accepted configuration and a committed transaction say.
use flownexus.Prelude.{ℕ, ◌≡◌, ap, ◌∙◌, List, [], ◌∷◌, nat_key, text_key}
use flownexus.Models.Db.{Db}
use flownexus.Models.Exec.{Result, ok, err, roll_back, bind-returned, state_of, ◌>>=◌, pure}
use flownexus.Commands.Members.{
  SiteConfig, UserConfig, Part, missing, malformed, given, Config, filled, mapping, validate_config,
}

pub rolled :
    (db after : Db) (x : Result (Unit {0}) × Db)
    → roll_back db x ≡ (ok tt, after)
    → x ≡ (ok tt, after)
rolled db after (ok tt, mid) h = h
rolled db after (err e, mid) h = cc

filled_ok :
    {A : Type 0} (a : Part (List A)) (xs : List A) (db mid : Db)
    → filled a db ≡ (ok xs, mid)
    → (db ≡ mid) × (a ≡ given xs)
filled_ok missing xs db mid h = cc
filled_ok malformed xs db mid h = cc
filled_ok (given []) xs db mid h = cc
filled_ok {A} (given (y ∷ ys)) xs db mid h =
    let same : ◌≡◌ {A = List A} (y ∷ ys) xs = cc in (state_of h, ap given same)

mapping_ok : (a : Part ℕ) (n : ℕ) (db mid : Db) → mapping a db ≡ (ok n, mid) → db ≡ mid
mapping_ok missing n db mid h = cc
mapping_ok malformed n db mid h = cc
mapping_ok (given m) n db mid h = state_of h

-- A configuration that is accepted has all its parts, and nothing has been written yet.
pub accepted :
    (c : Config) (db mid : Db) (parts : List SiteConfig × List UserConfig × ℕ)
    → validate_config c db ≡ (ok parts, mid)
    → (db ≡ mid) × (c.sites ≡ given parts.0) × (c.users ≡ given parts.1)
unfolding validate_config
accepted c db mid parts h =
    let (sites, mid1, e1, h1) =
      bind-returned (filled c.sites)
        (λ sites.
          filled c.users >>= λ users. mapping c.devices >>= λ count. pure (sites, users, count))
        db h in
    let (users, mid2, e2, h2) =
      bind-returned (filled c.users)
        (λ users. mapping c.devices >>= λ count. pure (sites, users, count)) mid1 h1 in
    let (count, mid3, e3, h3) =
      bind-returned (mapping c.devices) (λ count. pure (sites, users, count)) mid2 h2 in
    let (same1, all_sites) = filled_ok c.sites sites db mid1 e1 in
    let (same2, all_users) = filled_ok c.users users mid1 mid2 e2 in
    let parts_same : ◌≡◌ {A = List SiteConfig × List UserConfig × ℕ} (sites, users, count) parts =
      cc in
    (
      same1 ∙ same2 ∙ mapping_ok c.devices count mid2 mid3 e3 ∙ state_of h3,
      all_sites ∙ ap (λ (p : List SiteConfig × List UserConfig × ℕ). given p.0) parts_same,
      all_users ∙ ap (λ (p : List SiteConfig × List UserConfig × ℕ). given p.1) parts_same,
    )
