-- ===== src/Commands/Whole.antt =====
-- `load_scenario` as a whole.
use flownexus.Prelude.{◌≡◌, List, All}
use flownexus.Models.Db.{Db}
use flownexus.Models.Keeps.{Keeps}
use flownexus.Commands.Members.{SiteConfig, UserConfig, SitesMap}
use flownexus.Commands.Provided.{Loaded}
use flownexus.Commands.Sites.{Mapped}
use flownexus.Commands.Users.{UsersLoaded}

abbrev SameRest : Db → Db → Type 0
SameRest before db = (db.users ≡ before.users) × (db.memberships ≡ before.memberships)

-- The map names the sites of the configuration, and the users are as it says.
abbrev pub ScenarioLoaded : SitesMap → List SiteConfig → List UserConfig → Db → Type 0
ScenarioLoaded known sites users db =
    Loaded known db × All (Mapped known) sites × UsersLoaded known users db
