-- ===== src/Tests/Simulator.antt =====
-- The simulated devices at a concrete database.
use flownexus.Prelude.{◌≡◌, refl, String, Bool, false, none}
use flownexus.Models.Db.{Db}
use flownexus.Simulator.{version_from, Downloads}

abbrev no_float : String → Bool
no_float text = false

abbrev nothing_known : Downloads
nothing_known name = none

abbrev uri : String
uri = "/binaries/v1.0.1_rc1.bin"

version_of_file : version_from uri ≡ "v1.0.1_rc1"
unfolding version_from
version_of_file = refl
