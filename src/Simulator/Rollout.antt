-- ===== src/Simulator/Rollout.antt =====
-- A firmware update with a simulated device: what its posts make of the server's database.
use flownexus.Prelude.{
  ℕ, ◌≡◌, String, Bool, true, ◌||◌, some, List, [], ◌∷◌, ◌++◌, nat_key, if◌then◌else◌,
}
use flownexus.Prelude.Int.{pos, int_key}
use flownexus.Table.{select, get}
use flownexus.Models.Rows.{
  integer, string, Firmware, FirmwareUpdate, state_idle, result_success, result_update_failed,
}
use flownexus.Models.Db.{Db}
use flownexus.Models.Update.{is_active, refers_to}
use flownexus.Fota.Reboot.{runs, NotPending}
use flownexus.Models.Device.{text}
use flownexus.Tasks.{post, put_value}
use flownexus.Simulator.{singleton, SinglePost, Downloads, answer, run_job}

-- What a device posts that is asked to download a file and then to execute the update.
abbrev pub all_posts : String → String → Downloads → List SinglePost
unfolding answer run_job
all_posts ep uri known =
    let written = answer (put_value ep (pos 5) 0 (pos 1) (text uri) string) in
    let executed = answer (post ep (pos 5) 0 (pos 2)) in
    let (posts, then_known) = run_job true written.1 known in
    posts ++ (run_job true executed.1 then_known).0

module _ (ep : String) (k : ℕ) (fw : Firmware) where
  -- The update `k` has ended as the version says, its operations are settled, and the device has no
  -- active update left.
  abbrev pub Ended : String → Db → Type 0
  Ended version db =
      (u : FirmwareUpdate) × (get k db.updates ≡ some u)
      × (u.state ≡ state_idle)
      × (u.result ≡ (if runs fw version then result_success else result_update_failed))
      × (select (is_active ep) db.updates.rows ≡ [])
      × ((j : ℕ)
          → (refers_to u.execute_operation j || refers_to u.send_uri_operation j) ≡ true
          → NotPending (get j db.operations))

module _ (is_float : String → Bool) (ep : String) (k : ℕ) (fw : Firmware) where
  four_posts : String → List SinglePost
  four_posts version =
      (ep, pos 5, singleton (pos 3) integer "1")
      ∷ (ep, pos 5, singleton (pos 3) integer "2")
      ∷ (ep, pos 5, singleton (pos 3) integer "3")
      ∷ (ep, pos 3, singleton (pos 3) string version)
      ∷ []
