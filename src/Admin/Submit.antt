-- ===== src/Admin/Submit.antt =====
-- What a saved configuration leaves in the store of the live data.
use readflow.Common.{◌≡◌, refl, true, some, List}
use readflow.State.AppStore.{AppStore, AdminState, Compare, Update, updates, admin_state_equal}
use readflow.State.AppStore.Admin.{set_admin_state_lem}
use readflow.Admin.{AdminConfig, AdminOverview, admin_payloads, submit_saved}

-- Whatever was received while the request to save was under way, the admin's state of the store is then
-- that of the rendering that sent the request, with the saved configuration: its scheduler, telemetry and
-- memory have the texts they had then. The form shows the saved configuration.
pub submit_saved-stale :
    {B R M P : Type 0} (c : Compare (admin_payloads B R M P))
    (rendered : AdminState (admin_payloads B R M P)) (next : AdminConfig) (v : AdminOverview)
    (meanwhile : List (Update (admin_payloads B R M P))) (s : AppStore (admin_payloads B R M P))
    → let (view, store) = submit_saved c rendered next (v, updates c meanwhile s) in
      (admin_state_equal c store.admin_state (some (record rendered { config = next })) ≡ true)
      × (view.form_state ≡ some next)
unfolding submit_saved
submit_saved-stale c rendered next v meanwhile s =
    ((set_admin_state_lem c (record rendered { config = next }) (updates c meanwhile s)).0, refl)
