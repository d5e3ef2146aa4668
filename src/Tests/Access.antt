-- ===== src/Tests/Access.antt =====
-- Site contexts, visible endpoints and the navigation at concrete requests.
use flownexus.Prelude.{ℕ, ◌≡◌, refl, true, false, none, some, [], ◌∷◌, arith, inl}
use flownexus.Models.Rows.{Endpoint, can_view_overview}
use flownexus.Models.Exec.{ok}
use flownexus.Access.Middleware.{SiteKey, Context, site_context}
use flownexus.Access.Permissions.{has_site_permission, site_filtered_endpoints}
use flownexus.Access.Context.{HasContext, site_context-HasContext}
use flownexus.Access.Isolation.{IsPermitted, site_filtered_endpoints-IsPermitted}
use flownexus.Access.Navigation.{navigation, shows-eq-has_site_permission}
use flownexus.Tests.Data.{deployment, plain_user, membership}

-- The default of a user with no session: the site that was joined last.
abbrev north : Context
north = record {
  site = some 1;
  site_membership = some (membership 7 1 5);
  current_site_key = some (SiteKey.id 1);
  is_global_admin = false;
  available_sites = 1 ∷ [];
}

default_context : site_context deployment 7 plain_user none ≡ ok (north, some (SiteKey.id 1))
unfolding site_context
default_context = refl

abbrev device : Endpoint
device = record { registered = true; site = some 1 }

sees_own_site :
    site_filtered_endpoints deployment 7 plain_user north (some can_view_overview)
    ≡ ("urn:imei:1", device) ∷ []
unfolding site_filtered_endpoints
sees_own_site = refl

site_filtered_endpoints-IsPermitted_example :
    (s : ℕ) × (device.site ≡ some s) × IsPermitted deployment 7 can_view_overview s
unfolding site_context site_filtered_endpoints
site_filtered_endpoints-IsPermitted_example =
    site_filtered_endpoints-IsPermitted deployment 7 plain_user refl can_view_overview none
      (some (SiteKey.id 1)) north "urn:imei:1" device (omega arith) refl (inl refl)

shows-eq-has_site_permission_example :
    (navigation deployment 7 north).shows can_view_overview
    ≡ has_site_permission deployment 7 plain_user north can_view_overview
unfolding site_context
shows-eq-has_site_permission_example =
    shows-eq-has_site_permission deployment 7 plain_user none (some (SiteKey.id 1)) north
      can_view_overview (omega arith) refl

site_context-HasContext_example : HasContext deployment 7 north
unfolding site_context
site_context-HasContext_example =
    site_context-HasContext deployment 7 plain_user refl none north (some (SiteKey.id 1)) refl
