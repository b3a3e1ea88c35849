-- ===== src/Endpoints/Organizations.antt =====
-- internal/endpoints/organizations.go.
use backend_assessment.Prelude.{Option, none, some, String, List, [], if◌then◌else◌, str_eq}
use backend_assessment.Models.{Organization}
use backend_assessment.Http.{
  Request, Response, json, unauthorized, internal_error, Services, scan_all,
}

abbrev pub select_organizations : String
select_organizations = "SELECT id, name, settings, created_at, updated_at FROM organizations"

module _ {W : Type 0} (sv : Services W) where
  unfoldable pub organizations_result : Option (List (Option Organization)) × W → Response × W
  organizations_result (none, w) = (internal_error, w)
  organizations_result (some rows, w) = (json (sv.encode_organizations (scan_all rows)), w)

  -- `ListOrganizations`
  unfoldable pub list_organizations : Request → W → Response × W
  list_organizations r w =
      if str_eq r.user_id ""
      then (unauthorized, w)
      else organizations_result (sv.query_organizations select_organizations [] w)
