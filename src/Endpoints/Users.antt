-- ===== src/Endpoints/Users.antt =====
-- internal/endpoints/users.go.
use Prim.Native.String.{◌++◌ as text_append}
use backend_assessment.Prelude.{Option, none, some, String, List, [], ◌∷◌, if◌then◌else◌, str_eq}
use backend_assessment.Models.{User}
use backend_assessment.Http.{
  Request, Response, failure, json, unauthorized, internal_error, Scanned, row, scan_error,
  Services, scan_all,
}

abbrev pub select_users : String
select_users = "SELECT id, email, organization_id, role, created_at, updated_at FROM users"

module _ {W : Type 0} (sv : Services W) where
  unfoldable pub users_result : Option (List (Option User)) × W → Response × W
  users_result (none, w) = (internal_error, w)
  users_result (some rows, w) = (json (sv.encode_users (scan_all rows)), w)

  -- `ListUsers`
  unfoldable pub list_users : Request → W → Response × W
  list_users r w =
      if str_eq r.user_id ""
      then (unauthorized, w)
      else users_result (sv.query_users select_users [] w)

  unfoldable pub user_result : Scanned User × W → Response × W
  user_result (row u, w) = (json (sv.encode_user u), w)
  user_result (scan_error e, w) =
      (if str_eq e "no rows in result set" then failure "User not found" 404 else internal_error, w)

  -- `GetUser`
  unfoldable pub get_user : Request → W → Response × W
  get_user r w =
      if str_eq r.user_id ""
      then (unauthorized, w)
      else user_result (sv.query_user (text_append select_users " WHERE id = $1") (r.id ∷ []) w)
