-- ===== src/Error.antt =====
-- Server errors: CmError of src/cm-enums.h, and error_codes and cm_utils_json_node_get_error of
-- src/cm-utils.c.
pub mod Codes
use libcmatrix.Base.{ℕ, suc, String, Bool, Option, none, some, List, [], ◌∷◌, if◌then◌else◌}
use libcmatrix.Base.Text.{str_eq}
use libcmatrix.Json.{JsonNode, JsonObject, array, object}
use libcmatrix.Json.Glib.{JsonGlib}
use libcmatrix.Json.Access.{object_get_string}
use text.Mathlib.Text.{starts_with}

-- the errors that a server reports
pub data CmError : Type 0 where
  forbidden unknown_token missing_token bad_json not_json not_found limit_exceeded unknown
        unrecognized unauthorized user_deactivated user_in_use invalid_username room_in_use
        invalid_room_state threepid_in_use threepid_not_found threepid_auth_failed threepid_denied
        server_not_trusted unsupported_room_version incompatible_room_version bad_state
        guest_access_forbidden captcha_needed captcha_invalid missing_param invalid_param too_large
        exclusive resource_limit_exceeded cannot_leave_server_notice_room :
      CmError

-- the enum's values
unfoldable pub value : CmError → ℕ
value forbidden = 1
value unknown_token = 2
value missing_token = 3
value bad_json = 4
value not_json = 5
value not_found = 6
value limit_exceeded = 7
value unknown = 8
value unrecognized = 9
value unauthorized = 10
value user_deactivated = 11
value user_in_use = 12
value invalid_username = 13
value room_in_use = 14
value invalid_room_state = 15
value threepid_in_use = 16
value threepid_not_found = 17
value threepid_auth_failed = 18
value threepid_denied = 19
value server_not_trusted = 20
value unsupported_room_version = 21
value incompatible_room_version = 22
value bad_state = 23
value guest_access_forbidden = 24
value captcha_needed = 25
value captcha_invalid = 26
value missing_param = 27
value invalid_param = 28
value too_large = 29
value exclusive = 30
value resource_limit_exceeded = 31
value cannot_leave_server_notice_room = 32

-- the names of the enum's members, less CM_ERROR_
unfoldable pub name : CmError → String
name forbidden = "FORBIDDEN"
name unknown_token = "UNKNOWN_TOKEN"
name missing_token = "MISSING_TOKEN"
name bad_json = "BAD_JSON"
name not_json = "NOT_JSON"
name not_found = "NOT_FOUND"
name limit_exceeded = "LIMIT_EXCEEDED"
name unknown = "UNKNOWN"
name unrecognized = "UNRECOGNIZED"
name unauthorized = "UNAUTHORIZED"
name user_deactivated = "USER_DEACTIVATED"
name user_in_use = "USER_IN_USE"
name invalid_username = "INVALID_USERNAME"
name room_in_use = "ROOM_IN_USE"
name invalid_room_state = "INVALID_ROOM_STATE"
name threepid_in_use = "THREEPID_IN_USE"
name threepid_not_found = "THREEPID_NOT_FOUND"
name threepid_auth_failed = "THREEPID_AUTH_FAILED"
name threepid_denied = "THREEPID_DENIED"
name server_not_trusted = "SERVER_NOT_TRUSTED"
name unsupported_room_version = "UNSUPPORTED_ROOM_VERSION"
name incompatible_room_version = "INCOMPATIBLE_ROOM_VERSION"
name bad_state = "BAD_STATE"
name guest_access_forbidden = "GUEST_ACCESS_FORBIDDEN"
name captcha_needed = "CAPTCHA_NEEDED"
name captcha_invalid = "CAPTCHA_INVALID"
name missing_param = "MISSING_PARAM"
name invalid_param = "INVALID_PARAM"
name too_large = "TOO_LARGE"
name exclusive = "EXCLUSIVE"
name resource_limit_exceeded = "RESOURCE_LIMIT_EXCEEDED"
name cannot_leave_server_notice_room = "CANNOT_LEAVE_SERVER_NOTICE_ROOM"

abbrev pub server_codes : List String
server_codes =
    "M_FORBIDDEN" ∷ "M_UNKNOWN_TOKEN" ∷ "M_MISSING_TOKEN" ∷ "M_BAD_JSON" ∷ "M_NOT_JSON"
    ∷ "M_NOT_FOUND" ∷ "M_LIMIT_EXCEEDED" ∷ "M_UNKNOWN" ∷ "M_UNRECOGNIZED" ∷ "M_UNAUTHORIZED"
    ∷ "M_USER_DEACTIVATED" ∷ "M_USER_IN_USE" ∷ "M_INVALID_USERNAME" ∷ "M_ROOM_IN_USE"
    ∷ "M_INVALID_ROOM_STATE" ∷ "M_THREEPID_IN_USE" ∷ "M_THREEPID_NOT_FOUND"
    ∷ "M_THREEPID_AUTH_FAILED" ∷ "M_THREEPID_DENIED" ∷ "M_SERVER_NOT_TRUSTED"
    ∷ "M_UNSUPPORTED_ROOM_VERSION" ∷ "M_INCOMPATIBLE_ROOM_VERSION" ∷ "M_BAD_STATE"
    ∷ "M_GUEST_ACCESS_FORBIDDEN" ∷ "M_CAPTCHA_NEEDED" ∷ "M_CAPTCHA_INVALID" ∷ "M_MISSING_PARAM"
    ∷ "M_INVALID_PARAM" ∷ "M_TOO_LARGE" ∷ "M_EXCLUSIVE" ∷ "M_RESOURCE_LIMIT_EXCEEDED"
    ∷ "M_CANNOT_LEAVE_SERVER_NOTICE_ROOM" ∷ []

-- index 0 is reserved for no error
abbrev pub error_codes : List String
error_codes = "" ∷ server_codes

pub record GError : Type 0 where
  pub code : ℕ
  pub message : String

-- the loop over error_codes: the first index from `i` on at which the text stands
unfoldable pub index_of : List String → String → ℕ → Option ℕ
index_of [] s i = none
index_of (c ∷ cs) s i = if str_eq c s then some i else index_of cs s (suc i)

unfoldable pub error_at : Option ℕ → String → GError
unfolding value
error_at (some i) error = record { code = i; message = error }
error_at none error = record { code = value unknown; message = "Unknown Error" }

unfoldable pub error_of_code : String → String → GError
unfolding error_at value
error_of_code err_code error =
    if starts_with err_code "M_"
    then error_at (index_of error_codes err_code 0) error
    else record { code = value unknown; message = "Invalid Error code" }

unfoldable pub or_unknown : Option String → String
or_unknown none = "Unknown Error"
or_unknown (some error) = error

unfoldable pub not_json_error : GError
unfolding value
not_json_error = record { code = value not_json; message = "Not JSON Object" }

unfoldable pub object_error : Option String → Option String → Option GError
unfolding error_of_code or_unknown
object_error none error = none
object_error (some err_code) error = some (error_of_code err_code (or_unknown error))

-- NULL and a node that is neither an object nor an array are no JSON; an array holds no error.
unfoldable pub json_node_get_error : JsonGlib → Option JsonNode → Option GError
unfolding object_error not_json_error
json_node_get_error g none = some not_json_error
json_node_get_error g (some (array xs)) = none
json_node_get_error g (some (object o)) =
    object_error (object_get_string g (some o) (some "errcode"))
      (object_get_string g (some o) (some "error"))
json_node_get_error g (some node) = some not_json_error
