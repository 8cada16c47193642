-- ===== src/Address.antt =====
-- Home servers and user ids: cm_utils_home_server_valid, cm_utils_user_name_valid and
-- cm_utils_get_url_from_user_id of src/cm-utils.c.
pub mod Valid
use Prim.Native.String.{◌++◌ as ◌⧺◌}
use libcmatrix.Base.{
  ℕ, String, Bool, true, false, not, ◌&&◌, ◌||◌, Option, none, some, leb, if◌then◌else◌,
}
use libcmatrix.Base.Text.{str_eq}

-- what GUri tells of a parsed text
pub record Uri : Type 0 where
  pub scheme : Option String
  pub host : Option String
  pub path : Option String

-- GLib's parser of URIs and regular expressions, and functions of the C library
pub record AddressEnv : Type 0 where
  -- g_uri_parse
  pub uri_parse : String → Option Uri
  -- g_regex_match_simple with MATRIX_USER_ID_RE
  pub is_user_id : String → Bool
  -- strstr, g_str_has_suffix, the text behind the first ":", and strlen
  pub contains : String → String → Bool
  pub has_suffix : String → String → Bool
  pub after_colon : String → String
  pub strlen : String → ℕ

-- `text && *text`
abbrev pub is_text : Option String → Bool
is_text none = false
is_text (some s) = not (str_eq s "")

abbrev pub is_http : Option String → Bool
is_http none = false
is_http (some s) = str_eq s "http" || str_eq s "https"

abbrev pub is_root : Option String → Bool
is_root none = true
is_root (some s) = str_eq s "" || str_eq s "/"

module _ (env : AddressEnv) where
  abbrev pub ends_with_dot : Option String → Bool
  ends_with_dot none = false
  ends_with_dot (some s) = env.has_suffix s "."

  -- no URI leaves all of its parts NULL
  unfoldable pub uri_valid : Option Uri → Bool
  uri_valid none = false
  uri_valid (some uri) =
      is_text uri.scheme
      && (is_http uri.scheme
          && (is_text uri.host && (not (ends_with_dot uri.host) && is_root uri.path)))

  -- the text that is parsed
  unfoldable pub with_scheme : String → String
  with_scheme server = if env.contains server "//" then server else "https://" ⧺ server

  unfoldable pub home_server_valid : Option String → Bool
  unfolding uri_valid with_scheme
  home_server_valid none = false
  home_server_valid (some server) =
      if str_eq server "" then false else uri_valid (env.uri_parse (with_scheme server))

  unfoldable pub user_name_valid : Option String → Bool
  unfolding home_server_valid
  user_name_valid none = false
  user_name_valid (some id) =
      not (str_eq id "")
      && (env.is_user_id id
          && (home_server_valid (some (env.after_colon id)) && leb (env.strlen id) 255))

  unfoldable pub get_url_from_user_id : Option String → Option String
  unfolding user_name_valid
  get_url_from_user_id none = none
  get_url_from_user_id (some id) =
      if user_name_valid (some id) then some (env.after_colon id) else none
