-- ===== src/Address/Valid.antt =====
-- What the checks of user ids and home servers of src/cm-utils.c have in common.
use Prim.Native.String.{◌++◌ as ◌⧺◌}
use text.Mathlib.TextLemmas.{append-eq-nil_iff}
use mathlib.Core.Bool.{false≢true}
use libcmatrix.Base.{String, ◌≡◌, ◌≤◌, refl, Bool-cases, inl, inr, true, false, some, arith, eq_iff}
use libcmatrix.Base.Text.{str_eq}
use libcmatrix.Address.{
  AddressEnv, home_server_valid, user_name_valid, get_url_from_user_id, with_scheme,
}

module _ (env : AddressEnv) where
  -- The server that is read from a user id is a valid home server, and the user id is one that the
  -- check of user ids accepts, of at most 255 bytes.
  pub get_url_from_user_id-valid :
      (id url : String)
      → get_url_from_user_id env (some id) ≡ some url
      → (home_server_valid env (some url) ≡ true)
        × (url ≡ env.after_colon id)
        × (env.is_user_id id ≡ true)
        × (env.strlen id ≤ 255)
  unfolding get_url_from_user_id user_name_valid
  get_url_from_user_id-valid id url h = ground (arith, h)

  -- A home server that is named without a scheme is checked as the one behind "https://".
  pub home_server_valid-https :
      (server : String)
      → str_eq server "" ≡ false
      → env.contains server "//" ≡ false
      → env.contains ("https://" ⧺ server) "//" ≡ true
      → home_server_valid env (some server) ≡ home_server_valid env (some ("https://" ⧺ server))
  unfolding home_server_valid with_scheme
  home_server_valid-https server named bare full =
      elim (Bool-cases (str_eq ("https://" ⧺ server) "")) [
        | inl e ↦ absurd (
            false≢true (
              (eq_iff "https://" "").1
                (append-eq-nil_iff.0 ((eq_iff ("https://" ⧺ server) "").0 e)).0))
        | inr e ↦ rw (named, e) (rw (bare, full) refl)
      ]
