-- ===== src/UserList/Changed.antt =====
-- The users whose devices changed: what marks them and what a mark does (src/users/cm-user-list.c).
use libcmatrix.Base.{
  ℕ, String, ◌≡◌, refl, ◌∙◌, Bool, true, false, Option, none, some, List, [], ◌∷◌, ◌||◌, not, any,
  ◌==◌, arith, if◌then◌else◌, if_both,
}
use libcmatrix.Base.Text.{str_eq}
use libcmatrix.Base.Table.{lookup, contains, contains-insert, insert}
use libcmatrix.Event.{is_some}
use libcmatrix.Json.{JsonNode, JsonObject}
use libcmatrix.Json.Glib.{JsonGlib}
use libcmatrix.Json.Access.{object_get_array}
use libcmatrix.Device.{CmDevice, array_elements}
use libcmatrix.Enc.{EncEnv, starts_with_at}
use libcmatrix.UserList.{
  CmUserList, Claim, id_text, user_id_at, add_user, find_or_create, find_user, mark_changed,
  device_changed_loop, device_changed, changed_count, claim_keys,
}
use libcmatrix.UserList.Answer.{Handlers, mark_again, take_answer}

found-changed_users :
    (self : CmUserList) (user_id : String) (create : Bool) (user : Option ℕ)
    → (find_or_create self user_id create user).1.changed_users ≡ self.changed_users
unfolding find_or_create add_user
found-changed_users self user_id create (some ref) = refl
found-changed_users self user_id true none = refl
found-changed_users self user_id false none = refl

find_user-changed_users :
    (self : CmUserList) (user_id : String) (create : Bool)
    → (find_user self user_id create).1.changed_users ≡ self.changed_users
unfolding find_user
find_user-changed_users self user_id create =
    if_both (λ (r : Option ℕ × CmUserList). r.1.changed_users ≡ self.changed_users)
      (starts_with_at user_id)
      (found-changed_users self user_id create (lookup self.users_table user_id)) refl

-- the server's list names the user
abbrev pub is_named : JsonGlib → List JsonNode → String → Bool
is_named g nodes id = any (λ node. str_eq (id_text (g.get_string node)) id) nodes

loop-contains :
    (g : JsonGlib) (self : CmUserList) (nodes : List JsonNode) (id : String)
    → contains (device_changed_loop g self nodes).1.changed_users id
      ≡ (is_named g nodes id || contains self.changed_users id)
unfolding device_changed_loop mark_changed
loop-contains g self [] id = refl
loop-contains g self (node ∷ nodes) id =
    let user_id = id_text (g.get_string node) in
    let (user, found) = find_user self user_id true in
    ground (
      arith,
      loop-contains g (mark_changed found user_id user) nodes id,
      contains-insert found.changed_users user_id id user,
      find_user-changed_users self user_id true,
    )

claim_changed-count :
    (self : CmUserList) (claim : Claim)
    → (changed_count self claim == 0)
      ≡ not (any (λ (user : String × List CmDevice). contains self.changed_users user.0) claim)
unfolding changed_count
claim_changed-count self [] = refl
claim_changed-count self ((user_id, devices) ∷ claim) =
    ground (arith, claim_changed-count self claim)

is_some-if {ℓ} : {A : Type ℓ} (b : Bool) (x : A) → is_some (if b then some x else none) ≡ b
unfolding is_some
is_some-if true x = refl
is_some-if false x = refl

-- A claim of one-time keys is sent exactly where none of its users is marked as changed.
pub claim_keys-sent :
    (self : CmUserList) (claim : Claim)
    → is_some (claim_keys self claim)
      ≡ not (any (λ (user : String × List CmDevice). contains self.changed_users user.0) claim)
unfolding claim_keys
claim_keys-sent self claim =
    is_some-if (changed_count self claim == 0) _ ∙ claim_changed-count self claim

-- After a notice of the server, a claim for one user is refused exactly where the notice names the
-- user or the user was marked as changed before.
pub device_changed-claim :
    (g : JsonGlib) (self : CmUserList) (root : JsonObject) (user_id : String)
    (devices : List CmDevice)
    → is_some (claim_keys (device_changed g self root).1 ((user_id, devices) ∷ []))
      ≡ not (
          is_named g (array_elements (object_get_array (some root) (some "changed"))) user_id
          || contains self.changed_users user_id)
unfolding device_changed
device_changed-claim g self root user_id devices =
    let nodes = array_elements (object_get_array (some root) (some "changed")) in
    claim_keys-sent (device_changed g self root).1 ((user_id, devices) ∷ [])
    ∙ ground (arith, loop-contains g self nodes user_id)

mark_again-contains :
    (refs : List ℕ) (self : CmUserList) (id : String)
    → contains (mark_again self refs).changed_users id
      ≡ (any (λ ref. str_eq (user_id_at self ref) id) refs || contains self.changed_users id)
unfolding mark_again user_id_at
mark_again-contains [] self id = refl
mark_again-contains (ref ∷ refs) self id = ground (
  arith,
  mark_again-contains refs
      (record self { changed_users = insert self.changed_users (user_id_at self ref) (some ref) })
      id,
  contains-insert self.changed_users (user_id_at self ref) id (some ref),
)

-- After a request for device keys failed, the users that are marked as changed are those that were
-- marked before the answer and all of the users of the request.
pub take_answer_failed :
    (env : EncEnv) (on_user_changed : Handlers) (self : CmUserList) (users : ℕ) (id : String)
    → contains (take_answer env on_user_changed none users self).changed_users id ≡ (
        any (λ ref. str_eq (user_id_at self ref) id) (self.arrays users)
        || contains self.changed_users id)
unfolding take_answer
take_answer_failed env on_user_changed self users id =
    mark_again-contains (self.arrays users) self id
