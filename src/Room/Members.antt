-- ===== src/Room/Members.antt =====
-- The members of a room: cm_room_update_user, and the users of cm_room_set_data that left
-- (src/cm-room.c). The profiles that cm_user_set_json_data takes are the users'.
pub mod Filed
pub mod Agreed
use libcmatrix.Base.{
  ℕ, String, Bool, true, false, not, ◌&&◌, Option, none, some, List, [], ◌∷◌, ◌++◌, ◌==◌,
  if◌then◌else◌,
}
use libcmatrix.Base.Table.{Table, lookup, insert, remove, contains}
use libcmatrix.Event.{is_some}
use libcmatrix.RoomEvent.{CmStatus, join, invite, leave}
use libcmatrix.Room.{CmRoom}
use libcmatrix.Room.Name.{Naming, generate_name}

-- cm_utils_remove_list_item of a user
unfoldable pub remove_user : List ℕ → ℕ → List ℕ
remove_user [] ref = []
remove_user (r ∷ refs) ref = if r == ref then refs else r ∷ remove_user refs ref

-- the name is made again when it is asked for
abbrev pub forget_name : CmRoom → CmRoom
forget_name self = record self { past_name = self.generated_name; generated_name = none }

unfoldable pub remove_invited : CmRoom → String → Option ℕ → CmRoom
unfolding remove_user
remove_invited self id none = self
remove_invited self id (some ref) = record self {
  invited_members_table = remove self.invited_members_table id;
  invited_members = remove_user self.invited_members ref;
}

unfoldable pub remove_joined : CmRoom → String → Option ℕ → CmRoom
unfolding remove_user
remove_joined self id none = self
remove_joined self id (some ref) = record self {
  joined_members_table = remove self.joined_members_table id;
  joined_members = remove_user self.joined_members ref;
}

unfoldable pub member_joined : CmRoom → String → ℕ → CmRoom
unfolding remove_invited
member_joined self id ref =
    let next = remove_invited self id (lookup self.invited_members_table id) in
    if contains next.joined_members_table id
    then forget_name next
    else forget_name (record next {
      joined_members = next.joined_members ++ (ref ∷ []);
      joined_members_table = insert next.joined_members_table id ref;
    })

unfoldable pub member_invited : CmRoom → String → ℕ → CmRoom
member_invited self id ref =
    if contains self.invited_members_table id
    then forget_name self
    else forget_name (record self {
      invited_members = self.invited_members ++ (ref ∷ []);
      invited_members_table = insert self.invited_members_table id ref;
      db_save_pending = true;
    })

unfoldable pub is_join : CmStatus → Bool
is_join join = true
is_join status = false

module _ (env : Naming) where
  unfoldable pub member_left : CmRoom → String → CmRoom
  unfolding remove_joined is_some generate_name
  member_left self id =
      let named =
        if is_some self.name
        then self
        else if is_some self.generated_name
        then self
        else record self { generated_name = generate_name env self } in
      let next = remove_joined named id (lookup self.joined_members_table id) in
      record (forget_name next) { db_save_pending = true }

  -- the member of the event and its object in the list of users, by the member's status
  unfoldable pub update_member : CmRoom → CmStatus → String → ℕ → CmRoom
  unfolding member_joined member_invited member_left
  update_member self join id ref = member_joined self id ref
  update_member self invite id ref = member_invited self id ref
  update_member self leave id ref = member_left self id
  update_member self status id ref = self

  -- cm_room_update_user of an event with JSON; `by_self` is whether the sender is the client's user
  unfoldable pub update_user : CmRoom → CmStatus → Bool → String → CmRoom
  unfolding update_member is_join
  update_user self status by_self id =
      if is_join status && by_self then self else update_member self status id (env.users.find id)

-- a user of "left" in cm_room_set_data
unfoldable pub user_left : CmRoom → String → Option ℕ → CmRoom
unfolding remove_joined
user_left self id none = self
user_left self id (some ref) = record (remove_joined self id (some ref)) { keys_claimed = false }

-- the loop over "left" in cm_room_set_data
unfoldable pub users_left : CmRoom → List String → CmRoom
unfolding user_left
users_left self [] = self
users_left self (id ∷ ids) =
    users_left (user_left self id (lookup self.joined_members_table id)) ids
