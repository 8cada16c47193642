-- ===== src/Room/Members/Agreed.antt =====
-- The list stores of a room's members and their tables (src/cm-room.c).
use libcmatrix.Base.{
  ℕ, String, ◌≡◌, refl, sym, ap, ◌∙◌, Bool, true, false, ◌&&◌, Option, none, some, List, [], ◌∷◌,
  ◌==◌, ==_iff, if◌then◌else◌, if_both, if_cases, if_false, ◌||◌, Bool-cases, inl, inr, eq_iff,
}
use libcmatrix.Base.Text.{str_eq}
use libcmatrix.Base.Table.{Table, lookup, contains, values}
use libcmatrix.Event.{is_some}
use libcmatrix.RoomEvent.{CmStatus, join, invite, leave, ban, knock, unknown}
use libcmatrix.Room.{CmRoom, Users}
use libcmatrix.Room.Answers.{is_member, find_user}
use libcmatrix.Room.Name.{Naming, generate_name}
use libcmatrix.Room.Members.{
  remove_invited, remove_joined, member_joined, member_invited, member_left, update_member, is_join,
  update_user, user_left, users_left,
}
use libcmatrix.Room.Members.Filed.{IsFiled, Agrees, IsFound, Agrees-insert, Agrees-remove}

abbrev pub IsAgreed : Users → CmRoom → Type 0
IsAgreed users self =
    Agrees users self.joined_members self.joined_members_table
    × Agrees users self.invited_members self.invited_members_table

module _ (users : Users) where
  remove_invited-IsAgreed :
      (self : CmRoom) (id : String) (o : Option ℕ)
      → IsAgreed users self
      → lookup self.invited_members_table id ≡ o
      → IsAgreed users (remove_invited self id o)
  unfolding remove_invited
  remove_invited-IsAgreed self id none h e = h
  remove_invited-IsAgreed self id (some ref) h e =
      (h.0, Agrees-remove users self.invited_members self.invited_members_table id h.1 ref e)

  remove_joined-IsAgreed :
      (self : CmRoom) (id : String) (o : Option ℕ)
      → IsAgreed users self
      → lookup self.joined_members_table id ≡ o
      → IsAgreed users (remove_joined self id o)
  unfolding remove_joined
  remove_joined-IsAgreed self id none h e = h
  remove_joined-IsAgreed self id (some ref) h e =
      (Agrees-remove users self.joined_members self.joined_members_table id h.0 ref e, h.1)

  member_joined-IsAgreed :
      (self : CmRoom) (id : String)
      → IsFound users id
      → IsAgreed users self
      → IsAgreed users (member_joined self id (users.find id))
  unfolding member_joined
  member_joined-IsAgreed self id f h =
      let next = remove_invited self id (lookup self.invited_members_table id) in
      let kept = remove_invited-IsAgreed self id (lookup self.invited_members_table id) h refl in
      if_cases (IsAgreed users) (contains next.joined_members_table id) (λ e. kept)
        (λ e.
          (Agrees-insert users next.joined_members next.joined_members_table id kept.0 f e, kept.1))

  member_invited-IsAgreed :
      (self : CmRoom) (id : String)
      → IsFound users id
      → IsAgreed users self
      → IsAgreed users (member_invited self id (users.find id))
  unfolding member_invited
  member_invited-IsAgreed self id f h =
      if_cases (IsAgreed users) (contains self.invited_members_table id) (λ e. h)
        (λ e. (h.0, Agrees-insert users self.invited_members self.invited_members_table id h.1 f e))

-- what a named room is apart from its name
pub named_kept :
    (env : Naming) (P : CmRoom → Type 0) (self : CmRoom)
    → P self
    → P (record self { generated_name = generate_name env self })
    → P (
        if is_some self.name
        then self
        else if is_some self.generated_name
        then self
        else record self { generated_name = generate_name env self })
named_kept env P self h k =
    if_both P (is_some self.name) h (if_both P (is_some self.generated_name) h k)

module _ (env : Naming) where
  member_left-IsAgreed :
      (self : CmRoom) (id : String)
      → IsAgreed env.users self
      → IsAgreed env.users (member_left env self id)
  unfolding member_left
  member_left-IsAgreed self id h =
      named_kept env
        (λ (s : CmRoom).
          IsAgreed env.users (remove_joined s id (lookup self.joined_members_table id)))
        self (remove_joined-IsAgreed env.users self id (lookup self.joined_members_table id) h refl)
        (remove_joined-IsAgreed env.users (record self { generated_name = generate_name env self })
          id (lookup self.joined_members_table id) h refl)

  update_member-IsAgreed :
      (self : CmRoom) (status : CmStatus) (id : String)
      → IsFound env.users id
      → IsAgreed env.users self
      → IsAgreed env.users (update_member env self status id (env.users.find id))
  unfolding update_member
  update_member-IsAgreed self join id f h = member_joined-IsAgreed env.users self id f h
  update_member-IsAgreed self invite id f h = member_invited-IsAgreed env.users self id f h
  update_member-IsAgreed self leave id f h = member_left-IsAgreed self id h
  update_member-IsAgreed self unknown id f h = h
  update_member-IsAgreed self ban id f h = h
  update_member-IsAgreed self knock id f h = h

  update_user-IsAgreed :
      (self : CmRoom) (status : CmStatus) (by_self : Bool) (id : String)
      → IsFound env.users id
      → IsAgreed env.users self
      → IsAgreed env.users (update_user env self status by_self id)
  unfolding update_user
  update_user-IsAgreed self status by_self id f h =
      if_both (IsAgreed env.users) (is_join status && by_self) h
        (update_member-IsAgreed self status id f h)

  found_member :
      (t : Table ℕ) (id : String)
      → IsFiled env.users t
      → contains t id ≡ true
      → is_member (values t) (env.users.find id) ≡ true
  unfolding contains
  found_member [] id h e = cc
  found_member ((k, v) ∷ t) id h e = elim (Bool-cases (str_eq k id)) [
    | inl same ↦
        ap (λ (b : Bool). b || is_member (values t) (env.users.find id))
          ((==_iff v (env.users.find id)).1 (h.0.0 ∙ ap env.users.find ((eq_iff k id).0 same)))
    | inr other ↦
        either (v == env.users.find id)
          (found_member t id h.1 (sym (if_false (str_eq k id) true (contains t id) other) ∙ e))
  ]
    where
      either : (b : Bool) {c : Bool} → c ≡ true → b || c ≡ true
      either true g = refl
      either false g = g

  new_absent :
      (refs : List ℕ) (t : Table ℕ) (id : String)
      → Agrees env.users refs t
      → is_member refs (env.users.find id) ≡ false
      → contains t id ≡ false
  new_absent refs t id h e = elim (Bool-cases (contains t id)) [
    | inl held ↦ cc (
        sym (ap (λ (r : List ℕ). is_member r (env.users.find id)) h.0 ∙ found_member t id h.2 held)
        ∙ e)
    | inr absent ↦ absent
  ]

  find_user-IsAgreed :
      (self : CmRoom) (id : String)
      → IsFound env.users id
      → IsAgreed env.users self
      → IsAgreed env.users (find_user env.users self id)
  unfolding find_user
  find_user-IsAgreed self id f h =
      if_cases (IsAgreed env.users) (is_member self.joined_members (env.users.find id)) (λ e. h)
        (λ e. (
          Agrees-insert env.users self.joined_members self.joined_members_table id h.0 f
              (new_absent self.joined_members self.joined_members_table id h.0 e),
          h.1,
        ))

  users_left-IsAgreed :
      (self : CmRoom) (ids : List String)
      → IsAgreed env.users self
      → IsAgreed env.users (users_left self ids)
  unfolding users_left user_left
  users_left-IsAgreed self [] h = h
  users_left-IsAgreed self (id ∷ ids) h =
      users_left-IsAgreed (user_left self id (lookup self.joined_members_table id)) ids
        (left_agreed (lookup self.joined_members_table id) refl)
    where
      left_agreed :
          (o : Option ℕ)
          → lookup self.joined_members_table id ≡ o
          → IsAgreed env.users (user_left self id o)
      left_agreed none e = h
      left_agreed (some ref) e = remove_joined-IsAgreed env.users self id (some ref) h e

  -- A member event of whatever status, room_find_user and the users that left in a sync keep the list store of the joined
  -- members and that of those invited at the values of their tables, in order, where each user is found
  -- under its id, also the user of the event.
  pub members-IsAgreed :
      (self : CmRoom) (status : CmStatus) (by_self : Bool) (id : String) (ids : List String)
      → IsFound env.users id
      → IsAgreed env.users self
      → IsAgreed env.users (update_user env self status by_self id)
        × IsAgreed env.users (find_user env.users self id)
        × IsAgreed env.users (users_left self ids)
  members-IsAgreed self status by_self id ids f h = (
    update_user-IsAgreed self status by_self id f h,
    find_user-IsAgreed self id f h,
    users_left-IsAgreed self ids h,
  )
