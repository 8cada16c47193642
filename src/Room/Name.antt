-- ===== src/Room/Name.antt =====
-- The name of a room that has none: cm_room_generate_name and cm_room_get_past_name of src/cm-room.c.
use Prim.Native.String.{◌++◌}
use libcmatrix.Base.{
  not, ◌&&◌, ℕ, zero, suc, ◌-◌, String, ◌≡◌, refl, ap, ◌∙◌, Bool, false, Option, none, some, List,
  [], ◌∷◌, ◌==◌, All, length, if◌then◌else◌, if_false, ◌≤◌, arith,
}
use libcmatrix.Base.Text.{str_eq, is_empty, strcmp0_eq}
use libcmatrix.Event.{is_some}
use libcmatrix.Room.{CmRoom, Users}

-- the user's own id, and a number as printf writes it
pub record Naming : Type 0 where
  pub users : Users
  pub own : String
  pub show : ℕ → String

-- cm_room_get_past_name
unfoldable pub get_past_name : CmRoom → Option String
unfolding is_some strcmp0_eq
get_past_name self =
    if not (is_some self.name) && strcmp0_eq self.generated_name (some "Empty room")
    then self.past_name
    else none

pub record Named : Type 0 where
  pub count : ℕ
  pub name_a : Option String
  pub name_b : Option String

module _ (env : Naming) where
  abbrev pub is_own : ℕ → Bool
  is_own user = str_eq (env.users.id user) env.own

  -- the name that is shown of a user
  abbrev pub or_id : String → Option String → String
  or_id id none = id
  or_id id (some name) = if is_empty (some name) then id else name

  abbrev pub shown : ℕ → String
  shown user = or_id (env.users.id user) (env.users.display_name user)

  -- a round of the loop
  unfoldable add_name : Named → ℕ → Named
  add_name n user =
      if is_own user
      then record n { count = n.count - 1 }
      else if is_some n.name_a
      then record n { name_b = some (shown user) }
      else record n { name_a = some (shown user) }

  -- the loop over the first items
  unfoldable add_names : ℕ → List ℕ → Named → Named
  unfolding add_name
  add_names zero users n = n
  add_names (suc k) [] n = n
  add_names (suc k) (user ∷ users) n = add_names k users (add_name n user)

  abbrev or_nothing : Option String → String
  or_nothing none = ""
  or_nothing (some name) = name

  unfoldable name_text : Named → Option String
  name_text n =
      if n.count == 0
      then some "Empty room"
      else if n.count == 1
      then n.name_a
      else if n.count == 2
      then some ((or_nothing n.name_a ++ " and ") ++ or_nothing n.name_b)
      else some (((or_nothing n.name_a ++ " and ") ++ env.show (n.count - 1)) ++ " other(s)")

  -- the joined members, or the invited ones where there is none but the user
  unfoldable pub listed : List ℕ → List ℕ → List ℕ
  listed [] invited = invited
  listed (user ∷ []) invited = if is_own user then invited else user ∷ []
  listed (user ∷ other ∷ users) invited = user ∷ other ∷ users

  -- the name made of the listed members
  unfoldable name_of : List ℕ → Option String
  unfolding add_names name_text
  name_of users =
      name_text (add_names 3 users (record { count = length users; name_a = none; name_b = none }))

  -- cm_room_generate_name
  unfoldable pub generate_name : CmRoom → Option String
  unfolding name_of listed
  generate_name self = name_of (listed self.joined_members self.invited_members)

  -- the listed members but the user
  abbrev pub others : List ℕ → List ℕ
  others [] = []
  others (user ∷ users) = if is_own user then others users else user ∷ others users

  -- what a room is called by its other members
  abbrev pub described : List ℕ → Option String
  described [] = some "Empty room"
  described (a ∷ []) = some (shown a)
  described (a ∷ b ∷ []) = some ((shown a ++ " and ") ++ shown b)
  described (a ∷ b ∷ c ∷ users) =
      some (((shown a ++ " and ") ++ env.show (suc (suc (length users)))) ++ " other(s)")

  abbrev pub after_three : List ℕ → List ℕ
  after_three (a ∷ b ∷ c ∷ users) = users
  after_three users = []

  others-All : (users : List ℕ) → All (λ (u : ℕ). is_own u ≡ false) users → others users ≡ users
  others-All [] h = refl
  others-All (user ∷ users) h =
      if_false (is_own user) _ _ h.0 ∙ ap (λ (us : List ℕ). user ∷ us) (others-All users h.1)

  -- the user is listed once at most, and is not behind the third item
  abbrev pub IsOwnEarly : List ℕ → Type 0
  IsOwnEarly users =
      (length users ≤ suc (length (others users)))
      × All (λ (u : ℕ). is_own u ≡ false) (after_three users)

  name_of-described : (users : List ℕ) → IsOwnEarly users → name_of users ≡ described (others users)
  unfolding name_of name_text add_names add_name is_some
  name_of-described [] h = refl
  name_of-described (a ∷ []) h = ground arith
  name_of-described (a ∷ b ∷ []) h = ground arith
  name_of-described (a ∷ b ∷ c ∷ []) h = ground (arith, h.0)
  name_of-described (a ∷ b ∷ c ∷ d ∷ users) h = ground (arith, h.0, h.1.0, others-All users h.1.1)

  -- A room is named by the members that are joined, or by those invited where none but the user is joined: the one other,
  -- the two others, or the first other and the number of the rest; if there is no other, the room is called
  -- empty. The user is listed once at most, among the first three.
  pub generate_name-described :
      (self : CmRoom)
      → IsOwnEarly (listed self.joined_members self.invited_members)
      → generate_name self ≡ described (others (listed self.joined_members self.invited_members))
  unfolding generate_name
  generate_name-described self h =
      name_of-described (listed self.joined_members self.invited_members) h
