-- ===== src/Room/Members/Filed.antt =====
-- A list store that holds the values of its table, each under the id of its user (src/cm-room.c).
use mathlib.Core.Option.{none-ne-some}
use libcmatrix.Base.{
  ℕ, String, ◌≡◌, refl, sym, ap, ◌∙◌, true, false, some, List, [], ◌∷◌, ◌++◌, ◌==◌, ==_iff, if_both,
  if_cases, if_true, if_false, Bool-cases, inl, inr, eq_iff, arith,
}
use libcmatrix.Base.Text.{str_eq}
use libcmatrix.Base.Table.{
  Table, lookup, insert, remove, contains, values, IsKeyed, values-insert, insert-IsKeyed,
  remove-IsKeyed, remove_absent,
}
use libcmatrix.Room.{Users}
use libcmatrix.Room.Members.{remove_user}

-- every value is the user that is found under its key, which is the user's id
abbrev pub IsFiled : Users → Table ℕ → Type 0
IsFiled users [] = Unit
IsFiled users ((k, v) ∷ t) = ((v ≡ users.find k) × (users.id v ≡ k)) × IsFiled users t

-- a list store holds the values of its table, in order
abbrev pub Agrees : Users → List ℕ → Table ℕ → Type 0
Agrees users refs t = (refs ≡ values t) × IsKeyed t × IsFiled users t

-- the user that is found under an id has the id
abbrev pub IsFound : Users → String → Type 0
IsFound users id = users.id (users.find id) ≡ id

module _ (users : Users) where
  find_injective :
      (j k : String) → IsFound users j → IsFound users k → users.find j ≡ users.find k → j ≡ k
  find_injective j k f g e = sym f ∙ ap users.id e ∙ g

  IsFiled-insert :
      (t : Table ℕ) (id : String)
      → IsFound users id
      → IsFiled users t
      → IsFiled users (insert t id (users.find id))
  unfolding insert
  IsFiled-insert [] id f h = ((refl, f), tt)
  IsFiled-insert ((k, v) ∷ t) id f h =
      if_cases (IsFiled users) (str_eq k id)
        (λ e. ((ap users.find (sym ((eq_iff k id).0 e)), f ∙ sym ((eq_iff k id).0 e)), h.1))
        (λ e. (h.0, IsFiled-insert t id f h.1))

  IsFiled-remove : (t : Table ℕ) (id : String) → IsFiled users t → IsFiled users (remove t id)
  unfolding remove
  IsFiled-remove [] id h = tt
  IsFiled-remove ((k, v) ∷ t) id h =
      if_both (IsFiled users) (str_eq k id) (IsFiled-remove t id h.1) (h.0, IsFiled-remove t id h.1)

  found_apart :
      (j k : String)
      → IsFound users j
      → IsFound users k
      → str_eq j k ≡ false
      → (users.find j == users.find k) ≡ false
  found_apart j k f g e = elim (Bool-cases (users.find j == users.find k)) [
    | inl same ↦ cc (
        sym
          ((eq_iff j k).1 (find_injective j k f g ((==_iff (users.find j) (users.find k)).0 same)))
        ∙ e)
    | inr apart ↦ apart
  ]

  removed_values :
      (t : Table ℕ) (id : String)
      → IsFound users id
      → IsKeyed t
      → IsFiled users t
      → contains t id ≡ true
      → remove_user (values t) (users.find id) ≡ values (remove t id)
  unfolding remove_user remove contains
  removed_values [] id f keyed filed h = cc
  removed_values ((k, v) ∷ t) id f keyed filed h = elim (Bool-cases (str_eq k id)) [
    | inl e ↦
        if_true (v == users.find id) _ _
          ((==_iff v (users.find id)).1 (filed.0.0 ∙ ap users.find ((eq_iff k id).0 e)))
        ∙ ap values (sym (remove_absent t id (ap (contains t) (sym ((eq_iff k id).0 e)) ∙ keyed.0)))
        ∙ sym (ap values (if_true (str_eq k id) (remove t id) ((k, v) ∷ remove t id) e))
    | inr e ↦
        if_false (v == users.find id) _ _ (
          ap (λ (r : ℕ). r == users.find id) filed.0.0
          ∙ found_apart k id (sym (ap users.id filed.0.0) ∙ filed.0.1) f e)
        ∙ ap (λ (r : List ℕ). v ∷ r)
            (removed_values t id f keyed.1 filed.1
              (sym (if_false (str_eq k id) true (contains t id) e) ∙ h))
        ∙ sym (ap values (if_false (str_eq k id) (remove t id) ((k, v) ∷ remove t id) e))
  ]

  lookup_filed :
      (t : Table ℕ) (id : String) (ref : ℕ)
      → IsFiled users t
      → lookup t id ≡ some ref
      → (contains t id ≡ true) × (ref ≡ users.find id) × (users.id ref ≡ id)
  unfolding lookup contains
  lookup_filed [] id ref h e = absurd (none-ne-some ref e)
  lookup_filed ((k, v) ∷ t) id ref h e =
      ground (arith, h.0.0, h.0.1, eq_iff k id, lookup_filed t id ref h.1)

  module _ (refs : List ℕ) (t : Table ℕ) (id : String) (h : Agrees users refs t) where
    pub Agrees-insert :
        IsFound users id
        → contains t id ≡ false
        → Agrees users (refs ++ (users.find id ∷ [])) (insert t id (users.find id))
    Agrees-insert f absent = (
      ap (λ (r : List ℕ). r ++ (users.find id ∷ [])) h.0
          ∙ sym (values-insert t id (users.find id) absent),
      insert-IsKeyed t id (users.find id) h.1,
      IsFiled-insert t id f h.2,
    )

    pub Agrees-remove :
        (ref : ℕ) → lookup t id ≡ some ref → Agrees users (remove_user refs ref) (remove t id)
    Agrees-remove ref e =
        let (held, same, owned) = lookup_filed t id ref h.2 e in
        (
          ap (λ (r : List ℕ). remove_user r ref) h.0
              ∙ ap (remove_user (values t)) same
              ∙ removed_values t id (ap users.id (sym same) ∙ owned) h.1 h.2 held,
          remove-IsKeyed t id h.1,
          IsFiled-remove t id h.2,
        )
