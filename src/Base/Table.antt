-- ===== src/Base/Table.antt =====
-- GHashTable with strings as keys. The entries stand in the order of insertion; GLib leaves the
-- order in which it lists them open.
use Prim.Native.String.{String}
use mathlib.Core.Path.{◌≡◌, refl}
use mathlib.Core.Bool.{Bool, true, false}
use mathlib.Core.Option.{Option, none, some, some-injective, none-ne-some}
use mathlib.Core.List.{List, [], ◌∷◌, ◌++◌, Perm}
use mathlib.Core.List.Perm
use mathlib.Core.Logic.{inl, inr}
use native.Mathlib.Omega.{arith}
use text.Mathlib.TextEquality.{eq_iff}
use libcmatrix.Base.Tests.{if◌then◌else◌, Bool-cases}
use libcmatrix.Base.Text.{str_eq}

abbrev pub Table {ℓ} : Type ℓ → Type ℓ
Table A = List (String × A)

module _ {ℓ} {A : Type ℓ} where
  unfoldable pub lookup : Table A → String → Option A
  lookup [] key = none
  lookup ((k, v) ∷ t) key = if str_eq k key then some v else lookup t key

  -- replaces the value of the key, or adds the key
  unfoldable pub insert : Table A → String → A → Table A
  insert [] key value = (key, value) ∷ []
  insert ((k, v) ∷ t) key value =
      if str_eq k key then (k, value) ∷ t else (k, v) ∷ insert t key value

  unfoldable pub remove : Table A → String → Table A
  remove [] key = []
  remove ((k, v) ∷ t) key = if str_eq k key then remove t key else (k, v) ∷ remove t key

  unfoldable pub contains : Table A → String → Bool
  contains [] key = false
  contains ((k, v) ∷ t) key = if str_eq k key then true else contains t key

  abbrev pub keys : Table A → List String
  keys [] = []
  keys ((k, v) ∷ t) = k ∷ keys t

  abbrev pub values : Table A → List A
  values [] = []
  values ((k, v) ∷ t) = v ∷ values t

  -- no key stands twice
  abbrev pub IsKeyed : Table A → Type 0
  IsKeyed [] = Unit
  IsKeyed ((k, v) ∷ t) = (contains t k ≡ false) × IsKeyed t

  pub lookup-insert :
      (t : Table A) (j k : String) (v : A)
      → lookup (insert t j v) k ≡ (if str_eq j k then some v else lookup t k)
  unfolding lookup insert
  lookup-insert [] j k v = refl
  lookup-insert ((i, w) ∷ t) j k v =
      ground (arith, eq_iff i j, eq_iff i k, eq_iff j k, lookup-insert t j k v)

  pub lookup-remove :
      (t : Table A) (j k : String)
      → lookup (remove t j) k ≡ (if str_eq j k then none else lookup t k)
  unfolding lookup remove
  lookup-remove [] j k = ground arith
  lookup-remove ((i, w) ∷ t) j k =
      ground (arith, eq_iff i j, eq_iff i k, eq_iff j k, lookup-remove t j k)

  pub contains-insert :
      (t : Table A) (j k : String) (v : A)
      → contains (insert t j v) k ≡ (if str_eq j k then true else contains t k)
  unfolding contains insert
  contains-insert [] j k v = refl
  contains-insert ((i, w) ∷ t) j k v =
      ground (arith, eq_iff i j, eq_iff i k, eq_iff j k, contains-insert t j k v)

  pub contains-remove :
      (t : Table A) (j k : String)
      → contains (remove t j) k ≡ (if str_eq j k then false else contains t k)
  unfolding contains remove
  contains-remove [] j k = ground arith
  contains-remove ((i, w) ∷ t) j k =
      ground (arith, eq_iff i j, eq_iff i k, eq_iff j k, contains-remove t j k)

  pub lookup-contains :
      (t : Table A) (k : String) (v : A) → lookup t k ≡ some v → contains t k ≡ true
  unfolding lookup contains
  lookup-contains [] k v h = ground arith
  lookup-contains ((i, w) ∷ t) k v h = ground (arith, lookup-contains t k v)

  pub remove_absent : (t : Table A) (k : String) → contains t k ≡ false → remove t k ≡ t
  unfolding contains remove
  remove_absent [] k h = refl
  remove_absent ((i, w) ∷ t) k h = ground (arith, remove_absent t k)

  -- a new key goes to the end
  pub values-insert :
      (t : Table A) (k : String) (v : A)
      → contains t k ≡ false
      → values (insert t k v) ≡ values t ++ (v ∷ [])
  unfolding contains insert
  values-insert [] k v h = refl
  values-insert ((i, w) ∷ t) k v h = ground (arith, values-insert t k v)

  pub remove-IsKeyed : (t : Table A) (k : String) → IsKeyed t → IsKeyed (remove t k)
  unfolding contains remove
  remove-IsKeyed [] k h = tt
  remove-IsKeyed ((i, w) ∷ t) k h = elim (Bool-cases (str_eq i k)) [
    | inl e ↦ rw e (remove-IsKeyed t k h.1)
    | inr e ↦ rw e (ground (arith, contains-remove t k i, h.0), remove-IsKeyed t k h.1)
  ]

  pub insert-IsKeyed : (t : Table A) (k : String) (v : A) → IsKeyed t → IsKeyed (insert t k v)
  unfolding contains insert
  insert-IsKeyed [] k v h = (refl, tt)
  insert-IsKeyed ((i, w) ∷ t) k v h = elim (Bool-cases (str_eq i k)) [
    | inl e ↦ rw e h
    | inr e ↦ rw e (
      ground (arith, contains-insert t k i v, eq_iff k i, eq_iff i k, h.0),
      insert-IsKeyed t k v h.1,
    )
  ]

  pub values-remove :
      (t : Table A) (k : String) (v : A)
      → IsKeyed t
      → lookup t k ≡ some v
      → Perm (values t) (v ∷ values (remove t k))
  unfolding lookup remove
  values-remove [] k v h e = absurd (none-ne-some v e)
  values-remove ((i, w) ∷ t) k v h e = elim (Bool-cases (str_eq i k)) [
    | inl s ↦
        rw (s, some-injective w v (rw s at e), remove_absent t k (rw (← (eq_iff i k).0 s) h.0))
          (Perm.refl _)
    | inr s ↦
        rw s (Perm.trans (Perm.cons w (values-remove t k v h.1 (rw s at e))) (Perm.swap v w _))
  ]
