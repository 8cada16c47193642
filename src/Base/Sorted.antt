-- ===== src/Base/Sorted.antt =====
-- Two sorted arrangements of the same texts are the same list.
use Prim.Native.String.{String}
use mathlib.Core.Path.{◌≡◌, sym, ap₂, subst}
use mathlib.Core.Logic.Or
use mathlib.Core.Bool.{true}
use mathlib.Core.List.{
  List, [], ◌∷◌, Mem, Perm, Pairwise, mem-cons, mem-cons_self, rel_of_Pairwise-cons,
}
use mathlib.Core.List.Perm
use mathlib.Core.List.Pairwise
use libcmatrix.Base.Text.{str_leb, str_leb_antisymm, str_leb_refl}

abbrev pub StrLe : String → String → Type 0
StrLe a b = str_leb a b ≡ true

-- in ascending order of `strcmp`
abbrev pub IsSorted : List String → Type 0
IsSorted = Pairwise StrLe

-- in a sorted list the head is at most each element
pub head-le :
    (x : String) (xs : List String) (a : String) → IsSorted (x ∷ xs) → Mem a (x ∷ xs) → StrLe x a
head-le x xs a h m =
    Or.elim (hlevel) (mem-cons.0 m) (λ e. rw e (str_leb_refl x)) (rel_of_Pairwise-cons h)

pub sorted-eq_of_perm : (xs ys : List String) → IsSorted xs → IsSorted ys → Perm xs ys → xs ≡ ys
sorted-eq_of_perm [] ys hx hy p = Perm.nil-eq p
sorted-eq_of_perm (x ∷ xs) [] hx hy p = Perm.eq-nil p
sorted-eq_of_perm (x ∷ xs) (y ∷ ys) hx hy p =
    let e : x ≡ y =
      str_leb_antisymm x y (head-le x xs y hx ((Perm.mem_iff p).1 mem-cons_self))
        (head-le y ys x hy ((Perm.mem_iff p).0 mem-cons_self)) in
    let q : Perm (x ∷ xs) (x ∷ ys) = subst (λ (c : String). Perm (x ∷ xs) (c ∷ ys)) (sym e) p in
    ap₂ ◌∷◌ e
      (sorted-eq_of_perm xs ys (Pairwise.of_cons hx) (Pairwise.of_cons hy) (Perm.cons_inv q))
