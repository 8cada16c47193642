-- ===== src/Base/Text.antt =====
-- C strings. A `const char *` that may be NULL is an `Option String`; `compare` on native texts goes
-- by code points, which is the byte order of UTF-8 that `strcmp` uses.
use Prim.Native.Nat.{Ordering, compare as compare_ℕ}
use Prim.Native.String.{String, compare, then}
use Prim.Native.String.compare
use Prim.Native.Char.{code}
use mathlib.Core.Path.{◌≡◌, refl, ap}
use mathlib.Core.Bool.{Bool, true, false, false≢true}
use mathlib.Core.Option.{Option, none, some}
use mathlib.Core.Logic.{◌⊎◌, inl, inr}
use native.Mathlib.Omega.{arith}
use text.Mathlib.Text.{◌==◌}
use text.Mathlib.TextEquality.{eq_iff, path_by_compare}
use text.Mathlib.TextPositions.{compare_refl}

abbrev pub str_eq : String → String → Bool
str_eq a b = a == b

-- `g_strcmp0 (a, b) == 0`: two NULLs are equal, and NULL equals no string
unfoldable pub strcmp0_eq : Option String → Option String → Bool
strcmp0_eq none none = true
strcmp0_eq none (some b) = false
strcmp0_eq (some a) none = false
strcmp0_eq (some a) (some b) = a == b

pub strcmp0_eq_lem : (a b : Option String) → strcmp0_eq a b ≡ true → a ≡ b
unfolding strcmp0_eq
strcmp0_eq_lem none none h = refl
strcmp0_eq_lem none (some b) h = cc
strcmp0_eq_lem (some a) none h = cc
strcmp0_eq_lem (some a) (some b) h = ap some ((eq_iff a b).0 h)

pub strcmp0_eq_refl : (a : Option String) → strcmp0_eq a a ≡ true
unfolding strcmp0_eq
strcmp0_eq_refl none = refl
strcmp0_eq_refl (some a) = (eq_iff a a).1 refl

-- `!s || !*s`
unfoldable pub is_empty : Option String → Bool
is_empty none = true
is_empty (some s) = s == ""

abbrev pub not_gt : Ordering → Bool
not_gt o = elim o [ Ordering.gt ↦ false | _ ↦ true ]

-- `strcmp (a, b) <= 0`
abbrev pub str_leb : String → String → Bool
str_leb a b = not_gt (compare a b)

abbrev flip : Ordering → Ordering
flip Ordering.lt = Ordering.gt
flip Ordering.eq = Ordering.eq
flip Ordering.gt = Ordering.lt

flip-compare_ℕ : (m n : Prim.Native.Nat.ℕ) → compare_ℕ n m ≡ flip (compare_ℕ m n)
flip-compare_ℕ m n = ground arith

flip-then : (a b : Ordering) → then (flip a) (flip b) ≡ flip (then a b)
flip-then Ordering.lt b = refl
flip-then Ordering.eq b = refl
flip-then Ordering.gt b = refl

flip-compare : (s t : String) → compare t s ≡ flip (compare s t)
flip-compare String.[] String.[] = rw compare.nil-nil
flip-compare String.[] (String.◌∷◌ d t) = rw (compare.nil-cons, compare.cons-nil)
flip-compare (String.◌∷◌ c s) String.[] = rw (compare.nil-cons, compare.cons-nil)
flip-compare (String.◌∷◌ c s) (String.◌∷◌ d t) =
    rw (compare.cons-cons d c t s, compare.cons-cons c d s t)
      (rw (flip-compare_ℕ (code c) (code d), flip-compare s t)
        (flip-then (compare_ℕ (code c) (code d)) (compare s t)))

eq_of_both : (o : Ordering) → not_gt o ≡ true → not_gt (flip o) ≡ true → o ≡ Ordering.eq
eq_of_both Ordering.lt h k = cc
eq_of_both Ordering.eq h k = refl
eq_of_both Ordering.gt h k = cc

some_way : (o : Ordering) → (not_gt o ≡ true) ⊎ (not_gt (flip o) ≡ true)
some_way Ordering.lt = inl refl
some_way Ordering.eq = inl refl
some_way Ordering.gt = inr refl

-- `strcmp` orders the texts: two that are each at most the other are one text.
pub str_leb_antisymm : (s t : String) → str_leb s t ≡ true → str_leb t s ≡ true → s ≡ t
str_leb_antisymm s t h k =
    path_by_compare s t (eq_of_both (compare s t) h (rw (← flip-compare s t) k))

pub str_leb_total : (s t : String) → (str_leb s t ≡ true) ⊎ (str_leb t s ≡ true)
str_leb_total s t = rw (str_leb, flip-compare s t) (some_way (compare s t))

pub str_leb_refl : (s : String) → str_leb s s ≡ true
str_leb_refl s = rw (str_leb, compare_refl s)

then_trans :
    (a b c : Prim.Native.Nat.ℕ) (o p q : Ordering)
    → (not_gt o ≡ true → not_gt p ≡ true → not_gt q ≡ true)
    → not_gt (then (compare_ℕ a b) o) ≡ true
    → not_gt (then (compare_ℕ b c) p) ≡ true
    → not_gt (then (compare_ℕ a c) q) ≡ true
then_trans a b c o p q ih h k = ground arith

pub str_leb_trans : (s t u : String) → str_leb s t ≡ true → str_leb t u ≡ true → str_leb s u ≡ true
str_leb_trans String.[] t String.[] h k = str_leb_refl ""
str_leb_trans String.[] t (String.◌∷◌ e u) h k = rw (str_leb, compare.nil-cons)
str_leb_trans (String.◌∷◌ c s) String.[] u h k =
    absurd (false≢true (rw (str_leb, compare.cons-nil) at h))
str_leb_trans (String.◌∷◌ c s) (String.◌∷◌ d t) String.[] h k =
    absurd (false≢true (rw (str_leb, compare.cons-nil) at k))
str_leb_trans (String.◌∷◌ c s) (String.◌∷◌ d t) (String.◌∷◌ e u) h k =
    rw (str_leb, compare.cons-cons)
      (then_trans (code c) (code d) (code e) (compare s t) (compare t u) (compare s u)
        (str_leb_trans s t u) (rw (str_leb, compare.cons-cons) at h)
        (rw (str_leb, compare.cons-cons) at k))
