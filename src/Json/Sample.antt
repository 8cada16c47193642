-- ===== src/Json/Sample.antt =====
-- One way to meet the assumptions on json-glib and GLib: an insertion sort and fixed formats.
use mathlib.Core.List.{
  Perm, Pairwise, Mem, mem-cons, Pairwise-cons, Pairwise-singleton, rel_of_Pairwise-cons,
}
use mathlib.Core.List.Perm
use mathlib.Core.List.Pairwise
use mathlib.Core.Logic.Or
use mathlib.Core.Bool.{false≢true}
use libcmatrix.Base.{
  String, ◌≡◌, refl, sym, ◌∙◌, inl, inr, Bool, true, false, Option, none, some, List, [], ◌∷◌,
  if◌then◌else◌, Bool-cases,
}
use libcmatrix.Base.Int.{ℤ, pos}
use libcmatrix.Base.Text.{str_leb, str_leb_total, str_leb_trans}
use libcmatrix.Base.Sorted.{StrLe, IsSorted, head-le}
use libcmatrix.Json.{JsonNode, boolean, int, string}
use libcmatrix.Json.Glib.{JsonGlib}

abbrev insert : String → List String → List String
insert k [] = k ∷ []
insert k (x ∷ xs) = if str_leb k x then k ∷ x ∷ xs else x ∷ insert k xs

abbrev insertion_sort : List String → List String
insertion_sort [] = []
insertion_sort (x ∷ xs) = insert x (insertion_sort xs)

insert-perm : (k : String) (xs : List String) → Perm (insert k xs) (k ∷ xs)
insert-perm k [] = Perm.refl _
insert-perm k (x ∷ xs) = elim (Bool-cases (str_leb k x)) [
  | inl e ↦ rw e (Perm.refl _)
  | inr e ↦ rw e (Perm.trans (Perm.cons x (insert-perm k xs)) (Perm.swap k x xs))
]

-- what is inserted below a head that is not above it stays below
insert_bound :
    (k x : String) (xs : List String) (a : String)
    → IsSorted (x ∷ xs)
    → str_leb k x ≡ false
    → Mem a (k ∷ xs)
    → str_leb x a ≡ true
insert_bound k x xs a h e m =
    Or.elim (hlevel) (mem-cons.0 m)
      (λ q. rw q (elim (str_leb_total k x) [ inl p ↦ absurd (false≢true (sym e ∙ p)) | inr p ↦ p ]))
      (rel_of_Pairwise-cons h)

insert-IsSorted : (k : String) (xs : List String) → IsSorted xs → IsSorted (insert k xs)
insert-IsSorted k [] h = Pairwise-singleton StrLe k
insert-IsSorted k (x ∷ xs) h = elim (Bool-cases (str_leb k x)) [
  | inl e ↦ rw e (Pairwise-cons.1 (λ a m. str_leb_trans k x a e (head-le x xs a h m), h))
  | inr e ↦ rw e (
      Pairwise-cons.1 (
        λ a m. insert_bound k x xs a h e ((Perm.mem_iff (insert-perm k xs)).0 m),
        insert-IsSorted k xs (Pairwise.of_cons h),
      ))
]

pub insertion_sort-perm : (xs : List String) → Perm (insertion_sort xs) xs
insertion_sort-perm [] = Perm.refl []
insertion_sort-perm (x ∷ xs) =
    Perm.trans (insert-perm x (insertion_sort xs)) (Perm.cons x (insertion_sort-perm xs))

pub insertion_sort-IsSorted : (xs : List String) → IsSorted (insertion_sort xs)
insertion_sort-IsSorted [] = Pairwise.nil
insertion_sort-IsSorted (x ∷ xs) =
    insert-IsSorted x (insertion_sort xs) (insertion_sort-IsSorted xs)

abbrev int_of : JsonNode → ℤ
int_of (int n) = n
int_of _ = pos 0

abbrev boolean_of : JsonNode → Bool
boolean_of (boolean b) = b
boolean_of _ = false

abbrev string_of : JsonNode → Option String
string_of (string s) = some s
string_of _ = none

abbrev pub sample : JsonGlib
sample = record {
  get_int = int_of;
  get_boolean = boolean_of;
  get_string = string_of;
  format_int = λ n. "0";
  format_double = λ d. "0.000000";
  sort = insertion_sort;
  get_int-int = λ n. refl;
  get_boolean-boolean = λ b. refl;
  get_string-string = λ s. refl;
  get_string-int = λ n. refl;
  get_string-boolean = λ b. refl;
  get_string-double = λ d. refl;
  sort-perm = insertion_sort-perm;
  sort-IsSorted = insertion_sort-IsSorted;
}
