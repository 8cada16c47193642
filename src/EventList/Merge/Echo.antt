-- ===== src/EventList/Merge/Echo.antt =====
-- remove_event_with_txn_id of src/events/cm-room-event-list.c: the message that comes back from the
-- server under the transaction id of one that waits in the list.
use mathlib.Core.List.{reverse, reverse-append, reverse-cons, append_assoc, append-nil}
use libcmatrix.Base.{
  ℕ, String, ◌≡◌, refl, sym, ◌∙◌, ap, false, none, some, List, [], ◌∷◌, ◌++◌, All, ◌==◌, ==_iff,
}
use libcmatrix.Base.Text.{strcmp0_eq, strcmp0_eq_refl}
use libcmatrix.EventList.Store.{Item, remove_first, remove_list_item}
use libcmatrix.EventList.Defs.{CmRoomEventList}
use libcmatrix.EventList.Merge.{txn_of, first_with_txn, remove_event_with_txn_id}

abbrev pub IsOther : String → Item → Type 0
IsOther txn x = strcmp0_eq (some txn) (txn_of x) ≡ false

abbrev pub IsElsewhere : ℕ → Item → Type 0
IsElsewhere ref x = (x.ref == ref) ≡ false

All-snoc : (P : Item → Type 0) (xs : List Item) (x : Item) → All P xs → P x → All P (xs ++ x ∷ [])
All-snoc P [] x h p = (p, tt)
All-snoc P (y ∷ ys) x (q, h) p = (q, All-snoc P ys x h p)

All-reverse : (P : Item → Type 0) (xs : List Item) → All P xs → All P (reverse xs)
All-reverse P [] h = tt
All-reverse P (x ∷ xs) (p, h) =
    rw (reverse-cons x xs) (All-snoc P (reverse xs) x (All-reverse P xs h) p)

first_with_txn-skip :
    (txn : String) (pre post : List Item)
    → All (IsOther txn) pre
    → first_with_txn txn (pre ++ post) ≡ first_with_txn txn post
unfolding first_with_txn
first_with_txn-skip txn [] post h = refl
first_with_txn-skip txn (x ∷ pre) post (p, h) = rw p (first_with_txn-skip txn pre post h)

remove_first-middle :
    (x : Item) (pre post : List Item)
    → All (IsElsewhere x.ref) pre
    → (remove_first (pre ++ x ∷ post) x.ref).0 ≡ pre ++ post
unfolding remove_first
remove_first-middle x [] post h = rw ((==_iff x.ref x.ref).1 refl) refl
remove_first-middle x (y ∷ pre) post (p, h) =
    rw p (ap (λ rest. y ∷ rest) (remove_first-middle x pre post h))

first_with_txn-head :
    (txn : String) (x : Item) (xs : List Item)
    → txn_of x ≡ some txn
    → first_with_txn txn (x ∷ xs) ≡ some x
unfolding first_with_txn
first_with_txn-head txn x xs e = rw (e, strcmp0_eq_refl (some txn)) refl

first_with_txn-last :
    (txn : String) (x : Item) (pre post : List Item)
    → txn_of x ≡ some txn
    → All (IsOther txn) post
    → first_with_txn txn (reverse (pre ++ x ∷ post)) ≡ some x
first_with_txn-last txn x pre post e later =
    rw
      (
        reverse-append pre (x ∷ post),
        reverse-cons x post,
        append_assoc (reverse post) (x ∷ []) (reverse pre),
      )
      (first_with_txn-skip txn (reverse post) (x ∷ reverse pre)
          (All-reverse (IsOther txn) post later)
        ∙ first_with_txn-head txn x (reverse pre) e)

-- A message that waits under a transaction id leaves the list, and all others stay in their order:
-- it is the last with the id, and its object stands nowhere before.
pub remove_event_with_txn_id-middle :
    (self : CmRoomEventList) (txn : String) (x : Item) (pre post : List Item)
    → self.events_list ≡ pre ++ x ∷ post
    → txn_of x ≡ some txn
    → All (IsOther txn) post
    → All (IsElsewhere x.ref) pre
    → remove_event_with_txn_id self (some txn) ≡ record self { events_list = pre ++ post }
unfolding remove_event_with_txn_id remove_list_item
remove_event_with_txn_id-middle self txn x pre post e named later before =
    let found : first_with_txn txn (reverse self.events_list) ≡ some x =
      rw e (first_with_txn-last txn x pre post named later) in
    rw (found, remove_event_with_txn_id) (rw e (rw (remove_first-middle x pre post before) refl))

-- A list without the transaction id is left as it is.
pub remove_event_with_txn_id-absent :
    (self : CmRoomEventList) (txn : String)
    → All (IsOther txn) self.events_list
    → remove_event_with_txn_id self (some txn) ≡ self
unfolding remove_event_with_txn_id first_with_txn
remove_event_with_txn_id-absent self txn h =
    let nothing : first_with_txn txn (reverse self.events_list) ≡ none =
      rw (sym (append-nil (reverse self.events_list))) (
        first_with_txn-skip txn (reverse self.events_list) []
          (All-reverse (IsOther txn) self.events_list h)) in
    rw (nothing, remove_event_with_txn_id) refl
