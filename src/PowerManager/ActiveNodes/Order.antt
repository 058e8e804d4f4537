-- ===== src/PowerManager/ActiveNodes/Order.antt =====
-- What a resume or a suspend leaves in the active set, and that updates on different nodes commute.
use soperator.Prelude.{
  ℤ, ℤ_ord, comparable_int, ◌≡◌, refl, Bool, true, false, not, ◌&&◌, ◌||◌, List, [], ◌∷◌, arith,
  contains, add, delete, IsUnique, IsUnique-add, IsUnique-delete, IsAscending, IsAscending-ext,
  contains-add, contains-delete, contains-sort, sort-IsAscending, if◌then◌else◌, ◌↔◌, All,
  All-of_contains,
}
use soperator.PowerManager.ActiveNodes.{
  add_all, delete_all, new_active_nodes, all_present, all_absent, nodes_status,
}

contains-add_all :
    (ords set : List ℤ) (a : ℤ)
    → contains (add_all ords set) a ≡ (contains ords a || contains set a)
unfolding add_all contains
contains-add_all [] set a = refl
contains-add_all (o ∷ ords) set a =
    ground (arith, contains-add_all ords (add o set) a, contains-add o set a)

contains-delete_all :
    (ords set : List ℤ) (a : ℤ)
    → contains (delete_all ords set) a ≡ (not (contains ords a) && contains set a)
unfolding delete_all contains
contains-delete_all [] set a = refl
contains-delete_all (o ∷ ords) set a =
    ground (arith, contains-delete_all ords (delete o set) a, contains-delete o set a)

add_all-IsUnique : (ords set : List ℤ) → IsUnique set → IsUnique (add_all ords set)
unfolding add_all
add_all-IsUnique [] set u = u
add_all-IsUnique (o ∷ ords) set u = add_all-IsUnique ords (add o set) (IsUnique-add o set u)

delete_all-IsUnique : (ords set : List ℤ) → IsUnique set → IsUnique (delete_all ords set)
unfolding delete_all
delete_all-IsUnique [] set u = u
delete_all-IsUnique (o ∷ ords) set u =
    delete_all-IsUnique ords (delete o set) (IsUnique-delete o set u)

-- Membership after an update, as the command means it.
abbrev pub wanted : Bool → List ℤ → List ℤ → ℤ → Bool
wanted resume ordinals active_nodes a =
    if resume
    then contains ordinals a || contains active_nodes a
    else not (contains ordinals a) && contains active_nodes a

pub contains-new_active_nodes :
    (resume : Bool) (ordinals active_nodes : List ℤ) (a : ℤ)
    → contains (new_active_nodes resume ordinals active_nodes) a
      ≡ wanted resume ordinals active_nodes a
unfolding new_active_nodes contains
contains-new_active_nodes true ordinals old a =
    simp (contains-sort, contains-add_all) (ground arith)
contains-new_active_nodes false ordinals old a =
    simp (contains-sort, contains-delete_all, contains-add_all) (ground arith)

pub new_active_nodes-IsAscending :
    (resume : Bool) (ordinals active_nodes : List ℤ)
    → IsAscending (new_active_nodes resume ordinals active_nodes)
unfolding new_active_nodes
new_active_nodes-IsAscending true ordinals old =
    sort-IsAscending _ (add_all-IsUnique ordinals _ (add_all-IsUnique old [] tt))
new_active_nodes-IsAscending false ordinals old =
    sort-IsAscending _ (delete_all-IsUnique ordinals _ (add_all-IsUnique old [] tt))

-- After a resume the active nodes are the old ones and the ordinals of the call, after a suspend
-- the old ones without these, in both cases in strictly ascending order.
pub new_active_nodes_exact :
    (resume : Bool) (ordinals active_nodes : List ℤ)
    → IsAscending (new_active_nodes resume ordinals active_nodes)
      × ((a : ℤ)
          → contains (new_active_nodes resume ordinals active_nodes) a
            ≡ wanted resume ordinals active_nodes a)
new_active_nodes_exact resume ordinals old = (
  new_active_nodes-IsAscending resume ordinals old,
  contains-new_active_nodes resume ordinals old,
)

-- Two calls on different nodes leave the same list in either order, whatever each of them does.
new_active_nodes_comm :
    (r q : Bool) (xs ys active_nodes : List ℤ)
    → ((a : ℤ) → (contains xs a && contains ys a) ≡ false)
    → new_active_nodes r xs (new_active_nodes q ys active_nodes)
      ≡ new_active_nodes q ys (new_active_nodes r xs active_nodes)
new_active_nodes_comm r q xs ys old apart =
    IsAscending-ext _ _ (new_active_nodes-IsAscending r xs _) (new_active_nodes-IsAscending q ys _)
      λ a. ground (
        arith,
        apart a,
        contains-new_active_nodes r xs (new_active_nodes q ys old) a,
        contains-new_active_nodes q ys (new_active_nodes r xs old) a,
        contains-new_active_nodes q ys old a,
        contains-new_active_nodes r xs old a,
      )

all_present_iff :
    (ords active : List ℤ)
    → (all_present ords (add_all active []) ≡ true) ↔ All (λ o. contains active o ≡ true) ords
unfolding all_present contains
all_present_iff [] active = ground arith
all_present_iff (o ∷ ords) active =
    ground (arith, all_present_iff ords active, contains-add_all active [] o)

all_absent_iff :
    (ords active : List ℤ)
    → (all_absent ords (add_all active []) ≡ true) ↔ All (λ o. contains active o ≡ false) ords
unfolding all_absent contains
all_absent_iff [] active = ground arith
all_absent_iff (o ∷ ords) active =
    ground (arith, all_absent_iff ords active, contains-add_all active [] o)

-- The status test answers true exactly when every ordinal is active, or for a removal none is.
nodes_status_exact :
    (check_added : Bool) (ordinals active_nodes : List ℤ)
    → (nodes_status check_added ordinals active_nodes ≡ true)
      ↔ All (λ o. contains active_nodes o ≡ check_added) ordinals
unfolding nodes_status
nodes_status_exact true ords active = all_present_iff ords active
nodes_status_exact false ords active = all_absent_iff ords active

-- What a resume or a suspend has written is what the wait command of the same kind waits for.
pub nodes_status-new_active_nodes :
    (resume : Bool) (ordinals active_nodes : List ℤ)
    → nodes_status resume ordinals (new_active_nodes resume ordinals active_nodes) ≡ true
nodes_status-new_active_nodes resume ords old =
    (nodes_status_exact resume ords (new_active_nodes resume ords old)).1
      (All-of_contains ords λ a member. ground (arith, contains-new_active_nodes resume ords old a))
