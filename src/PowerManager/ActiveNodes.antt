-- ===== src/PowerManager/ActiveNodes.antt =====
-- The set of active ordinals of a NodeSetPowerState: its update by a resume or a suspend, and the
-- test that the wait commands poll (cmd/powermanager/main.go).
pub mod Order
mod Tests
use soperator.Prelude.{
  ℤ, ℤ_ord, comparable_int, Bool, true, false, not, List, [], ◌∷◌, contains, add, delete, sort,
  if◌then◌else◌,
}

-- `for _, ord := range ordinals { set[ord] = true }`
pub add_all : List ℤ → List ℤ → List ℤ
unfolding add contains
add_all [] set = set
add_all (ord ∷ ords) set = add_all ords (add ord set)

-- `for _, ord := range ordinals { delete(set, ord) }`
pub delete_all : List ℤ → List ℤ → List ℤ
unfolding delete
delete_all [] set = set
delete_all (ord ∷ ords) set = delete_all ords (delete ord set)

-- The new `Spec.ActiveNodes`: the old ones as a set, changed, and sorted.
unfoldable pub new_active_nodes : Bool → List ℤ → List ℤ → List ℤ
unfolding add_all delete_all sort
new_active_nodes resume ordinals active_nodes =
    let current_active_set = add_all active_nodes [] in
    if resume
    then sort (add_all ordinals current_active_set)
    else sort (delete_all ordinals current_active_set)

all_present : List ℤ → List ℤ → Bool
unfolding contains
all_present [] active_set = true
all_present (ordinal ∷ ordinals) active_set =
    if not (contains active_set ordinal) then false else all_present ordinals active_set

all_absent : List ℤ → List ℤ → Bool
unfolding contains
all_absent [] active_set = true
all_absent (ordinal ∷ ordinals) active_set =
    if contains active_set ordinal then false else all_absent ordinals active_set

-- The answer of `checkNodesStatus` for the ordinals, once the power state has been read.
unfoldable pub nodes_status : Bool → List ℤ → List ℤ → Bool
unfolding add_all all_present all_absent
nodes_status check_added ordinals active_nodes =
    let active_set = add_all active_nodes [] in
    if check_added then all_present ordinals active_set else all_absent ordinals active_set
