-- ===== src/Examples/Rings.antt =====
-- The theorems on doubly linked lists, at a list with the nodes 11 and 12 behind the head 10.
use lltrisc_v.Prelude.{◌≡◌, refl, [], ◌∷◌, none, some}
use lltrisc_v.Links.{
  Links, list_init, list_insert_after, list_insert_before, list_remove, count_nodes, list_len,
  IsRing,
}
use lltrisc_v.Links.Ring.{
  list_init-IsRing, list_insert_before-IsRing, list_insert_after-IsRing, list_remove-IsRing,
}

abbrev nowhere : Links
nowhere = record { next = λ a. 0; prev = λ a. 0 }

abbrev one_node : Links
one_node = list_insert_after 10 11 (list_init 10 nowhere)

one_node-IsRing : IsRing one_node 10 (11 ∷ [])
one_node-IsRing =
    list_insert_after-IsRing (list_init 10 nowhere) 10 11 [] (list_init-IsRing 10 nowhere) refl

list_insert_before-IsRing_example : IsRing (list_insert_before 10 12 one_node) 10 (11 ∷ 12 ∷ [])
list_insert_before-IsRing_example =
    list_insert_before-IsRing one_node 10 12 (11 ∷ []) one_node-IsRing refl

two_nodes-IsRing : IsRing (list_insert_before 10 12 one_node) 10 (11 ∷ 12 ∷ [])
two_nodes-IsRing = list_insert_before-IsRing one_node 10 12 (11 ∷ []) one_node-IsRing refl

list_remove-IsRing_example :
    IsRing (list_remove 11 (list_insert_before 10 12 one_node)) 10 (12 ∷ [])
    × IsRing (list_remove 11 (list_insert_before 10 12 one_node)) 11 []
list_remove-IsRing_example =
    list_remove-IsRing (list_insert_before 10 12 one_node) 10 11 (11 ∷ 12 ∷ []) two_nodes-IsRing
      refl

two_counted : list_len 3 10 (list_insert_before 10 12 one_node) ≡ some 2
unfolding count_nodes list_insert_before list_insert_after list_init
two_counted = refl

fuel_spent : list_len 2 10 (list_insert_before 10 12 one_node) ≡ none
unfolding count_nodes list_insert_before list_insert_after list_init
fuel_spent = refl
