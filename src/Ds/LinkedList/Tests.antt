-- ===== src/Ds/LinkedList/Tests.antt =====
-- Runs of linked_list.c, and its theorems at a concrete list.
use egl_utils_c.Base.{ℕ, zero, suc, ◌≡◌, refl, arith, none, some, [], ◌∷◌}
use egl_utils_c.Ds.LinkedList.{Heap, Node, LinkedList, for_each}
use egl_utils_c.Ds.LinkedList.Calls.{IsList, to_front, from_back, apply, Refines}
use egl_utils_c.Ds.LinkedList.Ops.{apply-Refines}
use egl_utils_c.Ds.LinkedList.Visit.{for_each-visits}

-- A sentinel at 0, the nodes 1 and 2 behind it, and a node 3 on its own.
abbrev links : ℕ → Node
links zero = record { prev = some 2; next = some 1 }
links (suc zero) = record { prev = some 0; next = some 2 }
links (suc (suc zero)) = record { prev = some 1; next = some 0 }
links (suc (suc (suc a))) = record { prev = none; next = none }

abbrev two_nodes : LinkedList
two_nodes = record { sentinel = 0; len = 2 }

two_nodes-IsList : IsList links two_nodes (1 ∷ 2 ∷ [])
two_nodes-IsList = record {
  ring = (
    ((refl, refl), ((refl, refl), ((refl, refl), tt))),
    (omega arith, (omega arith, ((λ k. k), tt))),
  );
  len = refl;
  len_lt = omega arith;
}

push_run :
    (h : Heap) × (apply (to_front 3) two_nodes links
      ≡ some (none, some (record { sentinel = 0; len = 3 }), h))
    × (h 0 ≡ record { prev = some 2; next = some 3 })
    × (h 3 ≡ record { prev = some 0; next = some 1 })
unfolding apply
push_run = (_, refl, refl, refl)

apply-Refines_example : Refines from_back two_nodes links (1 ∷ 2 ∷ [])
apply-Refines_example = apply-Refines from_back links two_nodes (1 ∷ 2 ∷ []) two_nodes-IsList tt

for_each-visits_example : for_each 3 links 0 (some 1) ≡ some (1 ∷ 2 ∷ [])
for_each-visits_example = for_each-visits links two_nodes (1 ∷ 2 ∷ []) two_nodes-IsList
