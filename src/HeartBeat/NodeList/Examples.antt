-- ===== src/HeartBeat/NodeList/Examples.antt =====
-- A list of two nodes beside a loose node and another list of three, for heart_beat_list.h.
use newbee.Base.{ℕ, ◌≡◌, refl, none, some, List, [], ◌∷◌, arith, ◌==◌, if◌then◌else◌}
use newbee.Memory.{Returns, ok}
use newbee.HeartBeat.NodeList.{
  Ptr, Node, Heap, NodeList, node, null, pop_front, pop_back, erase, success, failure,
}
use newbee.HeartBeat.NodeList.Segment.{Cells, IsList}
use newbee.HeartBeat.NodeList.Pop.{pop-nil}
use newbee.HeartBeat.NodeList.Relink.{erase-failure}
use newbee.HeartBeat.NodeList.Erase.{Erased, erase-append}
use newbee.HeartBeat.NodeList.Foreign.{erase-foreign}

abbrev pub heap_of : {D : Type 0} → List (Ptr × Node D) → Heap D
heap_of [] a = none
heap_of ((p, n) ∷ ns) a = if a == p then some n else heap_of ns a

abbrev shared_heap : Heap ℕ
shared_heap = heap_of (
    (1, node 0 2 10)
    ∷ (2, node 1 0 20)
    ∷ (3, node 0 0 30)
    ∷ (4, node 0 5 40)
    ∷ (5, node 4 6 50)
    ∷ (6, node 5 0 60)
    ∷ [])

abbrev two : NodeList ℕ
two = record { header = 1; tail = 2; heap = shared_heap }

abbrev empty : NodeList ℕ
empty = record { header = 0; tail = 0; heap = shared_heap }

abbrev two_cells : Cells ℕ
two_cells = (1, 10) ∷ (2, 20) ∷ []

two-IsList : IsList two two_cells
two-IsList = record {
  header = refl;
  tail = refl;
  chain = (ground arith, refl, refl, (ground arith, refl, refl, tt));
}

pop-nil_example : (pop_front empty ≡ ok (null, empty)) × (pop_back empty ≡ ok (null, empty))
pop-nil_example = pop-nil empty (record { header = refl; tail = refl; chain = tt })

erase-failure_example : erase 1 empty ≡ ok (failure, empty)
erase-failure_example = erase-failure empty 1 10 refl

erase-append_example : Returns (Erased two 1 10 two_cells ((2, 20) ∷ [])) (erase 1 two)
erase-append_example = erase-append two 1 10 [] ((2, 20) ∷ []) two-IsList

abbrev three : NodeList ℕ
three = record { header = 4; tail = 6; heap = shared_heap }

three-IsList : IsList three ((4, 40) ∷ (5, 50) ∷ (6, 60) ∷ [])
three-IsList = record {
  header = refl;
  tail = refl;
  chain = (ground arith, refl, refl, (ground arith, refl, refl, (ground arith, refl, refl, tt)));
}

erase-foreign_example :
    Returns
      (λ r.
        (r.0 ≡ success)
        × IsList r.1 two_cells
        × IsList (record three { heap = r.1.heap }) ((4, 40) ∷ (6, 60) ∷ [])
        × (r.1.heap 5 ≡ some (node 0 0 50)))
      (erase 5 two)
erase-foreign_example =
    erase-foreign three 5 4 6 50 40 60 [] [] 1 2 two_cells two-IsList (ground arith) three-IsList
      (λ a i. ground (arith, i))
