-- ===== src/Dlist/Tests.antt =====
-- Tests of the model of src/util/dlist.c, and the inputs at which its theorems are applied.
use unagi_os.Common.{◌≡◌, refl, some, [], ◌∷◌, arith, if◌then◌else◌, ◌==◌}
use unagi_os.Dlist.{Links, init, insert_after, insert_before, remove, entries, for_each}
use unagi_os.Dlist.Chain.{Circle}
use unagi_os.Dlist.Circle.{init-Circle, remove-Circle}
use unagi_os.Dlist.Inner.{entries-Circle}
use unagi_os.Dlist.Frame.{init-other}

-- three nodes, each in a circle of one
abbrev three : Links
three = init 3 (init 2 (init 1 (record { next = λ x. 0; prev = λ x. 0 })))

three-Circle : Circle three 1 []
three-Circle =
    init-other (init 2 (init 1 _)) 3 1 [] (init-other (init 1 _) 2 1 [] (init-Circle 1 _) refl) refl

three-Circle_2 : Circle three 2 []
three-Circle_2 = init-other (init 2 (init 1 _)) 3 2 [] (init-Circle 2 _) refl

entries_built : entries 5 (insert_before 1 3 (insert_after 1 2 three).1).1 1 ≡ some (2 ∷ 3 ∷ [])
unfolding init insert_after insert_before entries for_each
entries_built = refl

entries_removed :
    entries 5 (remove 2 (insert_before 1 3 (insert_after 1 2 three).1).1).1 1 ≡ some (3 ∷ [])
unfolding init insert_after insert_before remove entries for_each
entries_removed = refl

-- the circle of the three nodes 1, 2, 3
abbrev linked : Links
linked = record {
  next = λ x. if x == 1 then 2 else if x == 2 then 3 else 1;
  prev = λ x. if x == 1 then 3 else if x == 2 then 1 else 2;
}

linked-Circle : Circle linked 1 (2 ∷ 3 ∷ [])
linked-Circle = (((refl, refl), ((refl, refl), (refl, refl))), (refl, (refl, (refl, tt))))

remove-Circle_example : Circle (remove 2 linked).1 1 (3 ∷ []) × Circle (remove 2 linked).1 2 []
remove-Circle_example = remove-Circle linked 1 [] 2 (3 ∷ []) linked-Circle

entries-Circle_example : entries 4 linked 1 ≡ some (2 ∷ 3 ∷ [])
entries-Circle_example = entries-Circle linked 1 (2 ∷ 3 ∷ []) 4 linked-Circle (omega arith)
