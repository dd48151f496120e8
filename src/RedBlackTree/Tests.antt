-- ===== src/RedBlackTree/Tests.antt =====
-- The red-black tree at concrete inputs: nodes are numbers, and each is its own value.
use rsplib.Base.{Bool, ℕ, [], ◌∷◌, ◌≡◌, ◌==◌, ==_iff, refl, arith, some, compare}
use rsplib.PoolNode.Adding.{compare-IsLawful}
use rsplib.RedBlackTree.{
  red, black, null, node, root, inorder, RedBlackTree, find, get_node_by_value,
}
use rsplib.RedBlackTree.Insert
use rsplib.RedBlackTree.Remove.{Position, remove}
use rsplib.RedBlackTree.Removing.{remove-refines}
use rsplib.RedBlackTree.Inserting.{
  IsPointerTest, IsValid, storage_insertion, tree_after, insert-refines,
}
use rsplib.RedBlackTree.Nearest.{get_nearest_prev, get_nearest_next}
use rsplib.RedBlackTree.Neighbors.{last_below, first_above, get_nearest_prev-refines}
use rsplib.RedBlackTree.Queries.{find-refines, get_node_by_value-refines}
use rsplib.Storage

abbrev same_number : ℕ → ℕ → Bool
same_number a b = a == b

same_number-IsPointerTest : IsPointerTest same_number
same_number-IsPointerTest = record {
  same_pointer = λ x. (==_iff x x).1 refl;
  one_node = λ x y h. (==_iff x y).0 h;
}

abbrev three_nodes : RedBlackTree ℕ
three_nodes = record {
  tree = node black 4 12 (node red 2 2 null null) (node red 6 6 null null);
  list = 2 ∷ 4 ∷ 6 ∷ [];
  elements = 3;
}

three_nodes-IsValid : IsValid compare (λ n. n) three_nodes
three_nodes-IsValid = record {
  sorted = ((refl, (refl, tt)), ((refl, tt), (tt, tt)));
  balanced = (1, ((refl, refl, refl, refl), (refl, refl, refl, refl)));
  black_root = refl;
  summed = (refl, (refl, tt, tt), (refl, tt, tt));
  same_list = refl;
  counted = refl;
}

insert-refines_example :
    (i : Insert.Insertion ℕ) × (Insert.insert (λ n. n) compare same_number 5 three_nodes ≡ some i)
    × (storage_insertion i ≡ Storage.insert compare 5 (2 ∷ 4 ∷ 6 ∷ []))
    × IsValid compare (λ n. n) (tree_after three_nodes i)
insert-refines_example =
    insert-refines compare compare-IsLawful same_number same_number-IsPointerTest (λ n. n) 5
      three_nodes (omega arith) three_nodes-IsValid

find-refines_example : find compare 6 three_nodes.tree ≡ Storage.find compare 6 (2 ∷ 4 ∷ 6 ∷ [])
find-refines_example =
    find-refines compare compare-IsLawful 6 three_nodes.tree three_nodes-IsValid.sorted

get_node_by_value-refines_example :
    get_node_by_value (λ n. n) 7 three_nodes.tree ≡ Storage.get_by_value (λ n. n) 7 (2 ∷ 4 ∷ 6 ∷ [])
unfolding Storage.value_sum
get_node_by_value-refines_example =
    get_node_by_value-refines (λ n. n) 7 three_nodes.tree three_nodes-IsValid.summed (omega arith)

-- The root, which has two subtrees
abbrev root_of_three : Position ℕ
root_of_three = record {
  hue = black;
  content = 4;
  sum = 12;
  left = node red 2 2 null null;
  right = node red 6 6 null null;
  above = root;
}

remove-refines_example :
    (t' : RedBlackTree ℕ) × (remove (λ n. n) same_number root_of_three three_nodes ≡ some t')
    × (Storage.remove (same_number 4) (2 ∷ 4 ∷ 6 ∷ []) ≡ some (4, inorder t'.tree))
    × IsValid compare (λ n. n) t'
remove-refines_example =
    remove-refines compare compare-IsLawful same_number same_number-IsPointerTest (λ n. n)
      root_of_three three_nodes refl three_nodes-IsValid

get_nearest_prev-refines_example :
    (get_nearest_prev compare same_number 5 three_nodes ≡ last_below compare 5 (2 ∷ 4 ∷ 6 ∷ []))
    × (get_nearest_next compare same_number 5 three_nodes ≡ first_above compare 5 (2 ∷ 4 ∷ 6 ∷ []))
get_nearest_prev-refines_example =
    get_nearest_prev-refines compare compare-IsLawful same_number same_number-IsPointerTest (λ n. n)
      5 three_nodes three_nodes-IsValid
