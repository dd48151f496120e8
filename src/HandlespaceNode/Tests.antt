-- ===== src/HandlespaceNode/Tests.antt =====
-- The operations on a handlespace at concrete inputs: an element is registered for a Round Robin pool.
use mathlib.Core.List.{Perm}
use mathlib.Core.List.Perm
use rsplib.Base.{
  ℕ, List, [], ◌∷◌, ◌≡◌, ◌≢◌, refl, sym, ap, subst, arith, none, some, Option, false, true, All,
  pos,
}
use rsplib.PolicySettings.{PoolPolicySettings, ppt_roundrobin, is_valid, adapt}
use rsplib.PoolElement.{PoolElementNode, account}
use rsplib.PoolElement
use rsplib.PoolNode.{PoolNode, okay, check_compatibility}
use rsplib.PoolNode
use rsplib.PoolNode.Invariant
use rsplib.PoolPolicy.Laws.{get_pool_policy_by_type-IsPolicy}
use rsplib.PoolPolicy.Order.{IsPolicy}
use rsplib.PoolPolicy.Table.{round_robin, pool_policy_array, get_pool_policy_by_type}
use rsplib.PoolPolicy.Tests.{whole_numbers}
use rsplib.HandlespaceNode
use rsplib.HandlespaceNode.{PoolHandlespaceNode, element_at, find_pool}
use rsplib.HandlespaceNode.Books.{booked, entries}
use rsplib.HandlespaceNode.Computing.{compute_handlespace_checksum-kept}
use rsplib.HandlespaceNode.Elements.{update_ownership, update_element, remove_element}
use rsplib.HandlespaceNode.Invariant.{IsValid, new-IsValid}
use rsplib.HandlespaceNode.Owning.{owned_by, update_ownership-Changes}
use rsplib.HandlespaceNode.Registering.{Registering, add_or_update-IsValid}
use rsplib.HandlespaceNode.Registration.{
  Registered, add_or_update, select_by_policy, compute_handlespace_checksum,
}
use rsplib.HandlespaceNode.Removing.{remove_element-IsValid}
use rsplib.HandlespaceNode.Runs.{Step, Reached, Reached-IsValid}
use rsplib.HandlespaceNode.Selecting.{HasNumbers, select_by_policy-IsValid}
use rsplib.HandlespaceNode.Updating.{updated_by, update_element-Changes}
use rsplib.HandlespaceNode.Writing.{Changes}

abbrev settings : PoolPolicySettings
settings = record {
  policy_type = ppt_roundrobin;
  weight = 1;
  load = 0;
  load_degradation = 0;
  load_dpf = 0;
  weight_dpf = 0;
  distance = 0;
}

abbrev element : (id home : ℕ) → PoolElementNode
element id home =
    PoolElement.new id home 30000 settings
      (record { protocol = 132; port = 1024; control_channel = false; addresses = 1 }) none (pos 5)
      3

abbrev echo : List ℕ
echo = 69 ∷ 99 ∷ 104 ∷ 111 ∷ []

abbrev echo_pool : PoolNode
echo_pool = PoolNode.new echo (round_robin whole_numbers) 132 false

round_robin-IsPolicy : IsPolicy (round_robin whole_numbers)
unfolding get_pool_policy_by_type pool_policy_array round_robin
round_robin-IsPolicy =
    (get_pool_policy_by_type-IsPolicy whole_numbers ppt_roundrobin (round_robin whole_numbers)
      refl).0

echo_pool-IsValid : PoolNode.Invariant.IsValid echo_pool
unfolding PoolNode.new
echo_pool-IsValid = record {
  is_policy = round_robin-IsPolicy;
  seq_fits = omega arith;
  selected = record { sorted = tt; entries = tt; distinct = tt };
  index_sorted = tt;
  indexed = Perm.nil;
}

-- The registrar with the identifier 1, without pools.
abbrev empty : PoolHandlespaceNode
empty = HandlespaceNode.new 1 true

abbrev of_result : Option Registered → PoolHandlespaceNode
of_result none = empty
of_result (some r) = r.handlespace

-- The element 7, of the registrar 1, is registered.
abbrev one_element : PoolHandlespaceNode
one_element = of_result (add_or_update echo_pool (element 7 1) empty)

one_element-IsValid : IsValid one_element
unfolding PoolNode.new HandlespaceNode.new
one_element-IsValid =
    let (r, q, v, _) =
      add_or_update-IsValid echo_pool (element 7 1) empty (new-IsValid 1 true) tt echo_pool-IsValid
        refl in
    subst IsValid (sym (ap of_result q)) v

-- Where the element 7 is.
abbrev of_place : Option (PoolNode × PoolElementNode) → PoolNode × PoolElementNode
of_place none = (echo_pool, element 7 1)
of_place (some x) = x

abbrev place : PoolNode × PoolElementNode
place = of_place (element_at echo 7 one_element.pools)

element_at-place : element_at echo 7 one_element.pools ≡ some place
unfolding add_or_update element_at HandlespaceNode.new PoolNode.new PoolElement.new round_robin
    is_valid adapt
element_at-place = refl

-- It moves to the registrar 2.
update_ownership-Changes_example :
    (ns' : PoolHandlespaceNode) × (update_ownership echo 7 2 one_element ≡ some ns')
    × Changes echo 7 (account place.1) (owned_by echo 2 (account place.1)) one_element ns'
update_ownership-Changes_example =
    update_ownership-Changes one_element echo 7 place.0 place.1 2 one_element-IsValid
      element_at-place

update_element-Changes_example :
    (ns' : PoolHandlespaceNode) × (update_element echo 7 (element 7 2) one_element
      ≡ some (check_compatibility place.0 place.1, ns'))
    × (check_compatibility place.0 place.1 ≢ okay → ns' ≡ one_element)
    × (check_compatibility place.0 place.1 ≡ okay
        → Changes echo 7
            (account place.1)
            (updated_by echo (element 7 2) (account place.1))
            one_element
            ns')
unfolding PoolElement.new is_valid
update_element-Changes_example =
    update_element-Changes one_element echo 7 place.0 place.1 (element 7 2) one_element-IsValid
      element_at-place refl

remove_element-IsValid_example :
    (e' : PoolElementNode) × (ns' : PoolHandlespaceNode) × (remove_element echo 7 one_element
      ≡ some (e', ns'))
    × IsValid ns'
    × (account e' ≡ account place.1)
    × (element_at echo 7 ns'.pools ≡ none)
    × Perm (entries one_element.pools) (booked echo (account place.1) ∷ entries ns'.pools)
remove_element-IsValid_example =
    remove_element-IsValid one_element echo 7 place.0 place.1 one_element-IsValid element_at-place

compute_handlespace_checksum-kept_example :
    compute_handlespace_checksum one_element ≡ one_element.handlespace_checksum
compute_handlespace_checksum-kept_example =
    compute_handlespace_checksum-kept one_element one_element-IsValid

has_numbers : All (HasNumbers 1) one_element.pools
unfolding add_or_update HandlespaceNode.new PoolNode.new PoolElement.new round_robin is_valid adapt
has_numbers = (omega arith, tt)

select_by_policy-IsValid_example :
    (chosen : Option (List ℕ)) × (ns' : PoolHandlespaceNode) × (select_by_policy
        (λ n. n)
        echo
        1
        0
        one_element
      ≡ some (chosen, ns'))
    × IsValid ns'
    × Perm (entries ns'.pools) (entries one_element.pools)
    × (find_pool echo one_element.pools ≡ some none → (chosen ≡ none) × (ns' ≡ one_element))
select_by_policy-IsValid_example =
    select_by_policy-IsValid (λ n. n) echo 1 0 one_element one_element-IsValid (omega arith)
      (omega arith) (omega arith) has_numbers

-- The registration of the element 7, and its result.
abbrev of_registered : Option Registered → Registered
of_registered none = record { error = okay; element = none; handlespace = empty }
of_registered (some r) = r

abbrev registered : Registered
registered = of_registered (add_or_update echo_pool (element 7 1) empty)

add_or_update-registered : add_or_update echo_pool (element 7 1) empty ≡ some registered
unfolding add_or_update HandlespaceNode.new PoolNode.new PoolElement.new round_robin is_valid adapt
add_or_update-registered = refl

registered-Reached : Reached 1 true registered.handlespace
unfolding HandlespaceNode.new PoolNode.new
registered-Reached = Reached.next Reached.begin (
    Step.register echo_pool (element 7 1) registered tt echo_pool-IsValid refl
      add_or_update-registered)

Reached-IsValid_example :
    IsValid registered.handlespace
    × (compute_handlespace_checksum registered.handlespace
        ≡ registered.handlespace.handlespace_checksum)
Reached-IsValid_example = Reached-IsValid 1 true registered.handlespace registered-Reached
