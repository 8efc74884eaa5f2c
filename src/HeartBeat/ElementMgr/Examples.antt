-- ===== src/HeartBeat/ElementMgr/Examples.antt =====
-- Managers of heart_beat_element_mgr.h with two elements, with and without a limit.
use newbee.Base.{ℕ, ◌≡◌, refl, true, none, [], ◌∷◌, arith, nat_eq}
use newbee.Memory.{Returns, returns, Returns-ok, Run, ok, fault, out_of_fuel}
use newbee.HeartBeat.NodeList.{
  node, success, Status, write, load, pop_back, push_front, set_front, set_next,
}
use newbee.HeartBeat.NodeList.Segment.{◌∉◌}
use newbee.HeartBeat.NodeList.Examples.{heap_of}
use newbee.HeartBeat.ElementMgr.{
  entry, Mgr, init, evict, add_element, update_element, del_element, handle_timeout, clear_element,
  get_all_element_and_clear, trigger_all_timeout, notify, drop_node, data_of, construct,
}
use newbee.HeartBeat.ElementMgr.Spec
use newbee.HeartBeat.ElementMgr.Spec.{Spec, Config, is_over, told}
use newbee.HeartBeat.ElementMgr.Rep.{Entries, ptr_of}
use newbee.HeartBeat.ElementMgr.Implements.{Implements, spec_of}
use newbee.HeartBeat.ElementMgr.Evict.{evict-Implements}
use newbee.HeartBeat.ElementMgr.Add.{add_element-Implements}
use newbee.HeartBeat.ElementMgr.Update.{update_element-Implements}
use newbee.HeartBeat.ElementMgr.Delete.{del_element-Implements}
use newbee.HeartBeat.ElementMgr.Timeout.{handle_timeout-Implements}
use newbee.HeartBeat.ElementMgr.Expiry.{in_time, late}
use newbee.HeartBeat.ElementMgr.Clear.{
  Emptied, clear_element-Emptied, get_all_element_and_clear-Emptied, trigger_all_timeout-Emptied,
  clear_element-breaks_add,
}
use newbee.HeartBeat.ElementMgr.History.{
  Reach, started, waited, added, configured, Sound, reach-Sound, reach-handle_timeout,
}
use newbee.HeartBeat.ElementMgr.Constancy.{HasRoom}

abbrev pub two_entries : Entries ℕ
two_entries = (2, entry 8 6) ∷ (1, entry 7 5) ∷ []

-- Elements 8 and 7, a time-out of 10 seconds, and a limit of `max` elements.
abbrev pub two_up_to : ℕ → Mgr ℕ
two_up_to max = record {
  elements = λ e. ptr_of e two_entries;
  busy_list = record {
    header = 2;
    tail = 1;
    heap = heap_of ((2, node 0 1 (entry 8 6)) ∷ (1, node 2 0 (entry 7 5)) ∷ []);
  };
  has_callback = true;
  element_count = 2;
  timeout_flag = true;
  timeout = 10;
  max_limit_flag = true;
  max_limit = max;
  called = [];
}

abbrev pub two_held : Spec ℕ
two_held = spec_of (two_up_to 2) two_entries

two_no_leak : (a : ℕ) → a ∉ two_entries → (two_up_to 2).busy_list.heap a ≡ none
two_no_leak a out = ground arith

pub two_Implements : Implements (two_up_to 2) two_held
two_Implements = record {
  nodes = two_entries;
  rep = record {
    list = record {
      header = refl;
      tail = refl;
      chain = (ground arith, refl, refl, (ground arith, refl, refl, tt));
    };
    index = λ e. refl;
    distinct = (refl, (refl, tt));
    no_leak = two_no_leak;
  };
  counted = refl;
  bounded = omega arith;
  view = refl;
}

-- What the pool may answer behind the eviction of element 7: the address 3 is unused.
three_unused : (m : Mgr ℕ) → evict (two_up_to 2) ≡ ok (tt, m) → m.busy_list.heap 3 ≡ none
unfolding evict notify drop_node data_of load pop_back write set_front set_next
three_unused m ran = Returns-ok (λ r. r.1.busy_list.heap 3 ≡ none) _ (tt, m) (returns refl) ran

add_element-Implements_example :
    Returns
      (λ r.
        (r.0 ≡ (Spec.add_element true 9 9 two_held).0)
        × Implements r.1 (Spec.add_element true 9 9 two_held).1)
      (add_element 3 9 9 (two_up_to 2))
add_element-Implements_example =
    add_element-Implements (two_up_to 2) two_held 3 9 9 true two_Implements (omega arith)
      (λ on. omega arith) refl three_unused

evict-Implements_example : Returns (λ r. Implements r.1 (Spec.evict two_held)) (evict (two_up_to 2))
evict-Implements_example =
    evict-Implements (two_up_to 2) two_held two_Implements (omega arith) (λ on. omega arith)

update_element-Implements_example :
    Returns
      (λ r.
        (r.0 ≡ (Spec.update_element 9 7 two_held).0)
        × Implements r.1 (Spec.update_element 9 7 two_held).1)
      (update_element 9 7 (two_up_to 2))
update_element-Implements_example =
    update_element-Implements (two_up_to 2) two_held 9 7 two_Implements

del_element-Implements_example :
    Returns
      (λ r.
        (r.0 ≡ (Spec.del_element 7 two_held).0) × Implements r.1 (Spec.del_element 7 two_held).1)
      (del_element 7 (two_up_to 2))
del_element-Implements_example = del_element-Implements (two_up_to 2) two_held 7 two_Implements

handle_timeout-Implements_example :
    Returns
      (λ r. (r.0 ≡ success) × Implements r.1 (Spec.handle_timeout 15 two_held))
      (handle_timeout 3 15 (two_up_to 2))
handle_timeout-Implements_example =
    handle_timeout-Implements 3 15 (two_up_to 2) two_held two_Implements (omega arith)

clear_element-Emptied_example :
    Returns
      (λ r. (r.0 ≡ success) × Emptied (two_up_to 2) r.1 (Spec.clear_element two_held))
      (clear_element 3 (two_up_to 2))
clear_element-Emptied_example =
    clear_element-Emptied (two_up_to 2) two_held 3 two_Implements (omega arith)

get_all_element_and_clear-Emptied_example :
    Returns
      (λ r.
        (r.0 ≡ (success, 6 ∷ 8 ∷ 7 ∷ [])) × Emptied (two_up_to 2) r.1 (Spec.clear_element two_held))
      (get_all_element_and_clear 3 (6 ∷ []) (two_up_to 2))
get_all_element_and_clear-Emptied_example =
    get_all_element_and_clear-Emptied (two_up_to 2) two_held 3 (6 ∷ []) two_Implements (omega arith)

trigger_all_timeout-Emptied_example :
    Returns
      (λ r. Emptied (two_up_to 2) r.1 (Spec.trigger_all_timeout two_held))
      (trigger_all_timeout 3 (two_up_to 2))
trigger_all_timeout-Emptied_example =
    trigger_all_timeout-Emptied (two_up_to 2) two_held 3 two_Implements (omega arith)

clear_element-breaks_add_example :
    Returns
      (λ r. (fresh now e : ℕ) → add_element fresh now e r.1 ≡ fault)
      (clear_element 3 (two_up_to 2))
clear_element-breaks_add_example =
    clear_element-breaks_add (two_up_to 2) two_held 3 two_Implements (omega arith) refl
      (omega arith) (omega arith)

-- A time-out of 10 seconds and a limit of 2 elements.
abbrev pub limits : Config
limits = record {
  has_callback = true;
  timeout_flag = true;
  timeout = 10;
  max_limit_flag = true;
  max_limit = 2;
}

limits-HasRoom : HasRoom limits
limits-HasRoom on = omega arith

one_unused : (m : Mgr ℕ) → evict (configured limits) ≡ ok (tt, m) → m.busy_list.heap 1 ≡ none
unfolding evict init
one_unused m ran = Returns-ok (λ r. r.1.busy_list.heap 1 ≡ none) _ (tt, m) (returns refl) ran

abbrev state_of : Run (Status × Mgr ℕ) → Mgr ℕ
state_of (ok r) = r.1
state_of fault = init
state_of out_of_fuel = init

-- Element 7, which is added at time 5.
abbrev one_added : Mgr ℕ
one_added = state_of (add_element 1 5 7 (configured limits))

one_ran : add_element 1 5 7 (configured limits) ≡ ok (success, one_added)
unfolding init construct add_element evict push_front load set_front set_next write
one_ran = refl

one_count : one_added.element_count ≡ 1
unfolding init construct add_element evict push_front load set_front set_next write
one_count = refl

one-Reach : Reach limits 15 one_added
unfolding init
one-Reach = waited {t = 5} (omega arith) (added 1 7 (started 5) (omega arith) one_unused one_ran)

reach-Sound_example : Sound limits 15 one_added
reach-Sound_example = reach-Sound limits limits-HasRoom 15 one_added one-Reach

reach-handle_timeout_example :
    (s : Spec ℕ) × Implements one_added s
    × Returns
        (λ r.
          (r.0 ≡ success)
          × Implements r.1 (record s {
            entries = in_time (is_over 15 10) s.entries;
            called = told s (late (is_over 15 10) s.entries);
          }))
        (handle_timeout 2 15 one_added)
reach-handle_timeout_example =
    reach-handle_timeout limits limits-HasRoom 2 15 one_added one-Reach refl
      (omega (arith, one_count))
