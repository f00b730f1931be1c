-- ===== src/Tests/Runs.antt =====
-- Runs of the methods from an empty memory.
use skippy_rs.Base.{
  ℕ, ◌≡◌, refl, Option, none, some, [], false, ok, ◌>>=◌, pure, Run, fault, panic, abort,
  out_of_fuel,
}
use skippy_rs.Node.{height, sub_ref, add_ref}
use skippy_rs.Store.{
  SkipList, Op, link_to, deref, load_key, load_val, store_val, load_height, on_header, load_link,
  store_link, load_ptr, load_tag, store_ptr, check_layout, alloc, new_node, dealloc,
}
use skippy_rs.Basics.{new, is_empty, gen_height, lower_height, next_seed, trailing_zeros}
use skippy_rs.SkipList.{
  insert, internal_insert, insert_at, insert_new, insert_found, find, top_level, search_down,
  skip_tagged, stops, match_key, link_nodes, link_loop, remove, internal_remove, remove_at,
  remove_found, unlink, unlink_loop, unlink_level,
}

abbrev no_memory : SkipList ℕ
no_memory = record {
  head = 0;
  live = λ a. false;
  key = λ a. none;
  val = λ a. none;
  header = λ a. 0;
  link = λ a l. link_to 0 0;
  len = 0;
  max_height = 0;
  seed = 0;
  retired = [];
}

abbrev returned : {A : Type 0} → Run (SkipList ℕ) A → Option A
returned (ok a s) = some a
returned fault = none
returned panic = none
returned abort = none
returned out_of_fuel = none

abbrev session : Op ℕ (Option ℕ × Option (ℕ × ℕ))
session = do
  _ ← new 1000 8
  _ ← insert 100 5 50
  _ ← insert 200 3 30
  old ← insert 300 5 51
  gone ← remove 3
  pure (old, gone)

session_run : returned (session no_memory) ≡ some (some 50, some (3, 30))
unfolding height sub_ref add_ref deref load_key load_val store_val load_height on_header load_link
    store_link load_ptr load_tag store_ptr check_layout alloc new_node dealloc new is_empty
    gen_height lower_height next_seed trailing_zeros insert internal_insert insert_at insert_new
    insert_found find top_level search_down skip_tagged stops match_key link_nodes link_loop remove
    internal_remove remove_at remove_found unlink unlink_loop unlink_level
session_run = refl
