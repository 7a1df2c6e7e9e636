-- ===== src/Tests/Tables.antt =====
-- The theorems on the store at concrete tables.
use sleigh.Prelude.{
  ◌⊎◌, suc, ◌≤◌, ◌≡◌, ◌≢◌, ◌↔◌, refl, ◌==◌, codes, true, false, some, none, List, [], ◌∷◌, All, any,
  map, length, select, order_by, delete_where, text_lt, insert_by,
}
use sleigh.Prelude.Int.{◌<ℤ◌, ◌≤ℤ◌, pos}
use sleigh.Errors.{ok}
use sleigh.Store.Schema.{Db, WarmPoolEntry, empty_db, has_sandbox}
use sleigh.Store.Sandboxes.{delete_sandbox}
use sleigh.Store.Execs.{history_rows, record_of_row, newer, in_session}
use sleigh.Store.Pool.{fits, oldest_fit, acquire_warm_pool_entry, count_warm_pool_available}
use sleigh.Store.Sequences.{next_session_sequence}
use sleigh.Store.Paging.{IsKeyed}
use sleigh.Store.Walk.{page, fetch_all, fetch_all_lem, page_bounds}
use sleigh.Store.Counters.{last_seq, next_session_sequence_lem}
use sleigh.Store.Acquire.{acquire_warm_pool_entry_lem, acquire_twice_distinct, acquire-none_iff}
use sleigh.Store.Integrity.{IsIntegral}
use sleigh.Store.Integrity.Trace.{
  Query, create_sandbox_q, create_pool_q, acquire_q, delete_sandbox_q, run_all, IsGone,
  run_all-IsIntegral, empty_db-IsIntegral, delete_sandbox_lem,
}
use sleigh.Tests.Data.{box, pooled, two_boxes}

abbrev some_queries : List Query
some_queries =
    create_sandbox_q (box (codes "a") [])
    ∷ create_pool_q (pooled (codes "a") (codes "1"))
    ∷ acquire_q (codes "python") (pos 256)
    ∷ delete_sandbox_q (codes "a")
    ∷ []

run_all-IsIntegral_example : IsIntegral (run_all some_queries empty_db)
run_all-IsIntegral_example = run_all-IsIntegral some_queries empty_db empty_db-IsIntegral

there : has_sandbox two_boxes (codes "a") ≡ true
unfolding has_sandbox any ◌==◌
there = refl

delete_sandbox_example :
    ((delete_sandbox (codes "a") two_boxes).0 ≡ ok tt)
    × IsGone (codes "a") (delete_sandbox (codes "a") two_boxes).1
delete_sandbox_example = delete_sandbox_lem (codes "a") two_boxes there

two_boxes-IsKeyed : IsKeyed two_boxes
unfolding ◌==◌
two_boxes-IsKeyed = record {
  distinct = ((refl, (refl, tt)), ((refl, tt), (tt, tt)));
  started = (refl, (refl, (refl, tt)));
  named = (refl, (refl, (refl, tt)));
}

fetch_all_example :
    fetch_all
      (suc (length (history_rows (codes "s") [] [] two_boxes)))
      (codes "s")
      (pos 2)
      []
      []
      two_boxes
    ≡ map record_of_row
        (order_by newer (select (in_session two_boxes (codes "s")) two_boxes.exec_tasks))
fetch_all_example = fetch_all_lem two_boxes (codes "s") (pos 2) two_boxes-IsKeyed

page_bounds_example :
    (length (page (codes "s") (pos 2) [] [] two_boxes) ≤ 200)
    × (((pos 0 <ℤ pos 2) × (length (page (codes "s") (pos 2) [] [] two_boxes) ≤ 2))
        ⊎ ((pos 2 ≤ℤ pos 0) × (length (page (codes "s") (pos 2) [] [] two_boxes) ≤ 20)))
page_bounds_example = page_bounds (codes "s") (pos 2) [] [] two_boxes

next_session_sequence_example :
    ((next_session_sequence (codes "s") two_boxes).0 ≡ ok 1)
    × (last_seq (codes "t") (next_session_sequence (codes "s") two_boxes).1.sequences ≡ 0)
unfolding ◌==◌
next_session_sequence_example = next_session_sequence_lem (codes "s") (codes "t") two_boxes

abbrev after_one : Db
after_one = record two_boxes { warm_pool = pooled (codes "b") (codes "2") ∷ [] }

abbrev after_two : Db
after_two = record two_boxes { warm_pool = [] }

first_acquired :
    acquire_warm_pool_entry (codes "python") (pos 256) two_boxes
    ≡ (ok (some (codes "c")), after_one)
unfolding acquire_warm_pool_entry oldest_fit fits ◌==◌ select order_by insert_by text_lt
    delete_where
first_acquired = refl

second_acquired :
    acquire_warm_pool_entry (codes "python") (pos 256) after_one
    ≡ (ok (some (codes "b")), after_two)
unfolding acquire_warm_pool_entry oldest_fit fits ◌==◌ select order_by insert_by text_lt
    delete_where
second_acquired = refl

acquire_warm_pool_entry_example :
    (e : WarmPoolEntry) × (e.sandbox_id ≡ codes "c")
    × (fits (codes "python") (pos 256) e ≡ true)
    × (any (λ x. x.sandbox_id == codes "c") two_boxes.warm_pool ≡ true)
    × All
        (λ y. text_lt y.created_at e.created_at ≡ false)
        (select (fits (codes "python") (pos 256)) two_boxes.warm_pool)
    × (after_one ≡ record two_boxes {
      warm_pool = delete_where (λ x. x.sandbox_id == codes "c") two_boxes.warm_pool;
    })
acquire_warm_pool_entry_example =
    acquire_warm_pool_entry_lem (codes "python") (pos 256) two_boxes after_one (codes "c")
      first_acquired

acquire_twice_example : codes "c" ≢ codes "b"
acquire_twice_example =
    acquire_twice_distinct (codes "python") (codes "python") (pos 256) (pos 256) two_boxes after_one
      after_two (codes "c") (codes "b") first_acquired second_acquired

acquire-none_example :
    ((acquire_warm_pool_entry (codes "node") (pos 256) two_boxes).0 ≡ ok none)
    ↔ ((count_warm_pool_available (codes "node") (pos 256) two_boxes).0 ≡ ok 0)
acquire-none_example = acquire-none_iff (codes "node") (pos 256) two_boxes
