-- ===== src/Cancel/Tests.antt =====
-- A pass over two destinations, with a compare of one of them inside it.
use auto_sync.Prelude.{
  ◌≡◌, refl, false, ◌||◌, none, some, [], ◌∷◌, codes, bytes_eq, arith, Memᴰ, count_rows,
}
use auto_sync.Cancel.Ops.{
  ActiveOp, Thread, begin_targets, drop_op, request, request_loop, matches, request_lem,
}
use auto_sync.Cancel.Nesting.{Runs, Same, Same-Runs}

abbrev idle : Thread
idle =
    (record { next_op_id = 1; ops = []; flag = λ i. false; files = λ i. 0; failed = λ i. 0 }, none)

abbrev pass : Thread
unfolding begin_targets
pass = (begin_targets (codes "sync") (codes "s|a" ∷ codes "s|b" ∷ []) idle).0

abbrev compare_inside : Thread
unfolding pass begin_targets
compare_inside = (begin_targets (codes "compare") (codes "s|b" ∷ []) pass).0

abbrev compare_op : ActiveOp
compare_op = record { id = 2; kind = codes "compare"; targets = codes "s|b" ∷ [] }

request_run : (request (some (codes "compare")) (some (codes "s|b")) compare_inside.0).1 ≡ 1
unfolding compare_inside pass begin_targets request request_loop matches bytes_eq
request_run = refl

request_lem_example :
    ((request none (some (codes "s|a")) compare_inside.0).0.flag 2
      ≡ (matches none (some (codes "s|a")) compare_op || compare_inside.0.flag 2))
    × ((request none (some (codes "s|a")) compare_inside.0).1
        ≡ count_rows (matches none (some (codes "s|a"))) compare_inside.0.ops)
unfolding compare_inside pass begin_targets
request_lem_example =
    request_lem none (some (codes "s|a")) compare_inside.0 compare_op ((refl, tt), (tt, tt))
      (Memᴰ.tail (Memᴰ.head refl))

abbrev after_pass : Thread
unfolding begin_targets drop_op pass compare_inside
after_pass =
    drop_op (begin_targets (codes "sync") (codes "s|a" ∷ codes "s|b" ∷ []) idle).1
      (drop_op (begin_targets (codes "compare") (codes "s|b" ∷ []) pass).1 compare_inside)

nested_run : Runs idle after_pass
unfolding after_pass begin_targets drop_op pass compare_inside
nested_run =
    Runs.scoped (codes "sync") (codes "s|a" ∷ codes "s|b" ∷ []) idle _ _ (omega arith)
      (Runs.scoped (codes "compare") (codes "s|b" ∷ []) pass compare_inside _ (omega arith)
        (Runs.done compare_inside) (Runs.done _))
      (Runs.done after_pass)

Same-Runs_example : Same idle after_pass
Same-Runs_example = Same-Runs idle after_pass tt nested_run
