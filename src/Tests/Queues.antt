-- ===== src/Tests/Queues.antt =====
-- The swap queue and the histogram.
use iocp_echo_server.Base.{ℕ, ◌≡◌, List, [], ◌∷◌}
use iocp_echo_server.Core.SwapQueue.Laws.{Op, pushes, swaps, tries}
use iocp_echo_server.Core.Latency.{reset, merge}
use iocp_echo_server.Core.Latency.Counts.{adds, merge-adds_all}

abbrev calls : List (Op ℕ)
calls = pushes 4 ∷ tries 1 5 ∷ swaps ∷ pushes 6 ∷ []

merge-adds_all_example :
    merge (adds (7 ∷ 120 ∷ []) reset) (adds (3 ∷ []) reset)
    ≡ adds (7 ∷ 120 ∷ []) (adds (3 ∷ []) reset)
merge-adds_all_example = merge-adds_all (3 ∷ []) (7 ∷ 120 ∷ [])
