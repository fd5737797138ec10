-- ===== src/Rasta/Fifo/Tests.antt =====
-- fifo.c at concrete calls.
use tfm_cloud_ixl_rasta.Prelude.{ℕ, ◌≡◌, refl, none, some, List, [], ◌∷◌}
use tfm_cloud_ixl_rasta.Rasta.Fifo.{Store, Fifo, fifo_init, push_cell, fifo_destroy, destroy_loop}
use tfm_cloud_ixl_rasta.Rasta.Fifo.Refine.{
  Call, push, pop, run_cells, run_queue, run_cells-fifo_init,
}

abbrev calls : List (Call ℕ)
calls = pop ∷ push 5 ∷ push 6 ∷ push 7 ∷ pop ∷ push 8 ∷ pop ∷ pop ∷ pop ∷ []

abbrev store : Store ℕ
store = record { cells = λ i. none; used = 3 }

-- The third push finds the fifo full.
pops : run_queue 2 calls [] ≡ none ∷ some 5 ∷ some 6 ∷ some 8 ∷ none ∷ []
unfolding run_queue
pops = refl

run_cells-fifo_init_example : run_cells calls store (fifo_init 2) ≡ run_queue 2 calls []
run_cells-fifo_init_example = run_cells-fifo_init calls store 2

abbrev push_then : ℕ → Store ℕ × Fifo → Store ℕ × Fifo
push_then x (s, f) = push_cell s f x

abbrev four_pushed : Store ℕ × Fifo
four_pushed = push_then 8 (push_then 7 (push_then 6 (push_then 5 (store, fifo_init 4))))

-- Of the four cells that were allocated, the third is still there after the destruction.
third_leaks :
    (fifo_destroy four_pushed.0 four_pushed.1).cells 5
    ≡ some (record { element = 7; link = some 6 })
unfolding fifo_destroy destroy_loop push_cell fifo_init
third_leaks = refl

first_freed : (fifo_destroy four_pushed.0 four_pushed.1).cells 3 ≡ none
unfolding fifo_destroy destroy_loop push_cell fifo_init
first_freed = refl
