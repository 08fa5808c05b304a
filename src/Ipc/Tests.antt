-- ===== src/Ipc/Tests.antt =====
-- Tests of the options of the transport over Unix sockets.
use nanomsg_copy.Prelude.{
  ℕ, ◌≡◌, refl, Option, none, some, List, [], ◌∷◌, success, failure, enoprotoopt, einval, arith,
}
use nanomsg_copy.Prelude.Int.{pos, negsuc}
use nanomsg_copy.Sock.Samples.{two_cells}
use nanomsg_copy.Ipc.{optset, numbered, set, setopt, getopt}
use nanomsg_copy.Ipc.Options.{Reads, getopt-setopt_sizes}

-- A pointer in one cell.
abbrev pointer_cell : Option ℕ → List ℕ
pointer_cell none = 0 ∷ []
pointer_cell (some a) = a ∷ []

getopt-setopt_sizes_example :
    let output = setopt two_cells (pos 2) 100 (0 ∷ 512 ∷ []) 2 optset in
    let input = setopt two_cells (pos 3) 100 (0 ∷ 512 ∷ []) 2 optset in
    (output.0 ≡ success)
    × Reads two_cells
        (7 ∷ 7 ∷ 7 ∷ [])
        (pos 512)
        (getopt two_cells pointer_cell (pos 2) (7 ∷ 7 ∷ 7 ∷ []) 3 output.1)
    × (getopt two_cells pointer_cell (pos 3) (7 ∷ 7 ∷ 7 ∷ []) 3 output.1
        ≡ getopt two_cells pointer_cell (pos 3) (7 ∷ 7 ∷ 7 ∷ []) 3 optset)
    × (input.0 ≡ success)
    × Reads two_cells
        (7 ∷ 7 ∷ 7 ∷ [])
        (pos 512)
        (getopt two_cells pointer_cell (pos 3) (7 ∷ 7 ∷ 7 ∷ []) 3 input.1)
    × (getopt two_cells pointer_cell (pos 2) (7 ∷ 7 ∷ 7 ∷ []) 3 input.1
        ≡ getopt two_cells pointer_cell (pos 2) (7 ∷ 7 ∷ 7 ∷ []) 3 optset)
getopt-setopt_sizes_example =
    getopt-setopt_sizes two_cells pointer_cell (pos 512) [] (7 ∷ 7 ∷ 7 ∷ []) 100 2 3 optset
      (omega arith) (omega arith)

unknown : setopt two_cells (negsuc 0) 100 (0 ∷ 512 ∷ []) 2 optset ≡ (failure enoprotoopt, optset)
unfolding setopt set numbered
unknown = refl

too_short : setopt two_cells (pos 2) 100 (0 ∷ []) 1 optset ≡ (failure einval, optset)
unfolding setopt
too_short = refl
