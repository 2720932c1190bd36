-- ===== src/Demarcar/Tests.antt =====
-- The theorems on demarcars at concrete rings.
use tcp_lib_with_command_par.Prelude.{ℕ, refl, List, [], ◌∷◌, arith, replicate}
use tcp_lib_with_command_par.Bcb.{new_bcb}
use tcp_lib_with_command_par.Bcb.Queue.{new_bcb-Holds}
use tcp_lib_with_command_par.Demarcar.{Demarcar, Framing, fixed_size, variable_size, process_msg}
use tcp_lib_with_command_par.Demarcar.Sizes.{Framed}
use tcp_lib_with_command_par.Demarcar.Fixed.{Delivers}
use tcp_lib_with_command_par.Demarcar.Stream.{process_all, process_all-Frames}
use tcp_lib_with_command_par.Demarcar.Variable.{Ignores, process_msg-Ignores}

abbrev demarcar : Framing → Demarcar
demarcar framing = record { framing = framing; bcb = new_bcb (λ i. 7) 6; buffer = replicate 8 0 }

in_pairs : Framed 2 (demarcar (fixed_size 2)) []
unfolding new_bcb
in_pairs = record {
  kind = refl;
  positive = omega arith;
  room = omega arith;
  holds = new_bcb-Holds (λ i. 7) 6 (omega arith) (omega arith);
  aligned = record { at = 0; count = 3; read_at = refl; size_of = refl };
}

abbrev segments : List (List ℕ)
segments = (1 ∷ 2 ∷ 3 ∷ []) ∷ (4 ∷ []) ∷ (5 ∷ 6 ∷ 7 ∷ 8 ∷ []) ∷ []

process_all-Frames_example :
    Delivers
      (demarcar (fixed_size 2))
      2
      (1 ∷ 2 ∷ 3 ∷ 4 ∷ 5 ∷ 6 ∷ 7 ∷ 8 ∷ [])
      (process_all (demarcar (fixed_size 2)) segments)
unfolding new_bcb
process_all-Frames_example =
    process_all-Frames 2 (demarcar (fixed_size 2)) [] segments in_pairs (omega arith) (omega arith)

process_msg-Ignores_example :
    Ignores
      (demarcar variable_size)
      (4 ∷ 0 ∷ 1 ∷ 2 ∷ [])
      (process_msg (demarcar variable_size) (4 ∷ 0 ∷ 1 ∷ 2 ∷ 0 ∷ []) 4)
unfolding new_bcb
process_msg-Ignores_example =
    process_msg-Ignores (demarcar variable_size) [] (4 ∷ 0 ∷ 1 ∷ 2 ∷ []) (0 ∷ []) refl
      (new_bcb-Holds (λ i. 7) 6 (omega arith) (omega arith)) (omega arith) (omega arith)
