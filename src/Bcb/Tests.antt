-- ===== src/Bcb/Tests.antt =====
-- The theorems on the ring buffer at a concrete ring.
use tcp_lib_with_command_par.Prelude.{◌≡◌, refl, inr, true, List, [], ◌∷◌, done, arith, replicate}
use tcp_lib_with_command_par.Prelude.Memory.{memcpy_in, memcpy_out, splice}
use tcp_lib_with_command_par.Bcb.{
  Bcb, bcb_read, bcb_write, read_round, write_straight, bcb_is_full, bcb_available_size,
}
use tcp_lib_with_command_par.Bcb.Queue.{Holds}
use tcp_lib_with_command_par.Bcb.Front.{Reads}
use tcp_lib_with_command_par.Bcb.Read.{bcb_read-Reads}
use tcp_lib_with_command_par.Bcb.Pieces.{Writes}
use tcp_lib_with_command_par.Bcb.Write.{bcb_write-Writes}
use tcp_lib_with_command_par.Bcb.Round.{bcb_read-misread}
use tcp_lib_with_command_par.Bcb.Refine.{
  Queue, IsQueue, Call, write, read, calls, queue_calls, calls_refine,
}

-- A ring of five bytes that holds 3, 4 and 1, which goes round.
abbrev ring : Bcb
ring = record {
  buffer = 1 ∷ 7 ∷ 7 ∷ 3 ∷ 4 ∷ [];
  buffer_size = 5;
  front = 1;
  rear = 3;
  current_size = 3;
}

ring-Holds : Holds ring (3 ∷ 4 ∷ 1 ∷ [])
ring-Holds = record {
  sized = refl;
  small = omega arith;
  counted = refl;
  layout = inr (record {
    head = 3 ∷ 4 ∷ [];
    tail = 1 ∷ [];
    gap = 7 ∷ 7 ∷ [];
    block = refl;
    start = refl;
    end = refl;
    pieces = refl;
    some_head = omega arith;
  });
}

-- The byte behind the end of the block stands where the first should be.
read_round_runs :
    bcb_read ring (replicate 3 0) 3 true
    ≡ done (record ring { rear = 1; current_size = 0 }, 1 ∷ 4 ∷ 0 ∷ [], 3)
unfolding bcb_read read_round memcpy_in memcpy_out splice
read_round_runs = refl

write_runs :
    bcb_write ring (8 ∷ 9 ∷ []) 2
    ≡ done (record ring { buffer = 1 ∷ 8 ∷ 9 ∷ 3 ∷ 4 ∷ []; front = 3; current_size = 5 }, 2)
unfolding bcb_write write_straight bcb_is_full bcb_available_size memcpy_in memcpy_out splice
write_runs = refl

bcb_write-Writes_example :
    Writes ring (3 ∷ 4 ∷ 1 ∷ 8 ∷ 9 ∷ []) 2 (bcb_write ring (8 ∷ 9 ∷ 6 ∷ []) 2)
bcb_write-Writes_example =
    bcb_write-Writes ring (3 ∷ 4 ∷ 1 ∷ []) (8 ∷ 9 ∷ []) (6 ∷ []) ring-Holds (omega arith)
      (omega arith)

bcb_read-Reads_example :
    Reads ring (1 ∷ []) (3 ∷ 4 ∷ 0 ∷ []) 2 true (bcb_read ring (replicate 3 0) 2 true)
bcb_read-Reads_example =
    bcb_read-Reads ring (3 ∷ 4 ∷ 1 ∷ []) (replicate 3 0) 2 true ring-Holds (omega arith)
      (omega arith) (omega arith)

bcb_read-misread_example :
    Reads ring [] (1 ∷ 4 ∷ 0 ∷ []) 3 true (bcb_read ring (replicate 3 0) 3 true)
bcb_read-misread_example =
    bcb_read-misread ring (3 ∷ 4 ∷ 1 ∷ []) (replicate 3 0) 3 true ring-Holds (omega arith)
      (omega arith) (omega arith)

abbrev session : List Call
session = write (8 ∷ 9 ∷ []) ∷ write (6 ∷ []) ∷ read 4 ∷ read 2 ∷ []

abbrev queue : Queue
queue = record { held = 3 ∷ 4 ∷ 1 ∷ []; at = 3 }

calls_refine_example :
    (after : Bcb) × (calls ring session ≡ done (after, (queue_calls 5 queue session).1))
    × IsQueue 5 after (queue_calls 5 queue session).0
calls_refine_example =
    calls_refine 5 session ring queue (record { holds = ring-Holds; placed = refl; sized = refl })
