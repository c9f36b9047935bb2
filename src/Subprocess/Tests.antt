-- ===== src/Subprocess/Tests.antt =====
-- A child that prints pieces, for the theorems at concrete inputs. The world is what it will still print.
use easy_network.Base.{ℕ, ◌≡◌, refl, true, List, [], ◌∷◌, map, arith, Bytes, codes, length, done}
use easy_network.Net.{RecvResult, got}
use easy_network.Subprocess.{
  Subprocess, Pipes, parent, new_subprocess, remove_last, read_loop, wait_data,
}
use easy_network.Subprocess.Output.{IsOutput, get_each, output_arrives}
use easy_network.Subprocess.Wait.{wait_data_waits}

abbrev first_size : List Bytes → ℕ
first_size [] = 0
first_size (m ∷ ms) = length m

abbrev read_first : List Bytes → RecvResult × List Bytes
read_first [] = (got [], [])
read_first (m ∷ ms) = (got m, ms)

abbrev printing : Pipes
printing = record {
  World = List Bytes;
  make_pipe = λ w. (true, w);
  fork = λ w. (parent, w);
  close_child_ends = λ w. w;
  run_command = λ command w. w;
  wait_readable = λ w. (true, w);
  available = λ w. (first_size w, w);
  read = λ n w. read_first w;
  write = λ m w. w;
  end_child = λ w. w;
}

abbrev printing-IsOutput : IsOutput printing
printing-IsOutput = record {
  printed = λ w. w;
  readable = λ w. refl;
  read_next = λ w m ms e. rw e (refl, refl, refl);
  read_end = λ w e. rw e (refl, refl);
}

abbrev pieces : List Bytes
pieces = codes "one." ∷ codes "two." ∷ []

output_arrives_example :
    (p' : Subprocess) × (w' : List Bytes) × (read_loop printing 3 new_subprocess pieces
      ≡ done (p', w'))
    × (p'.is_process_ended ≡ true)
    × (p'.data_counter ≡ 2)
    × ((get_each 2 true p').0 ≡ map (remove_last true) pieces)
    × (wait_data printing (2 ∷ []) true p' [] ≡ done (([], p'), []))
output_arrives_example =
    output_arrives printing printing-IsOutput pieces 3 (2 ∷ []) true new_subprocess pieces []
      (omega arith) (omega arith) (omega arith, (omega arith, tt)) refl refl refl

-- One idle turn, then one round: the first piece.
wait_data_waits_example :
    (w' : List Bytes) × (wait_data printing (0 ∷ 1 ∷ []) true new_subprocess pieces
      ≡ done ((codes "one", new_subprocess), w'))
unfolding remove_last
wait_data_waits_example =
    wait_data_waits printing printing-IsOutput 1 1 [] pieces true new_subprocess pieces
      (omega arith) refl (omega arith) (omega arith, (omega arith, tt)) refl refl

-- Three rounds in one turn: the end of the output comes first, and nothing is returned.
late_run :
    (w' : List Bytes) × (wait_data printing (3 ∷ []) true new_subprocess pieces
      ≡ done (
        (
          [],
          record new_subprocess {
            messages_queue = pieces;
            data_counter = 2;
            is_process_ended = true;
          },
        ),
        w',
      ))
late_run =
    wait_data_waits printing printing-IsOutput 0 3 [] pieces true new_subprocess pieces
      (omega arith) refl (omega arith) (omega arith, (omega arith, tt)) refl refl
