-- ===== src/UdpServer/Tests.antt =====
-- The buffers of the UDP server at concrete inputs.
use easy_network.Base.{◌≤◌, ◌≡◌, refl, true, some, [], ◌∷◌, arith, codes, length}
use easy_network.UdpServer.{
  queue, Item, push_queue, push_stack, peek, pop, pop_front, index_min_queue, on_message, change,
}
use easy_network.UdpServer.Contents.{buffer_of, buffer_refines}
use easy_network.UdpServer.Fifo.{Channel, at_test, idle}

abbrev first : Item
first = record { message = codes "a"; address = codes "x:1"; time = 1 }

abbrev second : Item
second = record { message = codes "b"; address = codes "y:2"; time = 2 }

buffer_refines_example :
    (push_queue second (buffer_of (first ∷ [])) ≡ buffer_of (first ∷ second ∷ []))
    × (push_stack 1 second (buffer_of (first ∷ [])) ≡ buffer_of (second ∷ []))
    × (length (second ∷ []) ≤ 1)
    × (peek (buffer_of (first ∷ [])) ≡ some first)
    × (pop (buffer_of (first ∷ [])) ≡ buffer_of (pop_front (first ∷ [])))
buffer_refines_example = buffer_refines 1 second (first ∷ []) (omega arith)

-- The second message was added while the first one is handled.
abbrev channel : Channel
channel = record {
  buffer = buffer_of (second ∷ []);
  writer = idle;
  phase = at_test;
  arrived = first ∷ second ∷ [];
  handled = first ∷ [];
}

-- The first item is in the buffer.
abbrev one : Channel
one = record {
  buffer = buffer_of (first ∷ []);
  writer = idle;
  phase = at_test;
  arrived = first ∷ [];
  handled = [];
}

-- The second of two threads has the shorter buffer.
on_message_run :
    on_message queue 16 true second (buffer_of (first ∷ []) ∷ buffer_of [] ∷ [])
    ≡ buffer_of (first ∷ []) ∷ buffer_of (second ∷ []) ∷ []
unfolding on_message index_min_queue change push_queue
on_message_run = refl
