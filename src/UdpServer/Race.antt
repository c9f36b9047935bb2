-- ===== src/UdpServer/Race.antt =====
-- A buffer of type Stack when a message arrives while the handler thread is between its reading of the
-- first item and its removal: the thread takes no mutex for the reading.
use easy_network.Base.{ℕ, ◌<◌, ◌≡◌, ap, ◌∙◌, some, List, ◌∷◌, arith, length, take_all}
use easy_network.UdpServer.{Item, push_stack, peek, pop, pop_front}
use easy_network.UdpServer.Contents.{buffer_of, push_stack_of, peek_of, pop_of}

-- Where a message arrives between the reading and the removal, and the stack is not full, the message
-- that arrived is the one removed, and the item that was read stands in front again: the new message is
-- lost, and the old one is handled a second time.
pub stack_loses :
    (max : ℕ) (x new : Item) (xs : List Item)
    → length (x ∷ xs) < max
    → (peek (buffer_of (x ∷ xs)) ≡ some x)
      × (pop (push_stack max new (buffer_of (x ∷ xs))) ≡ buffer_of (x ∷ xs))
unfolding pop_front
stack_loses max x new xs room = (
  peek_of (x ∷ xs),
  ap pop (
        push_stack_of max new (x ∷ xs) (omega arith)
        ∙ ap buffer_of (take_all max (new ∷ x ∷ xs) (omega arith)))
      ∙ pop_of (new ∷ x ∷ xs),
)
