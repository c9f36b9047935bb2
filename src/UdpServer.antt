-- ===== src/UdpServer.antt =====
-- EN_UDP_Server.cpp: the buffers of the handler threads, how `Run` fills them and how
-- `ThreadListHandler` empties them. A time is a number of milliseconds.
pub mod Contents
pub mod Dispatch
pub mod Fifo
pub mod Race
pub mod Life
mod Tests
use easy_network.Base.{
  ℕ, zero, suc, ◌+◌, ◌-◌, Bool, true, false, Option, none, some, List, [], ◌∷◌, ◌++◌, map, Bytes,
  length, ltb, get_elem?, set, if◌then◌else◌,
}

-- EN_UDP_ServerBuferType
pub data BufferType : Type 0 where
  queue : BufferType
  stack : BufferType

-- `QueueMessageVec[i]`, `QueueAddrVec[i]` and `QueueTimeVec[i]` of one thread.
pub record Buffer : Type 0 where
  pub messages : List Bytes
  pub addresses : List Bytes
  pub times : List ℕ

-- A message with its sender and the time of its arrival.
pub record Item : Type 0 where
  pub message : Bytes
  pub address : Bytes
  pub time : ℕ

-- `front()` of a list is its head here, and `back()` its last element. `pop_back` and `pop_front` of a
-- list without elements are undefined in C++; the code does neither.
module _ {A : Type 0} where
  unfoldable pub pop_back : List A → List A
  pop_back [] = []
  pop_back (x ∷ []) = []
  pop_back (x ∷ y ∷ xs) = x ∷ pop_back (y ∷ xs)

  unfoldable pub pop_front : List A → List A
  pop_front [] = []
  pop_front (x ∷ xs) = xs

-- The three calls of `push_back`, in the order of the code.
abbrev pub add_message : Item → Buffer → Buffer
add_message x b = record b { messages = b.messages ++ (x.message ∷ []) }

abbrev pub add_address : Item → Buffer → Buffer
add_address x b = record b { addresses = b.addresses ++ (x.address ∷ []) }

abbrev pub add_time : Item → Buffer → Buffer
add_time x b = record b { times = b.times ++ (x.time ∷ []) }

-- The case Queue of `Run`, under the buffer's mutex.
unfoldable pub push_queue : Item → Buffer → Buffer
push_queue x b = add_time x (add_address x (add_message x b))

-- The case Stack, with the bound `MaxStackBuffSize`.
unfoldable pub push_stack : ℕ → Item → Buffer → Buffer
push_stack max x b =
    let messages = x.message ∷ b.messages in
    let addresses = x.address ∷ b.addresses in
    let times = x.time ∷ b.times in
    if ltb max (length messages)
    then record {
      messages = pop_back messages;
      addresses = pop_back addresses;
      times = pop_back times;
    }
    else record { messages = messages; addresses = addresses; times = times }

-- The test of the inner loop of `ThreadListHandler`, which takes no mutex.
pub is_empty : Buffer → Bool
is_empty b = elim b.messages [ [] ↦ true | m ∷ ms ↦ false ]

-- The three calls of `front()` after the test, without the mutex; `none` where one of the lists is empty, so
-- that its `front()` is undefined.
pub front_of : List Bytes → List Bytes → List ℕ → Option Item
front_of (m ∷ ms) (a ∷ as') (t ∷ ts) = some (record { message = m; address = a; time = t })
front_of ms as' ts = none

unfoldable pub peek : Buffer → Option Item
unfolding front_of
peek b = front_of b.messages b.addresses b.times

-- What it does under the mutex, after the call of the user's handler for a queue, before it for a stack.
unfoldable pub pop : Buffer → Buffer
pop b = record {
  messages = pop_front b.messages;
  addresses = pop_front b.addresses;
  times = pop_front b.times;
}

-- The search for the shortest buffer: `best` is IndexMinQueue and `size` its size.
least_loop : ℕ → ℕ → ℕ → List ℕ → ℕ
least_loop i best size [] = best
least_loop i best size (n ∷ ns) =
    let better = ltb n size in
    least_loop (i + 1) (if better then i else best) (if better then n else size) ns

unfoldable pub index_min_queue : List ℕ → ℕ
unfolding least_loop
index_min_queue [] = 0
index_min_queue (n ∷ ns) = least_loop 1 0 n ns

push : BufferType → ℕ → Item → Buffer → Buffer
push queue max x b = push_queue x b
push stack max x b = push_stack max x b

-- The change of one buffer in the array.
module _ {A : Type 0} where
  unfoldable pub change : ℕ → (A → A) → List A → List A
  change i f [] = []
  change zero f (x ∷ xs) = f x ∷ xs
  change (suc i) f (x ∷ xs) = x ∷ change i f xs

-- One round of the loop in `Run` after a message came; `wanted` is what InstantClientMessageHandler says.
unfoldable pub on_message : BufferType → ℕ → Bool → Item → List Buffer → List Buffer
unfolding push
on_message kind max wanted x buffers =
    if wanted
    then change (index_min_queue (map (λ b. length b.messages) buffers)) (push kind max x) buffers
    else buffers
