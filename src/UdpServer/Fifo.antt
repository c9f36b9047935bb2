-- ===== src/UdpServer/Fifo.antt =====
-- One buffer of type Queue between the receiving thread and its handler thread.
use easy_network.Base.{◌≡◌, false, none, some, List, [], ◌∷◌, ◌++◌}
use easy_network.UdpServer.{Buffer, Item, add_message, add_address, add_time, is_empty, peek, pop}
use easy_network.UdpServer.Contents.{buffer_of, head?}

-- Where the handler thread stands: at the test of `empty()`, after it, before the user's handler, after that,
-- and after a `front()` of an empty list.
pub data Phase : Type 0 where
  at_test : Phase
  reading : Phase
  holding : Item → Phase
  removing : Phase
  undefined : Phase

-- Where `Run` stands: the mutex is free, or it has it and has added a message, or an address too.
pub data Writer : Type 0 where
  idle : Writer
  added_message : Item → Writer
  added_address : Item → Writer

-- `arrived` and `handled` are all items that were put into the buffer, and all for which the user's
-- handler was called, in their order.
pub record Channel : Type 0 where
  pub buffer : Buffer
  pub writer : Writer
  pub phase : Phase
  pub arrived : List Item
  pub handled : List Item

-- One statement of either thread. `Run` has the mutex while it adds an item, and the handler thread takes it
-- for the removal only. The three fronts are read at the moment at which the time is read, which is added
-- last.
pub data Step : Channel → Channel → Type 0 where
  adds_message :
      (c : Channel) (x : Item)
      → c.writer ≡ idle
      → Step c (record c { buffer = add_message x c.buffer; writer = added_message x })
  adds_address :
      (c : Channel) (x : Item)
      → c.writer ≡ added_message x
      → Step c (record c { buffer = add_address x c.buffer; writer = added_address x })
  adds_time :
      (c : Channel) (x : Item)
      → c.writer ≡ added_address x
      → Step c (record c {
        buffer = add_time x c.buffer;
        writer = idle;
        arrived = c.arrived ++ (x ∷ []);
      })
  tests :
      (c : Channel)
      → c.phase ≡ at_test
      → is_empty c.buffer ≡ false
      → Step c (record c { phase = reading })
  reads :
      (c : Channel) (x : Item)
      → c.phase ≡ reading
      → peek c.buffer ≡ some x
      → Step c (record c { phase = holding x })
  breaks :
      (c : Channel)
      → c.phase ≡ reading
      → peek c.buffer ≡ none
      → Step c (record c { phase = undefined })
  handles :
      (c : Channel) (x : Item)
      → c.phase ≡ holding x
      → Step c (record c { phase = removing; handled = c.handled ++ (x ∷ []) })
  removes :
      (c : Channel)
      → c.phase ≡ removing
      → c.writer ≡ idle
      → Step c (record c { phase = at_test; buffer = pop c.buffer })

abbrev pub new_channel : Channel
new_channel = record {
  buffer = buffer_of [];
  writer = idle;
  phase = at_test;
  arrived = [];
  handled = [];
}

pub data Reach : Channel → Type 0 where
  here : Reach new_channel
  next : {c d : Channel} → Reach c → Step c d → Reach d

-- The buffer of these items with what `Run` has added of another one.
abbrev partly : Writer → List Item → Buffer
partly idle xs = buffer_of xs
partly (added_message x) xs = add_message x (buffer_of xs)
partly (added_address x) xs = add_address x (add_message x (buffer_of xs))

-- The items of the buffer, without the one whose handling is over.
abbrev Waiting : Phase → List Item → List Item → Type 0
Waiting at_test xs rest = xs ≡ rest
Waiting reading xs rest = xs ≡ rest
Waiting (holding x) xs rest = (xs ≡ rest) × (head? rest ≡ some x)
Waiting removing xs rest = (x : Item) × (xs ≡ x ∷ rest)
Waiting undefined xs rest = xs ≡ rest

-- `rest` is still to be handled.
record IsFifo (c : Channel) : Type 0 where
  xs : List Item
  rest : List Item
  stands : c.buffer ≡ partly c.writer xs
  waits : Waiting c.phase xs rest
  order : c.handled ++ rest ≡ c.arrived
