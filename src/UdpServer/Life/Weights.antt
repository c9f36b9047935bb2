-- ===== src/UdpServer/Life/Weights.antt =====
-- Sums over the messages in the buffers, for any weight of a message.
use easy_network.Base.{
  ℕ, zero, suc, ◌+◌, ◌≤◌, ◌≡◌, refl, ap, Bool, true, false, Option, none, some, List, [], ◌∷◌, ◌++◌,
  map, arith, Bytes, length, get_elem?,
}
use easy_network.UdpServer.{
  BufferType, queue, Buffer, Item, push_queue, pop_front, front_of, peek, pop, change,
  index_min_queue, on_message,
}
use easy_network.UdpServer.Dispatch.{index_min_queue-IsLeast}
use easy_network.UdpServer.Life.{item_at}

-- The sum of the weights of messages.
abbrev pub weigh : (Bytes → ℕ) → List Bytes → ℕ
weigh f [] = 0
weigh f (m ∷ ms) = f m + weigh f ms

pub weigh-append :
    (f : Bytes → ℕ) (ms ns : List Bytes) → weigh f (ms ++ ns) ≡ weigh f ms + weigh f ns
weigh-append f [] ns = omega arith
weigh-append f (m ∷ ms) ns = omega (arith, weigh-append f ms ns)

abbrev size : Buffer → ℕ
size b = length b.messages

-- The weight of the messages in all buffers.
abbrev pub total : (Bytes → ℕ) → List Buffer → ℕ
total f [] = 0
total f (b ∷ bs) = weigh f b.messages + total f bs

change-total :
    (f : Bytes → ℕ) (x : Item) (bs : List Buffer) (i n : ℕ)
    → get_elem? (map size bs) i ≡ some n
    → total f (change i (push_queue x) bs) ≡ total f bs + f x.message
unfolding change push_queue
change-total f x [] i n e = cc
change-total f x (b ∷ bs) zero n e = omega (arith, weigh-append f b.messages (x.message ∷ []))
change-total f x (b ∷ bs) (suc i) n e = omega (arith, change-total f x bs i n e)

pub change-length :
    (g : Buffer → Buffer) (bs : List Buffer) (i : ℕ) → length (change i g bs) ≡ length bs
unfolding change
change-length g [] i = refl
change-length g (b ∷ bs) zero = refl
change-length g (b ∷ bs) (suc i) = ap suc (change-length g bs i)

-- The messages that the user wants.
abbrev pub message_if : Bool → Bytes → List Bytes
message_if true m = m ∷ []
message_if false m = []

pub on_message-total :
    (max : ℕ) (wanted : Bool) (x : Item) (bs : List Buffer)
    → 1 ≤ length bs
    → ((f : Bytes → ℕ)
        → total f (on_message queue max wanted x bs)
          ≡ total f bs + weigh f (message_if wanted x.message))
      × (length (on_message queue max wanted x bs) ≡ length bs)
unfolding on_message easy_network.UdpServer.push
on_message-total max false x bs some_thread = (λ f. omega arith, refl)
on_message-total max true x [] some_thread = absurd (omega arith)
on_message-total max true x (b ∷ bs) some_thread =
    let (n, at, least) = index_min_queue-IsLeast (size b) (map size bs) in
    (λ f. omega (arith, change-total f x (b ∷ bs) _ n at), change-length (push_queue x) (b ∷ bs) _)

-- The message that a handler thread reads is the one that it removes.
front-weight :
    (f : Bytes → ℕ) (ms as' : List Bytes) (ts : List ℕ) (x : Item)
    → front_of ms as' ts ≡ some x
    → weigh f (pop_front ms) + f x.message ≡ weigh f ms
unfolding front_of pop_front
front-weight f [] as' ts x e = cc
front-weight f (m ∷ ms) [] ts x e = cc
front-weight f (m ∷ ms) (a ∷ as') [] x e = cc
front-weight f (m ∷ ms) (a ∷ as') (t ∷ ts) x e =
    let same : f m ≡ f x.message =
      ap (λ (o : Option Item). elim o [ none ↦ 0 | some y ↦ f y.message ]) e in
    omega (arith, same)

pub item_at-total :
    (f : Bytes → ℕ) (i : ℕ) (bs : List Buffer) (x : Item)
    → item_at i bs ≡ some x
    → total f (change i pop bs) + f x.message ≡ total f bs
unfolding item_at change pop peek
item_at-total f i [] x e = cc
item_at-total f zero (b ∷ bs) x e = omega (arith, front-weight f b.messages b.addresses b.times x e)
item_at-total f (suc i) (b ∷ bs) x e = omega (arith, item_at-total f i bs x e)
