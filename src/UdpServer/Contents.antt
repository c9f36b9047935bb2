-- ===== src/UdpServer/Contents.antt =====
-- The three lists of a buffer stand for one list of items, and the code's operations for operations on it.
use easy_network.Base.{
  ℕ, suc, ◌≤◌, ◌≡◌, refl, ap, ◌∙◌, Option, none, some, List, [], ◌∷◌, ◌++◌, map, arith, length,
  take, ltb, Bool-cases, inl, inr, take_all, length-take,
}
use easy_network.UdpServer.{Buffer, Item, push_queue, push_stack, peek, pop, pop_back, pop_front}

abbrev pub buffer_of : List Item → Buffer
buffer_of xs = record {
  messages = map (λ (x : Item). x.message) xs;
  addresses = map (λ (x : Item). x.address) xs;
  times = map (λ (x : Item). x.time) xs;
}

map_snoc :
    {A B : Type 0} (f : A → B) (xs : List A) (x : A)
    → map f xs ++ (f x ∷ []) ≡ map f (xs ++ (x ∷ []))
map_snoc f [] x = refl
map_snoc f (y ∷ xs) x = ap (λ (t : List _). f y ∷ t) (map_snoc f xs x)

pop_back-map : {A B : Type 0} (f : A → B) (xs : List A) → pop_back (map f xs) ≡ map f (pop_back xs)
unfolding pop_back
pop_back-map f [] = refl
pop_back-map f (x ∷ []) = refl
pop_back-map f (x ∷ y ∷ xs) = ap (λ (t : List _). f x ∷ t) (pop_back-map f (y ∷ xs))

pop_front-map :
    {A B : Type 0} (f : A → B) (xs : List A) → pop_front (map f xs) ≡ map f (pop_front xs)
unfolding pop_front
pop_front-map f [] = refl
pop_front-map f (x ∷ xs) = refl

length-map : {A B : Type 0} (f : A → B) (xs : List A) → length (map f xs) ≡ length xs
length-map f [] = refl
length-map f (x ∷ xs) = ap suc (length-map f xs)

pop_back-take : {A : Type 0} (x : A) (xs : List A) → pop_back (x ∷ xs) ≡ take (length xs) (x ∷ xs)
unfolding pop_back
pop_back-take x [] = refl
pop_back-take x (y ∷ xs) = ap (λ (t : List _). x ∷ t) (pop_back-take y xs)

-- The first element.
abbrev pub head? : List Item → Option Item
head? [] = none
head? (x ∷ xs) = some x

pub push_queue_of :
    (x : Item) (xs : List Item) → push_queue x (buffer_of xs) ≡ buffer_of (xs ++ (x ∷ []))
unfolding push_queue
push_queue_of x xs = rw (
  map_snoc (λ (y : Item). y.message) xs x,
  map_snoc (λ (y : Item). y.address) xs x,
  map_snoc (λ (y : Item). y.time) xs x,
)

pub peek_of : (xs : List Item) → peek (buffer_of xs) ≡ head? xs
unfolding peek
peek_of [] = refl
peek_of (x ∷ xs) = refl

pub pop_of : (xs : List Item) → pop (buffer_of xs) ≡ buffer_of (pop_front xs)
unfolding pop
pop_of xs = rw (
  pop_front-map (λ (y : Item). y.message) xs,
  pop_front-map (λ (y : Item). y.address) xs,
  pop_front-map (λ (y : Item). y.time) xs,
)

pub push_stack_of :
    (max : ℕ) (x : Item) (xs : List Item)
    → length xs ≤ max
    → push_stack max x (buffer_of xs) ≡ buffer_of (take max (x ∷ xs))
unfolding push_stack
push_stack_of max x xs h = elim (Bool-cases (ltb max (length (x ∷ xs)))) [
  | inl full ↦
      let n : length xs ≡ max = ground arith in
      let cut : pop_back (x ∷ xs) ≡ take max (x ∷ xs) =
        pop_back-take x xs ∙ ap (λ (k : ℕ). take k (x ∷ xs)) n in
      rw (
        length-map (λ (y : Item). y.message) xs,
        full,
        pop_back-map (λ (y : Item). y.message) (x ∷ xs),
        pop_back-map (λ (y : Item). y.address) (x ∷ xs),
        pop_back-map (λ (y : Item). y.time) (x ∷ xs),
        cut,
      )
  | inr room ↦
      let whole : take max (x ∷ xs) ≡ x ∷ xs = take_all max (x ∷ xs) (ground arith) in
      rw (length-map (λ (y : Item). y.message) xs, room, whole)
]

-- The buffer of one thread refines a list of items: where its three lists are those of `xs`, a new item
-- goes to the end of a queue and to the front of a stack, of which the oldest item goes when it is full;
-- the item that is read is the first, and removing it leaves the others. The three lists stay those of
-- one list of items throughout, and a stack of at most `max` items stays so.
pub buffer_refines :
    (max : ℕ) (x : Item) (xs : List Item)
    → length xs ≤ max
    → (push_queue x (buffer_of xs) ≡ buffer_of (xs ++ (x ∷ [])))
      × (push_stack max x (buffer_of xs) ≡ buffer_of (take max (x ∷ xs)))
      × (length (take max (x ∷ xs)) ≤ max)
      × (peek (buffer_of xs) ≡ head? xs)
      × (pop (buffer_of xs) ≡ buffer_of (pop_front xs))
buffer_refines max x xs h = (
  push_queue_of x xs,
  push_stack_of max x xs h,
  omega (arith, length-take max (x ∷ xs)),
  peek_of xs,
  pop_of xs,
)
