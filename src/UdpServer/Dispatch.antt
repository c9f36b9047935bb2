-- ===== src/UdpServer/Dispatch.antt =====
-- The choice of a handler thread for a message.
use easy_network.Base.{
  ℕ, ◌+◌, ◌≤◌, ◌≡◌, refl, sym, ap, subst, ◌∙◌, some, List, [], ◌∷◌, ◌++◌, arith, append_assoc,
  append-nil, length, length-append, get_elem?, ltb, All, Bool-cases, inl, inr,
}
use easy_network.UdpServer.{index_min_queue, least_loop}

-- The element at `i` is `n`, and no element is less.
abbrev pub IsLeast : List ℕ → ℕ → Type 0
IsLeast sizes i = (n : ℕ) × (get_elem? sizes i ≡ some n) × All (λ m. n ≤ m) sizes

All-weaken : (a b : ℕ) (ns : List ℕ) → a ≤ b → All (λ m. b ≤ m) ns → All (λ m. a ≤ m) ns
All-weaken a b [] h p = tt
All-weaken a b (n ∷ ns) h (q, p) = (omega arith, All-weaken a b ns h p)

All-snoc : (a n : ℕ) (ns : List ℕ) → a ≤ n → All (λ m. a ≤ m) ns → All (λ m. a ≤ m) (ns ++ (n ∷ []))
All-snoc a n [] h p = (h, tt)
All-snoc a n (m ∷ ns) h (q, p) = (q, All-snoc a n ns h p)

get-snoc :
    (front : List ℕ) (n : ℕ) (ns : List ℕ) → get_elem? (front ++ (n ∷ ns)) (length front) ≡ some n
get-snoc [] n ns = refl
get-snoc (m ∷ front) n ns = get-snoc front n ns

-- `best` is the place of the least size so far, `front` what has been looked at.
least_loop-IsLeast :
    (ns front whole : List ℕ) (i best size : ℕ)
    → i ≡ length front
    → whole ≡ front ++ ns
    → get_elem? whole best ≡ some size
    → All (λ m. size ≤ m) front
    → IsLeast whole (least_loop i best size ns)
unfolding least_loop
least_loop-IsLeast [] front whole i best size at e found least =
    (size, found, subst (All (λ m. size ≤ m)) (sym (e ∙ append-nil front)) least)
least_loop-IsLeast (n ∷ ns) front whole i best size at e found least =
    let e' : whole ≡ (front ++ (n ∷ [])) ++ ns = e ∙ sym (append_assoc front (n ∷ []) ns) in
    let at' : i + 1 ≡ length (front ++ (n ∷ [])) =
      omega (arith, at, length-append front (n ∷ [])) in
    elim (Bool-cases (ltb n size)) [
      | inl better ↦ rw better (
          least_loop-IsLeast ns (front ++ (n ∷ [])) whole (i + 1) i n at' e'
            (ap (get_elem? whole) at
              ∙ ap (λ (t : List ℕ). get_elem? t (length front)) e
              ∙ get-snoc front n ns)
            (All-snoc n n front (omega arith) (All-weaken n size front (ground arith) least)))
      | inr not_better ↦ rw not_better (
          least_loop-IsLeast ns (front ++ (n ∷ [])) whole (i + 1) best size at' e' found
            (All-snoc size n front (ground arith) least))
    ]

-- The thread that `Run` chooses for a message is one of the threads, and none has a shorter buffer.
pub index_min_queue-IsLeast : (n : ℕ) (ns : List ℕ) → IsLeast (n ∷ ns) (index_min_queue (n ∷ ns))
unfolding index_min_queue
index_min_queue-IsLeast n ns =
    least_loop-IsLeast ns (n ∷ []) (n ∷ ns) 1 0 n refl refl refl (omega arith)
