-- ===== src/Threads.antt =====
-- Threads that share memory: a state is what they share and the statement at which each of them stands,
-- and any thread that does not block may run its next statement. This is the setting of the models of
-- EN_ParallelFor.h and EN_ThreadBarrier.cpp.
pub mod Tally
pub mod Rule
use easy_network.Base.{Bool, true, false, Option, none, some, List, [], ◌∷◌, ◌++◌, map, ◌≡◌}

-- `advance` is one statement of a thread, `none` where it blocks; `rings` says where a thread calls
-- `notify_all` and where it goes on, and `wake` what that does to each thread. A wait ends by a notification only.
pub record System : Type 1 where
  pub Point : Type 0
  pub Shared : Type 0
  pub advance : Point → Shared → Option (Point × Shared)
  pub rings : Point → Shared → Option Point
  pub wake : Point → Point

pub data Step (y : System) : y.Shared → List y.Point → y.Shared → List y.Point → Type 0 where
  runs :
      (sh sh' : y.Shared) (x x' : y.Point) (front back : List y.Point)
      → y.advance x sh ≡ some (x', sh')
      → Step y sh (front ++ (x ∷ back)) sh' (front ++ (x' ∷ back))
  notifies :
      (sh : y.Shared) (x x' : y.Point) (front back : List y.Point)
      → y.rings x sh ≡ some x'
      → Step y sh (front ++ (x ∷ back)) sh (map y.wake (front ++ (x' ∷ back)))

-- The states that can be reached from one.
pub data Reach (y : System) (sh₀ : y.Shared) (ts₀ : List y.Point)
    : y.Shared → List y.Point → Type 0 where
  here : Reach y sh₀ ts₀ sh₀ ts₀
  next :
      {sh sh' : y.Shared} {ts ts' : List y.Point}
      → Reach y sh₀ ts₀ sh ts
      → Step y sh ts sh' ts'
      → Reach y sh₀ ts₀ sh' ts'
