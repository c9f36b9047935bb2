-- ===== src/Threads/Rule.antt =====
-- The rule for invariants: what every statement and every notification keeps holds in every state that
-- can be reached.
use easy_network.Base.{◌≡◌, some, List, ◌∷◌, ◌++◌, map}
use easy_network.Threads.{System, Step, runs, notifies, Reach, here, next}

module _ (y : System) (Holds : y.Shared → List y.Point → Type 0)
    (keeps : (sh sh' : y.Shared) (x x' : y.Point) (front back : List y.Point)
      → y.advance x sh ≡ some (x', sh')
      → Holds sh (front ++ (x ∷ back))
      → Holds sh' (front ++ (x' ∷ back)))
    (survives : (sh : y.Shared) (x x' : y.Point) (front back : List y.Point)
      → y.rings x sh ≡ some x'
      → Holds sh (front ++ (x ∷ back))
      → Holds sh (map y.wake (front ++ (x' ∷ back)))) where
  Step-keeps :
      {sh sh' : y.Shared} {ts ts' : List y.Point}
      → Step y sh ts sh' ts'
      → Holds sh ts
      → Holds sh' ts'
  Step-keeps (runs sh sh' x x' front back e) h = keeps sh sh' x x' front back e h
  Step-keeps (notifies sh x x' front back e) h = survives sh x x' front back e h

  pub Reach-keeps :
      {sh₀ : y.Shared} {ts₀ : List y.Point} {sh : y.Shared} {ts : List y.Point}
      → Holds sh₀ ts₀
      → Reach y sh₀ ts₀ sh ts
      → Holds sh ts
  Reach-keeps h here = h
  Reach-keeps h (next r s) = Step-keeps s (Reach-keeps h r)
