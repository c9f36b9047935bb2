-- ===== src/Gate/Wakes.antt =====
-- What the gate promises: no message and no end of the server is slept through.
use easy_network.Base.{
  bit, ℕ, ◌+◌, ◌≤◌, ◌<◌, ◌≡◌, ◌⊎◌, inl, inr, refl, sym, ap, subst, Bool, true, false, some, List,
  [], ◌∷◌, ◌++◌, map, arith, Bool-cases, if◌then◌else◌,
}
use easy_network.Threads.{Reach}
use easy_network.Threads.Tally.{
  tally, tally_middle, tally_le, tally_same, tally_sum, tally_wake, tally_find,
}
use easy_network.Threads.Rule.{Reach-keeps}
use easy_network.Gate.{
  Point, receive, shut_down, shut, open_lock, try_cond_var, deactivate, open_release, ring,
  open_unlock, Shared, advance, rings, wake, gate, new_shared, openers, new_threads,
}
use easy_network.Gate.Weights.{
  open_holds, close_holds, cond_holds, tested, closing, sleepy, inside, asleep, pending, rung,
  handler, weights, wake_weights,
}
use easy_network.Gate.Keeps.{
  Totals, with_thread, work, Agrees, AgreesAfter, Related, advance-Agrees,
}

abbrev totals : List Point → Totals
totals ts = record {
  opening = tally open_holds ts;
  shutting = tally close_holds ts;
  cond = tally cond_holds ts;
  checked = tally tested ts;
  near = tally closing ts;
  drowsy = tally sleepy ts;
  within = tally inside ts;
  due = tally pending ts;
  ringing = tally rung ts;
  handlers = tally handler ts;
}

totals_middle :
    (xs ys : List Point) (x : Point) → totals (xs ++ (x ∷ ys)) ≡ with_thread (totals (xs ++ ys)) x
totals_middle xs ys x =
    rw
      (
        tally_middle open_holds xs ys x,
        tally_middle close_holds xs ys x,
        tally_middle cond_holds xs ys x,
        tally_middle tested xs ys x,
        tally_middle closing xs ys x,
        tally_middle sleepy xs ys x,
        tally_middle inside xs ys x,
        tally_middle pending xs ys x,
        tally_middle rung xs ys x,
        tally_middle handler xs ys x,
      )
      refl

totals-Related : (ts : List Point) → Related (totals ts)
totals-Related ts = (
  omega (
    arith,
    tally_le sleepy (λ x. close_holds x + cond_holds x) ts (λ x. (weights x).0),
    tally_sum close_holds cond_holds ts,
  ),
  omega (
    arith,
    tally_le cond_holds (λ x. open_holds x + close_holds x + inside x) ts (λ x. (weights x).1),
    tally_sum open_holds close_holds ts,
    tally_sum (λ x. open_holds x + close_holds x) inside ts,
  ),
  omega (
    arith,
    tally_le (λ x. inside x + closing x + tested x) handler ts (λ x. (weights x).2),
    tally_sum inside closing ts,
    tally_sum (λ x. inside x + closing x) tested ts,
  ),
  tally_le rung open_holds ts (λ x. (weights x).5),
)

keeps :
    (sh sh' : Shared) (x x' : Point) (xs ys : List Point)
    → advance x sh ≡ some (x', sh')
    → Agrees (totals (xs ++ (x ∷ ys))) sh
    → Agrees (totals (xs ++ (x' ∷ ys))) sh'
keeps sh sh' x x' xs ys e h =
    let others = totals (xs ++ ys) in
    let after =
      advance-Agrees others x sh (totals-Related (xs ++ ys))
        (subst (λ t. Agrees t sh) (totals_middle xs ys x) h) in
    subst (λ t. Agrees t sh') (sym (totals_middle xs ys x')) (subst (AgreesAfter others) e after)

ring_same : (x x' : Point) (sh : Shared) → rings x sh ≡ some x' → x ≡ x'
unfolding rings
ring_same (ring again) x' sh e = ground arith
ring_same x x' sh e = cc

after_wake :
    (sh : Shared) (ts : List Point) → Agrees (totals ts) sh → Agrees (totals (map wake ts)) sh
after_wake sh ts h =
    let fewer = tally_wake sleepy wake ts (λ z. (wake_weights z).9) in
    rw
      (
        tally_same open_holds wake ts (λ z. (wake_weights z).0),
        tally_same close_holds wake ts (λ z. (wake_weights z).1),
        tally_same cond_holds wake ts (λ z. (wake_weights z).2),
        tally_same tested wake ts (λ z. (wake_weights z).3),
        tally_same closing wake ts (λ z. (wake_weights z).4),
        tally_same inside wake ts (λ z. (wake_weights z).5),
        tally_same pending wake ts (λ z. (wake_weights z).6),
        tally_same rung wake ts (λ z. (wake_weights z).7),
        tally_same handler wake ts (λ z. (wake_weights z).8),
      )
      (h.0, h.1, h.2, h.3, (λ p. h.4 (omega arith)), h.5, h.6)

survives :
    (sh : Shared) (x x' : Point) (xs ys : List Point)
    → rings x sh ≡ some x'
    → Agrees (totals (xs ++ (x ∷ ys))) sh
    → Agrees (totals (map wake (xs ++ (x' ∷ ys)))) sh
survives sh x x' xs ys e h =
    after_wake sh (xs ++ (x' ∷ ys))
      (subst (λ z. Agrees (totals (xs ++ (z ∷ ys))) sh) (ring_same x x' sh e) h)

openers_none :
    (f : Point → ℕ) (bs : List Bool) → f receive ≡ 0 → f shut_down ≡ 0 → tally f (openers bs) ≡ 0
unfolding tally
openers_none f [] p q = refl
openers_none f (true ∷ bs) p q = omega (arith, openers_none f bs p q)
openers_none f (false ∷ bs) p q = omega (arith, openers_none f bs p q)

start-Agrees : (bs : List Bool) → Agrees (totals (new_threads bs)) new_shared
unfolding tally
start-Agrees bs =
    rw
      (
        openers_none open_holds bs refl refl,
        openers_none close_holds bs refl refl,
        openers_none cond_holds bs refl refl,
        openers_none tested bs refl refl,
        openers_none closing bs refl refl,
        openers_none sleepy bs refl refl,
        openers_none inside bs refl refl,
        openers_none pending bs refl refl,
        openers_none rung bs refl refl,
        openers_none handler bs refl refl,
      )
      (ground arith)

Reach-Agrees :
    (bs : List Bool) (sh : Shared) (ts : List Point)
    → Reach gate new_shared (new_threads bs) sh ts
    → Agrees (totals ts) sh
Reach-Agrees bs sh ts r =
    Reach-keeps gate (λ s xs. Agrees (totals xs) s) keeps survives (start-Agrees bs) r

-- The thread is not blocked.
abbrev pub CanRun : Point → Shared → Type 0
CanRun x sh =
    ((x' : Point) × (sh' : Shared) × (advance x sh ≡ some (x', sh')))
    ⊎ ((x' : Point) × (rings x sh ≡ some x'))

ring-CanRun : (again : Bool) (sh : Shared) → CanRun (ring again) sh
unfolding advance rings
ring-CanRun again sh = elim (Bool-cases sh.cond_var_mutex) [
  | inl z ↦ inr (ring again, rw z refl)
  | inr z ↦ inl (open_release again, record sh { cond_var_mutex = true }, rw z refl)
]

open_holds-CanRun : (x : Point) (sh : Shared) → 1 ≤ open_holds x → CanRun x sh
unfolding advance
open_holds-CanRun (try_cond_var again) sh h = elim (Bool-cases sh.cond_var_mutex) [
  | inl z ↦ inl (ring again, sh, rw z refl)
  | inr z ↦ inl (deactivate again, record sh { cond_var_mutex = true }, rw z refl)
]
open_holds-CanRun (deactivate again) sh h =
    inl (open_release again, record sh { is_activated = false }, refl)
open_holds-CanRun (open_release again) sh h =
    inl (open_unlock again, record sh { cond_var_mutex = false }, refl)
open_holds-CanRun (ring again) sh h = ring-CanRun again sh
open_holds-CanRun (open_unlock again) sh h =
    inl (if again then receive else shut, record sh { mtx = false }, refl)
open_holds-CanRun x sh h = absurd (omega arith)

pending-CanRun : (x : Point) (sh : Shared) → 1 ≤ pending x → sh.mtx ≡ false → CanRun x sh
unfolding advance
pending-CanRun (open_lock again) sh h e =
    inl (try_cond_var again, record sh { mtx = true }, rw e refl)
pending-CanRun (try_cond_var again) sh h e = open_holds-CanRun (try_cond_var again) sh (omega arith)
pending-CanRun (deactivate again) sh h e = open_holds-CanRun (deactivate again) sh (omega arith)
pending-CanRun (ring again) sh h e = ring-CanRun again sh
pending-CanRun x sh h e = absurd (omega arith)

-- No message is slept through, for one handler thread and any numbers of threads that receive and that
-- shut down: in every state that they reach, if the handler sleeps in the gate, and there is a message in its
-- buffer or the server is shut down, then some thread is in `Open` and has yet to wake it, and some thread of
-- the gate that is in `Open` is not blocked. A wait ends by a notification only.
pub gate_wakes :
    (bs : List Bool) (sh : Shared) (ts : List Point)
    → Reach gate new_shared (new_threads bs) sh ts
    → 1 ≤ tally asleep ts
    → 0 < work sh
    → (1 ≤ tally pending ts)
      × ((xs : List Point) × (x : Point) × (ys : List Point) × (ts ≡ xs ++ (x ∷ ys))
          × (1 ≤ open_holds x + pending x)
          × CanRun x sh)
gate_wakes bs sh ts r sleeps some_work =
    let (mutex, cond, h₁, h₂, h₃, h₄, one) = Reach-Agrees bs sh ts r in
    let drowsy = tally_le asleep sleepy ts (λ x. (weights x).4) in
    let due : 1 ≤ tally pending ts = h₃ (omega arith) some_work in
    let away : tally close_holds ts ≡ 0 = omega (
      arith,
      tally_le (λ x. close_holds x + asleep x) handler ts (λ x. (weights x).3),
      tally_sum close_holds asleep ts,
    ) in
    (
      due,
      elim (Bool-cases sh.mtx) [
        | inl locked ↦
            let (xs, x, ys, e, p) =
              tally_find open_holds ts (omega (arith, mutex, ap bit locked)) in
            (xs, x, ys, e, omega arith, open_holds-CanRun x sh p)
        | inr free ↦
            let (xs, x, ys, e, p) = tally_find pending ts due in
            (xs, x, ys, e, omega arith, pending-CanRun x sh p free)
      ],
    )
