-- ===== src/Orchestrator/Waiting.antt =====
-- The loop at the start of dispatchToWorkers, which waits for a worker, and the rest of the call after
-- it, with the goroutine of the automatic stop.
use iicpc_summer_hackathon.Prelude.{
  ℕ, ◌+◌, ◌*◌, ◌-◌, ◌≤◌, ◌<◌, ◌≡◌, ◌⊎◌, inl, inr, refl, Bool, true, false, List, [], ◌∷◌, ◌++◌, All,
  ap, length, if◌then◌else◌, ltb, arith, Bool-cases,
}
use iicpc_summer_hackathon.Orchestrator.State.{Orchestrator}
use iicpc_summer_hackathon.Orchestrator.Sessions.{Dispatch, stop_session}

-- One turn of the loop: the clock when it asks, and how many workers there are then.
pub record Look : Type 0 where
  pub at : ℕ
  pub worker_count : ℕ

pub data Waited : Type 0 where
  waiting found timed_out : Waited

abbrev pub half_second : ℕ
half_second = 500000000

abbrev pub deadline_of : ℕ → ℕ
deadline_of start = start + 20 * half_second

-- The loop up to its end, or `waiting` where the looks do not lead there.
unfoldable pub wait_for_workers : ℕ → List Look → Waited
wait_for_workers deadline [] = waiting
wait_for_workers deadline (l ∷ looks) =
    let later = wait_for_workers deadline looks in
    if ltb l.at deadline then (if ltb 0 l.worker_count then found else later) else timed_out

-- Each look is half a second or more after the one before it.
abbrev pub IsPaced : ℕ → List Look → Type 0
IsPaced from [] = Unit
IsPaced from (l ∷ looks) = (from ≤ l.at) × IsPaced (l.at + half_second) looks

-- The goroutine that dispatchToWorkers leaves behind where it came to the sessions: the stop, at its time.
unfoldable pub auto_stop : {F : Type 0} → Bool → ℕ → Dispatch → Orchestrator F → Orchestrator F
unfolding stop_session
auto_stop false now d o = o
auto_stop true now d o = stop_session now d.session_id o

-- A look in time that sees a worker.
abbrev pub Seen : ℕ → List Look → Type 0
Seen deadline looks =
    (before : List Look) × (l : Look) × (after : List Look) × (looks ≡ before ++ l ∷ after)
    × (l.at < deadline)
    × (0 < l.worker_count)

-- No look in time sees one.
abbrev pub Unseen : ℕ → List Look → Type 0
Unseen deadline looks = All (λ l. (deadline ≤ l.at) ⊎ (l.worker_count ≡ 0)) looks

abbrev pub Ended : ℕ → List Look → Type 0
Ended deadline looks =
    ((wait_for_workers deadline looks ≡ found) × Seen deadline looks)
    ⊎ ((wait_for_workers deadline looks ≡ timed_out) × Unseen deadline looks)

late_looks :
    (deadline from : ℕ) (looks : List Look)
    → IsPaced from looks
    → deadline ≤ from
    → Unseen deadline looks
late_looks deadline from [] p h = tt
late_looks deadline from (l ∷ looks) p h = (
  inl (omega (arith, h, p.0)),
  late_looks deadline (l.at + half_second) looks p.1 (omega (arith, h, p.0)),
)

Ended-later :
    (deadline : ℕ) (l : Look) (looks : List Look)
    → ltb l.at deadline ≡ true
    → ltb 0 l.worker_count ≡ false
    → Ended deadline looks
    → Ended deadline (l ∷ looks)
unfolding wait_for_workers
Ended-later deadline l looks early alone (inl (e, (before, m, after, split, in_time, seen))) =
    inl (rw (early, alone) e, (l ∷ before, m, after, ap (λ xs. l ∷ xs) split, in_time, seen))
Ended-later deadline l looks early alone (inr (e, unseen)) =
    inr (rw (early, alone) e, (inr (ground (arith, alone)), unseen))

wait-Ended_from :
    (deadline from n : ℕ) (looks : List Look)
    → IsPaced from looks
    → n < length looks
    → deadline ≤ from + n * half_second
    → Ended deadline looks
unfolding wait_for_workers
wait-Ended_from deadline from n [] p h le = absurd (omega (arith, h))
wait-Ended_from deadline from n (l ∷ looks) p h le = elim (Bool-cases (ltb l.at deadline)) [
  | inr late ↦
      (let over : deadline ≤ l.at = ground (arith, late) in
        inr (
          rw late refl,
          (inl over, late_looks deadline (l.at + half_second) looks p.1 (omega (arith, over))),
        ))
  | inl early ↦
      (let in_time : l.at < deadline = ground (arith, early) in
        elim (Bool-cases (ltb 0 l.worker_count)) [
          | inl there ↦
              inl (rw (early, there) refl, ([], l, looks, refl, in_time, ground (arith, there)))
          | inr alone ↦ Ended-later deadline l looks early alone (
              wait-Ended_from deadline (l.at + half_second) (n - 1) looks p.1
                (omega (arith, h, le, p.0, in_time)) (omega (arith, le, p.0, in_time)))
        ])
]

-- The wait of dispatchToWorkers ends within 21 looks that are half a second or more apart: found, where
-- a look before the ten seconds are over sees a worker, or timed out, where none of those looks does.
pub wait_for_workers-Ended :
    (start : ℕ) (looks : List Look)
    → IsPaced start looks
    → 20 < length looks
    → Ended (deadline_of start) looks
wait_for_workers-Ended start looks p h =
    wait-Ended_from (deadline_of start) start 20 looks p h (omega arith)
