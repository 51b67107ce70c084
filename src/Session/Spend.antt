-- ===== src/Session/Spend.antt =====
-- `spend_one`, the compare-exchange loop on a session's atomic quota counter, run by any number of
-- threads in any order: src/session.rs. A step of a thread is one atomic access.
use sui_x402_verifier.Base.{
  ℕ, zero, suc, min, ◌+◌, ◌-◌, ◌≤◌, ◌≡◌, refl, Bool, false, not, ◌&&◌, Option, none, some, List, [],
  ◌∷◌, length, ◌==◌, if◌then◌else◌, All, arith, ap, ◌∙◌, ◌⊎◌, inl, inr, Bool-cases,
}
use sui_x402_verifier.Session.Memory.{spend_one}

-- Where a thread stands: before its load, about to exchange with the value that it holds, or done.
pub data Pc : Type 0 where
  loads : Pc
  exchanges : ℕ → Pc
  done : Option ℕ → Pc

-- One access. `spurious` tells whether a weak exchange fails although the counter holds the value.
unfoldable pub thread_step : ℕ → Bool → Pc → ℕ × Pc
thread_step counter spurious loads = (counter, exchanges counter)
thread_step counter spurious (exchanges zero) = (counter, done none)
thread_step counter spurious (exchanges (suc n)) =
    if (counter == suc n) && not spurious then (n, done (some n)) else (counter, exchanges counter)
thread_step counter spurious (done r) = (counter, done r)

-- A step of the thread at an index, if there is one.
unfoldable pub step_at : ℕ → Bool → ℕ → List Pc → ℕ × List Pc
unfolding thread_step
step_at i spurious counter [] = (counter, [])
step_at zero spurious counter (p ∷ ps) =
    let (counter', p') = thread_step counter spurious p in (counter', p' ∷ ps)
step_at (suc i) spurious counter (p ∷ ps) =
    let (counter', ps') = step_at i spurious counter ps in (counter', p ∷ ps')

-- A schedule names the thread of each step and whether its exchange fails spuriously.
unfoldable pub run : List (ℕ × Bool) → ℕ → List Pc → ℕ × List Pc
unfolding step_at
run [] counter ps = (counter, ps)
run ((i, spurious) ∷ sched) counter ps =
    let (counter', ps') = step_at i spurious counter ps in run sched counter' ps'

-- How many threads have been granted a request.
unfoldable pub granted : List Pc → ℕ
granted [] = 0
granted (done (some n) ∷ ps) = suc (granted ps)
granted (done none ∷ ps) = granted ps
granted (loads ∷ ps) = granted ps
granted (exchanges n ∷ ps) = granted ps

-- What a thread knows of the counter, which never rises.
abbrev Fits : ℕ → Pc → Type 0
Fits counter loads = Unit {0}
Fits counter (exchanges n) = counter ≤ n
Fits counter (done none) = counter ≡ 0
Fits counter (done (some n)) = counter ≤ n

Fits-mono : (c d : ℕ) (ps : List Pc) → c ≤ d → All (Fits d) ps → All (Fits c) ps
Fits-mono c d [] h f = tt
Fits-mono c d (loads ∷ ps) h f = (tt, Fits-mono c d ps h f.1)
Fits-mono c d (exchanges n ∷ ps) h f = (omega arith, Fits-mono c d ps h f.1)
Fits-mono c d (done none ∷ ps) h f = (omega arith, Fits-mono c d ps h f.1)
Fits-mono c d (done (some n) ∷ ps) h f = (omega arith, Fits-mono c d ps h f.1)

record StepLaws (counter : ℕ) (ps : List Pc) (r : ℕ × List Pc) : Type 0 where
  balance : r.0 + granted r.1 ≡ counter + granted ps
  falls : r.0 ≤ counter
  fits : All (Fits r.0) r.1
  size : length r.1 ≡ length ps

-- A thread ahead of those that moved keeps its grant.
grows :
    (c c' : ℕ) (p : Pc) (ps qs : List Pc)
    → c' + granted qs ≡ c + granted ps
    → c' + granted (p ∷ qs) ≡ c + granted (p ∷ ps)
unfolding granted
grows c c' loads ps qs h = h
grows c c' (exchanges n) ps qs h = h
grows c c' (done none) ps qs h = h
grows c c' (done (some n)) ps qs h = omega arith

step_at-StepLaws :
    (i : ℕ) (sp : Bool) (counter : ℕ) (ps : List Pc)
    → All (Fits counter) ps
    → StepLaws counter ps (step_at i sp counter ps)
unfolding step_at granted
step_at-StepLaws i sp counter [] f = record {
  balance = refl;
  falls = omega arith;
  fits = tt;
  size = refl;
}
step_at-StepLaws zero sp counter (loads ∷ ps) f = ground arith
step_at-StepLaws zero sp counter (exchanges zero ∷ ps) f = ground arith
step_at-StepLaws zero sp counter (exchanges (suc n) ∷ ps) f =
    elim (Bool-cases ((counter == suc n) && not sp)) [
      | inl won ↦
          let e : counter ≡ suc n = ground arith in
          rw won (record {
            balance = omega arith;
            falls = omega arith;
            fits = (omega arith, Fits-mono n counter ps (omega arith) f.1);
            size = refl;
          })
      | inr lost ↦
          rw lost
            (record { balance = refl; falls = omega arith; fits = (omega arith, f.1); size = refl })
    ]
step_at-StepLaws zero sp counter (done none ∷ ps) f = ground arith
step_at-StepLaws zero sp counter (done (some n) ∷ ps) f = ground arith
step_at-StepLaws (suc i) sp counter (p ∷ ps) f =
    let ih = step_at-StepLaws i sp counter ps f.1 in
    record {
      balance =
          grows counter (step_at i sp counter ps).0 p ps (step_at i sp counter ps).1 ih.balance;
      falls = ih.falls;
      fits = ((Fits-mono _ counter (p ∷ []) ih.falls (f.0, tt)).0, ih.fits);
      size = ap suc ih.size;
    }

run-StepLaws :
    (sched : List (ℕ × Bool)) (counter : ℕ) (ps : List Pc)
    → All (Fits counter) ps
    → StepLaws counter ps (run sched counter ps)
unfolding run
run-StepLaws [] counter ps f = record { balance = refl; falls = omega arith; fits = f; size = refl }
run-StepLaws ((i, sp) ∷ sched) counter ps f =
    let one = step_at-StepLaws i sp counter ps f in
    let rest =
      run-StepLaws sched (step_at i sp counter ps).0 (step_at i sp counter ps).1 one.fits in
    record {
      balance = rest.balance ∙ one.balance;
      falls = omega (arith, one.falls, rest.falls);
      fits = rest.fits;
      size = rest.size ∙ one.size;
    }

-- `n` threads that are about to spend.
unfoldable pub starting : ℕ → List Pc
starting zero = []
starting (suc n) = loads ∷ starting n

starting-Fits : (c n : ℕ) → All (Fits c) (starting n)
unfolding starting
starting-Fits c zero = tt
starting-Fits c (suc n) = (tt, starting-Fits c n)

granted-starting : (n : ℕ) → granted (starting n) ≡ 0
unfolding starting granted
granted-starting zero = refl
granted-starting (suc n) = granted-starting n

length-starting : (n : ℕ) → length (starting n) ≡ n
unfolding starting
length-starting zero = refl
length-starting (suc n) = ap suc (length-starting n)

-- However the threads interleave, and whichever exchanges fail, every request that was granted has
-- been taken off the counter, and none else: what is left and what was granted add up to the quota.
pub run-granted :
    (sched : List (ℕ × Bool)) (quota n : ℕ)
    → (run sched quota (starting n)).0 + granted (run sched quota (starting n)).1 ≡ quota
run-granted sched quota n = omega (
  arith,
  (run-StepLaws sched quota (starting n) (starting-Fits quota n)).balance,
  granted-starting n,
)

abbrev pub IsDone : Pc → Type 0
IsDone loads = ⊥
IsDone (exchanges n) = ⊥
IsDone (done r) = Unit {0}

granted-All :
    (c : ℕ) (ps : List Pc) → All IsDone ps → All (Fits c) ps → (c ≡ 0) ⊎ (granted ps ≡ length ps)
unfolding granted
granted-All c [] d f = inr refl
granted-All c (loads ∷ ps) d f = absurd d.0
granted-All c (exchanges n ∷ ps) d f = absurd d.0
granted-All c (done none ∷ ps) d f = inl f.0
granted-All c (done (some n) ∷ ps) d f = elim (granted-All c ps d.1 f.1) [
  | inl e ↦ inl e
  | inr e ↦ inr (ap suc e)
]

granted-le : (ps : List Pc) → granted ps ≤ length ps
unfolding granted
granted-le [] = omega arith
granted-le (loads ∷ ps) = omega (arith, granted-le ps)
granted-le (exchanges n ∷ ps) = omega (arith, granted-le ps)
granted-le (done none ∷ ps) = omega (arith, granted-le ps)
granted-le (done (some n) ∷ ps) = omega (arith, granted-le ps)

-- When all of `n` concurrent requests have been answered, exactly `min n quota` of them were
-- granted: neither too many, nor is a request refused while quota is left.
pub run-IsDone :
    (sched : List (ℕ × Bool)) (quota n : ℕ)
    → All IsDone (run sched quota (starting n)).1
    → granted (run sched quota (starting n)).1 ≡ min n quota
run-IsDone sched quota n d =
    let laws = run-StepLaws sched quota (starting n) (starting-Fits quota n) in
    omega (
      arith,
      run-granted sched quota n,
      granted-All _ (run sched quota (starting n)).1 d laws.fits,
      granted-le (run sched quota (starting n)).1,
      laws.size,
      length-starting n,
    )

-- A thread that nobody disturbs ends after two steps, and computes `spend_one`.
pub run-spend_one :
    (counter : ℕ)
    → run ((0, false) ∷ (0, false) ∷ []) counter (loads ∷ [])
      ≡ (counter - 1, done (spend_one counter) ∷ [])
unfolding run spend_one
run-spend_one zero = ground arith
run-spend_one (suc n) = ground arith
