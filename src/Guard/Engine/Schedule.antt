-- ===== src/Guard/Engine/Schedule.antt =====
-- The goroutines of `Engine.Run` and `wg.Wait`, as interleaved steps: each unfinished guard may
-- write its own slot of `results` at any time, and `Run` goes on when no slot is empty.
use sheeld.Prelude.{
  ℕ, zero, suc, ◌<◌, ◌≡◌, ◌≢◌, ◌⊎◌, inl, inr, refl, ap, List, [], ◌∷◌, map, arith, Str, Option,
  none, some, All, get_elem?, set, arith,
}
use sheeld.Guard.{GuardResult, Guard, CallMeta}
use sheeld.Guard.Engine.{conclude, run, run_guard, EvalConfig}

abbrev pub Slots : Type 0
Slots = List (Option GuardResult)

abbrev pub start : List Guard → Slots
start [] = []
start (g ∷ gs) = none ∷ start gs

abbrev pub Done : Slots → Type 0
Done s = All (λ o. o ≢ none) s

abbrev pub collect : Slots → List GuardResult
collect [] = []
collect (none ∷ s) = collect s
collect (some r ∷ s) = r ∷ collect s

module _ (ctx : Option CallMeta) (input : Str) where
  -- One goroutine finishes: guard `i` writes slot `i`.
  pub data Step (gs : List Guard) (s s' : Slots) : Type 0 where
    finish :
        (i : ℕ) (g : Guard)
        → get_elem? gs i ≡ some g
        → get_elem? s i ≡ some none
        → s' ≡ set s i (some (run_guard ctx input g))
        → Step gs s s'

  pub data Reach (gs : List Guard) : Slots → Type 0 where
    here : Reach gs (start gs)
    next : {s s' : Slots} → Reach gs s → Step gs s s' → Reach gs s'

  -- Each slot is empty or holds its guard's result.
  abbrev Agree : List Guard → Slots → Type 0
  Agree [] [] = Unit
  Agree [] (o ∷ s) = ⊥
  Agree (g ∷ gs) [] = ⊥
  Agree (g ∷ gs) (o ∷ s) = ((o ≡ none) ⊎ (o ≡ some (run_guard ctx input g))) × Agree gs s

  Agree-start : (gs : List Guard) → Agree gs (start gs)
  Agree-start [] = tt
  Agree-start (g ∷ gs) = (inl refl, Agree-start gs)

  Agree-set :
      (gs : List Guard) (s : Slots) (i : ℕ) (g : Guard)
      → get_elem? gs i ≡ some g
      → Agree gs s
      → Agree gs (set s i (some (run_guard ctx input g)))
  Agree-set [] [] i g e a = a
  Agree-set [] (o ∷ s) i g e a = absurd a
  Agree-set (h ∷ gs) [] i g e a = absurd a
  Agree-set (h ∷ gs) (o ∷ s) zero g e a = (inr (cc), a.1)
  Agree-set (h ∷ gs) (o ∷ s) (suc i) g e a = (a.0, Agree-set gs s i g e a.1)

  Agree-Reach : {gs : List Guard} {s : Slots} → Reach gs s → Agree gs s
  Agree-Reach {gs} here = Agree-start gs
  Agree-Reach {gs} (next {s} r (finish i g e o w)) = rw w (Agree-set gs s i g e (Agree-Reach r))

  collect_of_Done :
      (gs : List Guard) (s : Slots) → Agree gs s → Done s → collect s ≡ map (run_guard ctx input) gs
  collect_of_Done [] [] a d = refl
  collect_of_Done [] (o ∷ s) a d = absurd a
  collect_of_Done (g ∷ gs) [] a d = absurd a
  collect_of_Done (g ∷ gs) (none ∷ s) a d = absurd (d.0 refl)
  collect_of_Done (g ∷ gs) (some r ∷ s) a d = ground (arith, collect_of_Done gs s a.1 d.1)

  -- In whatever order the goroutines finish, once `wg.Wait` returns the results that `Run` concludes
  -- from are those of the sequential `run`.
  pub schedule_irrelevant :
      (gs : List Guard) (cfg : EvalConfig) (s : Slots)
      → gs ≢ []
      → Reach gs s
      → Done s
      → conclude cfg (collect s) ≡ run gs ctx input cfg
  unfolding run
  schedule_irrelevant [] cfg s h r d = absurd (h refl)
  schedule_irrelevant (g ∷ gs) cfg s h r d =
      ap (conclude cfg) (collect_of_Done (g ∷ gs) s (Agree-Reach r) d)

  -- An unfinished state has an unfinished goroutine that can step.
  Step-shift :
      {g : Guard} {gs : List Guard} {o : Option GuardResult} {s s' : Slots}
      → Step gs s s'
      → Step (g ∷ gs) (o ∷ s) (o ∷ s')
  Step-shift {o} (finish i g e n w) = finish (suc i) g e n (ap (λ l. o ∷ l) w)

  pending : Slots → ℕ
  pending [] = 0
  pending (none ∷ s) = suc (pending s)
  pending (some r ∷ s) = pending s

  progress :
      (gs : List Guard) (s : Slots)
      → Agree gs s
      → Done s ⊎ ((s' : Slots) × Step gs s s' × (pending s ≡ suc (pending s')))
  unfolding pending
  progress [] [] a = inl tt
  progress [] (o ∷ s) a = absurd a
  progress (g ∷ gs) [] a = absurd a
  progress (g ∷ gs) (none ∷ s) a =
      inr (some (run_guard ctx input g) ∷ s, finish 0 g refl refl refl, refl)
  progress (g ∷ gs) (some r ∷ s) a = elim (progress gs s a.1) [
    | inl d ↦ inl ((λ e. cc), d)
    | inr (s', st, p) ↦ inr (some r ∷ s', Step-shift st, p)
  ]

  finish_all :
      (n : ℕ) (gs : List Guard) (s : Slots)
      → pending s < n
      → Reach gs s
      → (s' : Slots) × Reach gs s' × Done s'
  finish_all zero gs s h r = absurd (omega arith)
  finish_all (suc n) gs s h r = elim (progress gs s (Agree-Reach r)) [
    | inl d ↦ (s, r, d)
    | inr (s', st, p) ↦ finish_all n gs s' (omega arith) (next r st)
  ]

  -- From every reachable state of the goroutines there is a state in which all have finished.
  wait_can_return :
      (gs : List Guard) (s : Slots) → Reach gs s → (s' : Slots) × Reach gs s' × Done s'
  wait_can_return gs s r = finish_all (suc (pending s)) gs s (omega arith) r
