-- ===== src/Transform/Chain.antt =====
-- What `ApplyAll` computes, against a relation that runs the transformers one after another.
pub mod Audit
use sheeld.Prelude.{
  ℕ, zero, suc, ◌+◌, ◌≡◌, ◌⊎◌, ◌↔◌, subst, inl, inr, refl, ap, ◌∙◌, sym, Bool, true, false, not,
  ◌&&◌, ◌||◌, ◌==◌, bytes_eq, eq_iff, beq_refl, if◌then◌else◌, String, List, [], ◌∷◌, ◌++◌, map,
  Option, All, arith, length, length-append, Bool-cases,
}
use sheeld.Prelude.Outcome.{Outcome, ok, err}
use sheeld.Guard.{CallMeta}
use sheeld.Llm.{Message}
use sheeld.Transform.Placeholders.{State}
use sheeld.Transform.{
  Transformer, transform, is_fail_open, transformer_name, StepResult, ChainResult, messages_equal,
  Applied, failure, success, add_step, step_on, apply_from, apply_all,
}

abbrev pub start : ChainResult
start = record { steps = []; changed = false }

module _ (ctx : Option CallMeta) where
  -- The transformers rewrite `msgs` into `out`, and `st` into `st'`; a fail-open transformer that errs
  -- is passed over, with what it did to the state kept.
  pub data Runs : List Transformer → State → List Message → List Message → State → Type 0 where
    done : {st : State} {msgs : List Message} → Runs [] st msgs msgs st
    applied :
        {t : Transformer} {ts : List Transformer} {st : State} {st' : State} {st'' : State}
        {msgs : List Message} {next : List Message} {out : List Message}
        → transform t ctx st msgs ≡ (ok next, st')
        → Runs ts st' next out st''
        → Runs (t ∷ ts) st msgs out st''
    skipped :
        {t : Transformer} {ts : List Transformer} {st : State} {st' : State} {st'' : State}
        {e : String} {msgs : List Message} {out : List Message}
        → transform t ctx st msgs ≡ (err e, st')
        → is_fail_open t ≡ true
        → Runs ts st' msgs out st''
        → Runs (t ∷ ts) st msgs out st''

  -- A transformer that is not fail-open errs with `e`, after those before it have run.
  pub data Aborts : List Transformer → State → List Message → String → Type 0 where
    here :
        {t : Transformer} {ts : List Transformer} {st : State} {st' : State} {msgs : List Message}
        {e : String}
        → transform t ctx st msgs ≡ (err e, st')
        → is_fail_open t ≡ false
        → Aborts (t ∷ ts) st msgs e
    after_applied :
        {t : Transformer} {ts : List Transformer} {st : State} {st' : State} {msgs : List Message}
        {next : List Message} {e : String}
        → transform t ctx st msgs ≡ (ok next, st')
        → Aborts ts st' next e
        → Aborts (t ∷ ts) st msgs e
    after_skipped :
        {t : Transformer} {ts : List Transformer} {st : State} {st' : State} {msgs : List Message}
        {d : String} {e : String}
        → transform t ctx st msgs ≡ (err d, st')
        → is_fail_open t ≡ true
        → Aborts ts st' msgs e
        → Aborts (t ∷ ts) st msgs e

  Runs-complete :
      {ts : List Transformer} {st : State} {msgs out : List Message} {st' : State} (c : ChainResult)
      → Runs ts st msgs out st'
      → ((apply_from ts ctx st msgs c).outcome ≡ ok out)
        × ((apply_from ts ctx st msgs c).state ≡ st')
  unfolding apply_from
  Runs-complete c done = (refl, refl)
  Runs-complete c (applied {t} {msgs} {next} e r) =
      rw e (Runs-complete (add_step c (success t (not (messages_equal msgs next)))) r)
  Runs-complete c (skipped {t} {e = m} e f r) =
      rw (e, f) (Runs-complete (add_step c (failure t true m)) r)

  Aborts-complete :
      {ts : List Transformer} {st : State} {msgs : List Message} {m : String} (c : ChainResult)
      → Aborts ts st msgs m
      → (apply_from ts ctx st msgs c).outcome ≡ err m
  unfolding apply_from
  Aborts-complete c (here e f) = rw (e, f)
  Aborts-complete c (after_applied {t} {msgs} {next} e r) =
      rw e (Aborts-complete (add_step c (success t (not (messages_equal msgs next)))) r)
  Aborts-complete c (after_skipped {t} {d} e f r) =
      rw (e, f) (Aborts-complete (add_step c (failure t true d)) r)

  Outcome-cases :
      (p : Outcome (List Message) × State)
      → ((next : List Message) × (p ≡ (ok next, p.1))) ⊎ ((e : String) × (p ≡ (err e, p.1)))
  Outcome-cases (ok next, st) = inl (next, refl)
  Outcome-cases (err e, st) = inr (e, refl)

  -- One of the two always happens.
  Runs-or_Aborts :
      (ts : List Transformer) (st : State) (msgs : List Message)
      → ((out : List Message) × (st' : State) × Runs ts st msgs out st')
        ⊎ ((m : String) × Aborts ts st msgs m)
  Runs-or_Aborts [] st msgs = inl (msgs, st, done)
  Runs-or_Aborts (t ∷ ts) st msgs = elim (Outcome-cases (transform t ctx st msgs)) [
    | inl (next, e) ↦ elim (Runs-or_Aborts ts (transform t ctx st msgs).1 next) [
      | inl (out, st', r) ↦ inl (out, st', applied e r)
      | inr (m, a) ↦ inr (m, after_applied e a)
    ]
    | inr (d, e) ↦ elim (Bool-cases (is_fail_open t)) [
      | inl f ↦ elim (Runs-or_Aborts ts (transform t ctx st msgs).1 msgs) [
        | inl (out, st', r) ↦ inl (out, st', skipped e f r)
        | inr (m, a) ↦ inr (m, after_skipped e f a)
      ]
      | inr f ↦ inr (d, here e f)
    ]
  ]

-- `ApplyAll` succeeds exactly with what running the transformers one after another gives, and leaves
-- the request's state that this leaves.
pub apply_all_iff :
    (ctx : Option CallMeta) (ts : List Transformer) (st : State) (msgs out : List Message)
    (st' : State)
    → (((apply_all ts ctx st msgs).outcome ≡ ok out) × ((apply_all ts ctx st msgs).state ≡ st'))
      ↔ Runs ctx ts st msgs out st'
unfolding apply_all
apply_all_iff ctx ts st msgs out st' = (
  λ (h, s). elim (Runs-or_Aborts ctx ts st msgs) [
    | inl (out', st'', r) ↦
        let (k, q) = Runs-complete ctx start r in
        let same_out : out' ≡ out = cc (h, k) in
        let same_state : st'' ≡ st' = cc (s, q) in
        subst (λ o. Runs ctx ts st msgs o st') same_out
          (subst (λ z. Runs ctx ts st msgs out' z) same_state r)
    | inr (m, a) ↦ absurd (cc (h, Aborts-complete ctx start a))
  ],
  λ r. Runs-complete ctx start r,
)

-- `ApplyAll` fails exactly with the error of the first transformer that errs and is not fail-open; none
-- after that one runs.
apply_all_error_iff :
    (ctx : Option CallMeta) (ts : List Transformer) (st : State) (msgs : List Message) (m : String)
    → ((apply_all ts ctx st msgs).outcome ≡ err m) ↔ Aborts ctx ts st msgs m
unfolding apply_all
apply_all_error_iff ctx ts st msgs m = (
  λ h. elim (Runs-or_Aborts ctx ts st msgs) [
    | inl (out, st', r) ↦ absurd (cc (h, (Runs-complete ctx start r).0))
    | inr (d, a) ↦
        let same : d ≡ m = cc (h, Aborts-complete ctx start a) in
        subst (Aborts ctx ts st msgs) same a
  ],
  λ a. Aborts-complete ctx start a,
)

pub messages_equal_refl : (ms : List Message) → messages_equal ms ms ≡ true
unfolding messages_equal
messages_equal_refl [] = refl
messages_equal_refl (m ∷ ms) = rw (beq_refl m.role, beq_refl m.content) (messages_equal_refl ms)

pub messages_equal_trans :
    (a b c : List Message)
    → messages_equal a b ≡ true
    → messages_equal b c ≡ true
    → messages_equal a c ≡ true
unfolding messages_equal
messages_equal_trans [] [] c h k = k
messages_equal_trans [] (y ∷ b) c h k = cc
messages_equal_trans (x ∷ a) [] c h k = cc
messages_equal_trans (x ∷ a) (y ∷ b) [] h k = cc
messages_equal_trans (x ∷ a) (y ∷ b) (z ∷ c) h k = ground (
  arith,
  eq_iff x.role y.role,
  eq_iff y.role z.role,
  eq_iff x.role z.role,
  eq_iff x.content y.content,
  eq_iff y.content z.content,
  eq_iff x.content z.content,
  messages_equal_trans a b c,
)
