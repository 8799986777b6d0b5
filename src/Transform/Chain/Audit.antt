-- ===== src/Transform/Chain/Audit.antt =====
-- What the audit record of a transformer chain (`ChainResult`) says of the run.
use mathlib.Core.List.{append-nil, append_assoc, map-append}
use sheeld.Prelude.{
  ◌≡◌, ◌∙◌, sym, refl, true, false, not, String, List, ◌∷◌, ◌++◌, map, Option, arith,
}
use sheeld.Prelude.Outcome.{ok}
use sheeld.Guard.{CallMeta}
use sheeld.Llm.{Message}
use sheeld.Transform.Placeholders.{State}
use sheeld.Transform.{
  Transformer, transformer_name, StepResult, ChainResult, messages_equal, failure, success,
  add_step, apply_from, apply_all,
}
use sheeld.Transform.Chain.{
  Runs, done, applied, skipped, start, apply_all_iff, messages_equal_refl, messages_equal_trans,
}

abbrev pub step_name : StepResult → String
step_name s = s.name

names-add_step :
    (c : ChainResult) (s : StepResult) (names : List String)
    → map step_name (add_step c s).steps ++ names ≡ map step_name c.steps ++ s.name ∷ names
unfolding add_step
names-add_step c s names = simp (map-append, append_assoc)

names-Runs :
    {ctx : Option CallMeta} {ts : List Transformer} {st : State} {msgs out : List Message}
    {st' : State} (c : ChainResult)
    → Runs ctx ts st msgs out st'
    → map step_name (apply_from ts ctx st msgs c).chain.steps
      ≡ map step_name c.steps ++ map transformer_name ts
unfolding apply_from
names-Runs c done = sym (append-nil _)
names-Runs c (applied {t} {ts} {msgs} {next} e r) =
    let s = success t (not (messages_equal msgs next)) in
    rw e (names-Runs (add_step c s) r ∙ names-add_step c s (map transformer_name ts))
names-Runs c (skipped {t} {ts} {e = m} e f r) =
    let s = failure t true m in
    rw (e, f) (names-Runs (add_step c s) r ∙ names-add_step c s (map transformer_name ts))

changed-Runs :
    {ctx : Option CallMeta} {ts : List Transformer} {st : State} {msgs out : List Message}
    {st' : State} (c : ChainResult)
    → Runs ctx ts st msgs out st'
    → (apply_from ts ctx st msgs c).chain.changed ≡ false
    → (c.changed ≡ false) × (messages_equal msgs out ≡ true)
unfolding apply_from
changed-Runs c (done {msgs}) h = (h, messages_equal_refl msgs)
changed-Runs {out} c (applied {t} {msgs} {next} e r) h =
    let s = success t (not (messages_equal msgs next)) in
    let (k, q) = changed-Runs (add_step c s) r (rw e at h) in
    unfold add_step in (ground (arith, k), messages_equal_trans msgs next out (ground (arith, k)) q)
changed-Runs c (skipped {t} {e = m} e f r) h =
    let (k, q) = changed-Runs (add_step c (failure t true m)) r (rw (e, f) at h) in
    unfold add_step in (ground (arith, k), q)

-- When `ApplyAll` succeeds its record has one step for each transformer, in order, and if the record
-- says that nothing changed then every message has the role and the content that it came with.
record_faithful :
    (ctx : Option CallMeta) (ts : List Transformer) (st : State) (msgs out : List Message)
    → (apply_all ts ctx st msgs).outcome ≡ ok out
    → (map step_name (apply_all ts ctx st msgs).chain.steps ≡ map transformer_name ts)
      × ((apply_all ts ctx st msgs).chain.changed ≡ false → messages_equal msgs out ≡ true)
unfolding apply_all
record_faithful ctx ts st msgs out h =
    let r = (apply_all_iff ctx ts st msgs out _).0 (h, refl) in
    (names-Runs start r, λ k. (changed-Runs start r k).1)
