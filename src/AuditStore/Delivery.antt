-- ===== src/AuditStore/Delivery.antt =====
-- What reaches the database of the entries that the writer took on.
use mathlib.Core.List.{append-nil, append_assoc}
use sheeld.Prelude.{
  ℕ, zero, suc, ◌+◌, ◌≤◌, ◌≡◌, refl, ap, sym, ◌∙◌, Bool, true, ltb, leb, if◌then◌else◌, Bool-cases,
  inl, inr, List, [], ◌∷◌, ◌++◌, length, arith, take, drop, take-append-drop, subst,
}
use sheeld.AuditStore.{
  Entry, Writer, WriterEvent, recorded, received, ticked, enqueue, insert_all, flush, flush_batch,
  Turn, receives, ticks, Closing, drained, timed_out, receive_from, receive, tick, drain, work,
  flush_until, close, step, steps, buffer_size, batch_size, new_writer,
}

-- The entries that the writer has taken on, in order.
abbrev pub taken : Writer → List Entry
taken w = w.stored ++ (w.batch ++ w.ch)

-- The entries that were recorded while there was room.
unfoldable pub admitted : (ℕ → Bool) → List WriterEvent → Writer → List Entry
admitted inserts [] w = []
admitted inserts (recorded e ∷ es) w =
    let rest = admitted inserts es (step inserts (recorded e) w) in
    if ltb (length w.ch) buffer_size then e ∷ rest else rest
admitted inserts (received ∷ es) w = admitted inserts es (step inserts received w)
admitted inserts (ticked ∷ es) w = admitted inserts es (step inserts ticked w)

no_elements {ℓ} : {A : Type ℓ} (xs : List A) → length xs ≤ 0 → xs ≡ []
no_elements [] h = refl
no_elements (x ∷ xs) h = absurd (omega (arith, h))

-- The entries that were stored are the first of those given, in order; they are all of them where the
-- consumer was done before the deadline.
pub record Stores (c : Closing) (given stored : List Entry) : Type 0 where
  pub lost : List Entry
  pub split : given ≡ stored ++ lost
  pub complete : (ts : List Turn) → c ≡ drained ts → lost ≡ []

module _ (inserts : ℕ → Bool) (up : (n : ℕ) → inserts n ≡ true) where
  insert_all-up :
      (es : List Entry) (w : Writer)
      → ((insert_all inserts es w).0 ≡ true)
        × ((insert_all inserts es w).1.stored ≡ w.stored ++ es)
        × ((insert_all inserts es w).1.ch ≡ w.ch)
  unfolding insert_all
  insert_all-up [] w = (refl, sym (append-nil w.stored), refl)
  insert_all-up (e ∷ es) w =
      let w' : Writer = record w { stored = w.stored ++ e ∷ []; attempted = w.attempted + 1 } in
      let q = insert_all-up es w' in
      rw (up w.attempted) (q.0, q.1 ∙ append_assoc w.stored (e ∷ []) es, q.2)

  flush-up :
      (es : List Entry) (w : Writer)
      → ((flush inserts es w).stored ≡ w.stored ++ es) × ((flush inserts es w).ch ≡ w.ch)
  unfolding flush
  flush-up [] w = (sym (append-nil w.stored), refl)
  flush-up (e ∷ es) w = let q = insert_all-up (e ∷ es) w in rw q.0 (q.1, q.2)

  flush_batch-taken : (w : Writer) → taken (flush_batch inserts w) ≡ taken w
  flush_batch-taken w =
      let q = flush-up w.batch w in rw (q.0, q.1) (append_assoc w.stored w.batch w.ch)

  receive_from-taken :
      (c : List Entry) (w : Writer) → w.ch ≡ c → taken (receive_from inserts c w) ≡ taken w
  receive_from-taken [] w h = refl
  receive_from-taken (e ∷ es) w h =
      let w' : Writer = record w { ch = es; batch = w.batch ++ e ∷ [] } in
      let moved : taken w' ≡ taken w =
        ap (λ l. w.stored ++ l)
          (append_assoc w.batch (e ∷ []) es ∙ ap (λ l. w.batch ++ l) (sym h)) in
      elim (Bool-cases (leb batch_size (length w'.batch))) [
        | inl b ↦ rw b (flush_batch-taken w' ∙ moved)
        | inr b ↦ rw b moved
      ]

  receive-taken : (w : Writer) → taken (receive inserts w) ≡ taken w
  unfolding receive
  receive-taken w = receive_from-taken w.ch w refl

  tick-taken : (w : Writer) → taken (tick inserts w) ≡ taken w
  unfolding tick
  tick-taken w = elim (Bool-cases (ltb 0 (length w.batch))) [
    | inl b ↦ rw b (flush_batch-taken w)
    | inr b ↦ rw b refl
  ]

  enqueue-taken :
      (e : Entry) (w : Writer) (later : List Entry)
      → taken (enqueue e w) ++ later
        ≡ taken w ++ (if ltb (length w.ch) buffer_size then e ∷ later else later)
  enqueue-taken e w later = elim (Bool-cases (ltb (length w.ch) buffer_size)) [
    | inr b ↦ rw b refl
    | inl b ↦
        let grown : w.stored ++ (w.batch ++ (w.ch ++ e ∷ [])) ≡ taken w ++ e ∷ [] =
          ap (λ l. w.stored ++ l) (sym (append_assoc w.batch w.ch (e ∷ [])))
          ∙ sym (append_assoc w.stored (w.batch ++ w.ch) (e ∷ [])) in
        rw b (ap (λ l. l ++ later) grown ∙ append_assoc (taken w) (e ∷ []) later)
  ]

  steps-taken :
      (es : List WriterEvent) (w : Writer)
      → taken (steps inserts es w) ≡ taken w ++ admitted inserts es w
  unfolding steps admitted step
  steps-taken [] w = sym (append-nil (taken w))
  steps-taken (received ∷ es) w =
      steps-taken es (receive inserts w)
      ∙ ap (λ l. l ++ admitted inserts es (receive inserts w)) (receive-taken w)
  steps-taken (ticked ∷ es) w =
      steps-taken es (tick inserts w)
      ∙ ap (λ l. l ++ admitted inserts es (tick inserts w)) (tick-taken w)
  steps-taken (recorded e ∷ es) w =
      steps-taken es (enqueue e w) ∙ enqueue-taken e w (admitted inserts es (enqueue e w))

  drain-taken : (n : ℕ) (w : Writer) → taken (drain inserts n w) ≡ taken w
  unfolding drain
  drain-taken zero w = refl
  drain-taken (suc n) w = drain-taken n (receive inserts w) ∙ receive-taken w

  -- A receive takes one entry off the channel.
  receive_from-ch :
      (c : List Entry) (w : Writer) (n : ℕ)
      → w.ch ≡ c
      → length c ≤ suc n
      → length (receive_from inserts c w).ch ≤ n
  receive_from-ch [] w n h l = rw h (omega arith)
  receive_from-ch (e ∷ es) w n h l =
      let w' : Writer = record w { ch = es; batch = w.batch ++ e ∷ [] } in
      elim (Bool-cases (leb batch_size (length w'.batch))) [
        | inl b ↦ rw (b, (flush-up w'.batch w').1) (omega (arith, l))
        | inr b ↦ rw b (omega (arith, l))
      ]

  drain-ch : (n : ℕ) (w : Writer) → length w.ch ≤ n → length (drain inserts n w).ch ≤ 0
  unfolding drain receive
  drain-ch zero w h = h
  drain-ch (suc n) w h = drain-ch n (receive inserts w) (receive_from-ch w.ch w n refl h)

  work-taken : (ts : List Turn) (w : Writer) → taken (work inserts ts w) ≡ taken w
  unfolding work
  work-taken [] w = refl
  work-taken (receives ∷ ts) w = work-taken ts (receive inserts w) ∙ receive-taken w
  work-taken (ticks ∷ ts) w = work-taken ts (tick inserts w) ∙ tick-taken w

  drain-stored :
      (w : Writer) → (flush_batch inserts (drain inserts (length w.ch) w)).stored ≡ taken w
  drain-stored w =
      let d = drain inserts (length w.ch) w in
      let none_left : d.ch ≡ [] = no_elements d.ch (drain-ch (length w.ch) w (omega arith)) in
      (flush-up d.batch d).0
      ∙ sym (ap (λ l. d.stored ++ l) (ap (λ l. d.batch ++ l) none_left ∙ append-nil d.batch))
      ∙ drain-taken (length w.ch) w

  flush_until-up :
      (i j : ℕ) (es : List Entry) (w : Writer)
      → (flush_until inserts i j es w).stored ≡ w.stored ++ take i es
  unfolding flush_until
  flush_until-up i j es w = let q = insert_all-up (take i es) w in rw q.0 q.1

  -- What a writer has taken on is what a flush that is cut off has stored, and the rest.
  flush_until-taken :
      (i j : ℕ) (w : Writer)
      → taken w
        ≡ (flush_until inserts i j (w.batch ++ take 1 w.ch) w).stored
          ++ (drop i (w.batch ++ take 1 w.ch) ++ drop 1 w.ch)
  flush_until-taken i j w =
      let es = w.batch ++ take 1 w.ch in
      let cut : w.batch ++ w.ch ≡ take i es ++ (drop i es ++ drop 1 w.ch) =
        ap (λ l. w.batch ++ l) (sym (take-append-drop 1 w.ch))
        ∙ sym (append_assoc w.batch (take 1 w.ch) (drop 1 w.ch))
        ∙ ap (λ l. l ++ drop 1 w.ch) (sym (take-append-drop i es))
        ∙ append_assoc (take i es) (drop i es) (drop 1 w.ch) in
      ap (λ l. w.stored ++ l) cut
      ∙ sym (append_assoc w.stored (take i es) (drop i es ++ drop 1 w.ch))
      ∙ ap (λ l. l ++ (drop i es ++ drop 1 w.ch)) (sym (flush_until-up i j es w))

  close-Stores : (c : Closing) (w : Writer) → Stores c (taken w) (close inserts c w).stored
  unfolding close
  close-Stores (drained ts) w = record {
    lost = [];
    split =
        sym (work-taken ts w)
        ∙ sym (drain-stored (work inserts ts w))
        ∙ sym (append-nil (close inserts (drained ts) w).stored);
    complete = λ ts' h. refl;
  }
  close-Stores (timed_out ts i j) w = record {
    lost = _;
    split = sym (work-taken ts w) ∙ flush_until-taken i j (work inserts ts w);
    complete = λ ts' h. absurd (cc h);
  }

-- While the database takes every insert, a writer that is closed after any sequence of records, receives
-- and ticks has stored, when `Close` returns, a first part of the entries that were recorded while the
-- buffer had room: each once, in the order in which they were recorded. It has stored all of them,
-- unless the drain met the deadline of `Close`.
pub stored_once_in_order :
    (inserts : ℕ → Bool) (es : List WriterEvent) (c : Closing)
    → ((n : ℕ) → inserts n ≡ true)
    → Stores c
        (admitted inserts es new_writer)
        (close inserts c (steps inserts es new_writer)).stored
stored_once_in_order inserts es c up =
    subst (λ l. Stores c l (close inserts c (steps inserts es new_writer)).stored)
      (steps-taken inserts up es new_writer)
      (close-Stores inserts up c (steps inserts es new_writer))
