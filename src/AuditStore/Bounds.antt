-- ===== src/AuditStore/Bounds.antt =====
-- The buffer and the batch stay within their sizes, whatever the database does.
use sheeld.Prelude.{
  ℕ, suc, ◌+◌, ◌≤◌, ◌<◌, ◌≡◌, refl, ap, ◌∙◌, Bool, ltb, leb, Bool-cases, inl, inr, List, [], ◌∷◌,
  ◌++◌, length, length-append, arith,
}
use sheeld.AuditStore.{
  Entry, Writer, WriterEvent, recorded, received, ticked, enqueue, insert_all, flush, flush_batch,
  receive_from, receive, tick, step, steps, buffer_size, batch_size, new_writer,
}

pub record WithinSizes (w : Writer) : Type 0 where
  pub ch_bound : length w.ch ≤ buffer_size
  pub batch_bound : length w.batch < batch_size

module _ (inserts : ℕ → Bool) where
  ch-insert_all : (es : List Entry) (w : Writer) → (insert_all inserts es w).1.ch ≡ w.ch
  unfolding insert_all
  ch-insert_all [] w = refl
  ch-insert_all (e ∷ es) w = elim (Bool-cases (inserts w.attempted)) [
    | inl b ↦
        rw b
          (ch-insert_all es (record w { stored = w.stored ++ e ∷ []; attempted = w.attempted + 1 }))
    | inr b ↦ rw b refl
  ]

  ch-flush : (es : List Entry) (w : Writer) → (flush inserts es w).ch ≡ w.ch
  unfolding flush
  ch-flush [] w = refl
  ch-flush (e ∷ es) w =
      let first = insert_all inserts (e ∷ es) w in
      let second = insert_all inserts (e ∷ es) first.1 in
      elim (Bool-cases first.0) [
        | inl b ↦ rw b (ch-insert_all (e ∷ es) w)
        | inr b ↦ elim (Bool-cases second.0) [
          | inl c ↦ rw (b, c) (ch-insert_all (e ∷ es) first.1 ∙ ch-insert_all (e ∷ es) w)
          | inr c ↦ rw (b, c) (ch-insert_all (e ∷ es) first.1 ∙ ch-insert_all (e ∷ es) w)
        ]
      ]

  flush_batch-WithinSizes :
      (w : Writer) → length w.ch ≤ buffer_size → WithinSizes (flush_batch inserts w)
  flush_batch-WithinSizes w h = record {
    ch_bound = rw (ch-flush w.batch w) h;
    batch_bound = omega arith;
  }

  receive_from-WithinSizes :
      (c : List Entry) (w : Writer)
      → w.ch ≡ c
      → WithinSizes w
      → WithinSizes (receive_from inserts c w)
  receive_from-WithinSizes [] w h b = b
  receive_from-WithinSizes (e ∷ es) w h b =
      let w' : Writer = record w { ch = es; batch = w.batch ++ e ∷ [] } in
      let l : length w.ch ≡ suc (length es) = ap length h in
      elim (Bool-cases (leb batch_size (length w'.batch))) [
        | inl f ↦ rw f (flush_batch-WithinSizes w' (omega (arith, b.ch_bound, l)))
        | inr f ↦
            rw f
              (record { ch_bound = omega (arith, b.ch_bound, l); batch_bound = ground (arith, f) })
      ]

  enqueue-WithinSizes : (e : Entry) (w : Writer) → WithinSizes w → WithinSizes (enqueue e w)
  enqueue-WithinSizes e w b = elim (Bool-cases (ltb (length w.ch) buffer_size)) [
    | inr f ↦ rw f (record { ch_bound = b.ch_bound; batch_bound = b.batch_bound })
    | inl f ↦
        let room : length w.ch < buffer_size = ground (arith, f) in
        rw f (record {
          ch_bound = omega (arith, length-append w.ch (e ∷ []), room);
          batch_bound = b.batch_bound;
        })
  ]

  tick-WithinSizes : (w : Writer) → WithinSizes w → WithinSizes (tick inserts w)
  unfolding tick
  tick-WithinSizes w b = elim (Bool-cases (ltb 0 (length w.batch))) [
    | inl f ↦ rw f (flush_batch-WithinSizes w b.ch_bound)
    | inr f ↦ rw f b
  ]

  steps-WithinSizes :
      (es : List WriterEvent) (w : Writer) → WithinSizes w → WithinSizes (steps inserts es w)
  unfolding steps step receive
  steps-WithinSizes [] w b = b
  steps-WithinSizes (recorded e ∷ es) w b =
      steps-WithinSizes es (enqueue e w) (enqueue-WithinSizes e w b)
  steps-WithinSizes (received ∷ es) w b =
      steps-WithinSizes es (receive inserts w) (receive_from-WithinSizes w.ch w refl b)
  steps-WithinSizes (ticked ∷ es) w b = steps-WithinSizes es (tick inserts w) (tick-WithinSizes w b)

-- After any sequence of records, receives and ticks the channel holds at most `buffer_size` entries and
-- the batch fewer than `batch_size`, whichever inserts fail.
buffers_bounded :
    (inserts : ℕ → Bool) (es : List WriterEvent) → WithinSizes (steps inserts es new_writer)
buffers_bounded inserts es =
    steps-WithinSizes inserts es new_writer
      (record { ch_bound = omega arith; batch_bound = omega arith })
