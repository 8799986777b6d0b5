-- ===== src/AuditStore.antt =====
-- internal/dataplane/auditstore/writer.go: the asynchronous writer of audit records. The channel and the
-- batch are lists, the rows in the database are `stored`; the database is the parameter `inserts`, which
-- says whether its n-th insert succeeds, and the hash and the JSON encoding are parameters too.
pub mod Delivery
pub mod Bounds
pub mod Logs
pub mod Pruner
mod Tests
use sheeld.Prelude.{
  ℕ, zero, suc, ◌+◌, Bool, true, false, ltb, leb, if◌then◌else◌, String, Str, List, [], ◌∷◌, ◌++◌,
  Option, none, some, length, take,
}
use sheeld.Json.{Json}
use sheeld.Llm.{Usage}
use sheeld.Processor.{AuditRecord}

abbrev pub buffer_size : ℕ
buffer_size = 1024

abbrev pub batch_size : ℕ
batch_size = 100

pub record Entry : Type 0 where
  pub org_id : ℕ
  pub source_id : ℕ
  pub input_hash : String
  pub guard_results : Json
  pub overall_result : String
  pub usage : Option Usage
  pub model : Str

-- `attempted` counts the inserts so far.
pub record Writer : Type 0 where
  pub ch : List Entry
  pub batch : List Entry
  pub stored : List Entry
  pub attempted : ℕ
  pub dropped : ℕ
  pub batches_dropped : ℕ

abbrev pub new_writer : Writer
new_writer = record {
  ch = [];
  batch = [];
  stored = [];
  attempted = 0;
  dropped = 0;
  batches_dropped = 0;
}

-- The non-blocking send.
abbrev pub enqueue : Entry → Writer → Writer
enqueue e w =
    if ltb (length w.ch) buffer_size
    then record w { ch = w.ch ++ e ∷ [] }
    else record w { dropped = w.dropped + 1 }

pub data Turn : Type 0 where
  receives ticks : Turn

-- How `Close` goes: the consumer takes these turns and then drains the rest before the deadline; or it
-- has taken these turns at the deadline, and made so many inserts of a flush.
pub data Closing : Type 0 where
  drained : List Turn → Closing
  timed_out : List Turn → ℕ → ℕ → Closing

module _ (inserts : ℕ → Bool) where
  -- One attempt at a batch stops at the first insert that fails; the flag says that none did.
  insert_all : List Entry → Writer → Bool × Writer
  insert_all [] w = (true, w)
  insert_all (e ∷ es) w =
      let rest =
        insert_all es (record w { stored = w.stored ++ e ∷ []; attempted = w.attempted + 1 }) in
      if inserts w.attempted then rest else (false, record w { attempted = w.attempted + 1 })

  -- `flush`: a second attempt starts over with the whole batch.
  pub flush : List Entry → Writer → Writer
  unfolding insert_all
  flush [] w = w
  flush (e ∷ es) w =
      let (done, w') = insert_all (e ∷ es) w in
      let (done', w'') = insert_all (e ∷ es) w' in
      if done
      then w'
      else if done'
      then w''
      else record w'' { batches_dropped = w''.batches_dropped + 1 }

  abbrev flush_batch : Writer → Writer
  flush_batch w = record (flush w.batch w) { batch = [] }

  -- The consumer's two cases: a receive, and a tick.
  abbrev receive_from : List Entry → Writer → Writer
  receive_from [] w = w
  receive_from (e ∷ es) w =
      let w' : Writer = record w { ch = es; batch = w.batch ++ e ∷ [] } in
      if leb batch_size (length w'.batch) then flush_batch w' else w'

  pub receive : Writer → Writer
  unfolding flush
  receive w = receive_from w.ch w

  pub tick : Writer → Writer
  unfolding flush
  tick w = if ltb 0 (length w.batch) then flush_batch w else w

  -- After `Close` has closed the channel: the consumer receives what is buffered, flushes and returns.
  drain : ℕ → Writer → Writer
  unfolding receive
  drain zero w = w
  drain (suc n) w = drain n (receive w)

  -- Turns of the consumer, by the case that its `select` takes.
  work : List Turn → Writer → Writer
  unfolding receive tick
  work [] w = w
  work (receives ∷ ts) w = work ts (receive w)
  work (ticks ∷ ts) w = work ts (tick w)

  -- What a flush has done once it has made so many inserts of its first attempt, or of its second.
  flush_until : ℕ → ℕ → List Entry → Writer → Writer
  unfolding insert_all
  flush_until i j es w =
      let (going, w') = insert_all (take i es) w in
      if going then w' else (insert_all (take j es) w').1

  -- `Close` waits for the consumer, but for five seconds at most: the writer as it is when it returns.
  -- The flush that the deadline may meet is of the batch, or of the batch with the next entry.
  pub close : Closing → Writer → Writer
  unfolding drain flush work flush_until
  close (drained ts) w = let w' = work ts w in flush_batch (drain (length w'.ch) w')
  close (timed_out ts i j) w = let w' = work ts w in flush_until i j (w'.batch ++ take 1 w'.ch) w'

module _ (hash : Str → String) (encode : AuditRecord → Option Json) where
  abbrev entry_of : AuditRecord → Json → Entry
  entry_of a blob = record {
    org_id = a.org_id;
    source_id = a.source_id;
    input_hash = hash a.input_text;
    guard_results = blob;
    overall_result = a.overall_result;
    usage = a.usage;
    model = a.model;
  }

  -- `Record`
  unfoldable pub record_audit : AuditRecord → Writer → Writer
  record_audit a w = elim (encode a) [ none ↦ w | some blob ↦ enqueue (entry_of a blob) w ]

-- What may happen to a writer before it is closed.
pub data WriterEvent : Type 0 where
  recorded : Entry → WriterEvent
  received ticked : WriterEvent

unfoldable pub step : (ℕ → Bool) → WriterEvent → Writer → Writer
unfolding receive tick
step inserts (recorded e) w = enqueue e w
step inserts received w = receive inserts w
step inserts ticked w = tick inserts w

unfoldable pub steps : (ℕ → Bool) → List WriterEvent → Writer → Writer
unfolding step
steps inserts [] w = w
steps inserts (e ∷ es) w = steps inserts es (step inserts e w)
