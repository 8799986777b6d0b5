-- ===== src/Transform/Presidio/Tests.antt =====
-- Reversible anonymization at concrete texts.
use sheeld.Prelude.Outcome.{Outcome, ok, ok-injective}
use sheeld.Prelude.{
  ◌≡◌, refl, subst, arith, Str, str, List, [], ◌∷◌, All, bytes_eq, ◌==◌, if◌then◌else◌, inl,
}
use sheeld.Llm.{Message}
use sheeld.Transform.Placeholders.{State, fresh, allocate_placeholder}
use sheeld.Transform.Deanonymize.{deanonymize}
use sheeld.Transform.Deanonymize.Restores.{tag, Restores, done, byte, placed}
use sheeld.Transform.Presidio.{
  Detection, replace_spans, sort_spans, anonymize_reversibly, transform_contents,
}
use sheeld.Transform.Presidio.Order.{detected, AreDisjoint, span}
use sheeld.Transform.Presidio.Spans.{IsTracked, Closes}
use sheeld.Transform.Presidio.RoundTrip.{
  IsAnonymizable, Keeps, fresh-IsTracked, deanonymize_anonymized, transform_contents_grows,
  deanonymize_reply,
}
use sheeld.Samples.{message}

-- It finds two people in every text of seven bytes or more.
abbrev two_people : List Detection
two_people = detected (str "PERSON") 0 3 ∷ detected (str "PERSON") 4 7 ∷ []

abbrev finds : Str → Outcome (List Detection)
finds text = if text == str "Ann Bob" then ok two_people else ok []

anonymized : anonymize_reversibly finds fresh (str "Ann Bob") ≡ (
  ok (str "<PERSON_2> <PERSON_1>"),
  record {
    mappings = (str "<PERSON_1>", str "Bob") ∷ (str "<PERSON_2>", str "Ann") ∷ [];
    counters = (str "PERSON", 2) ∷ [];
  },
)
unfolding anonymize_reversibly allocate_placeholder
anonymized = refl

-- A recognizer for addresses and one for URLs overlap: of john@a.com the part before the URL stays.
overlap :
    (replace_spans fresh
      (str "john@example.com")
      (sort_spans (detected (str "EMAIL_ADDRESS") 0 16 ∷ detected (str "URL") 5 16 ∷ []))).0
    ≡ str "john@<URL_1>"
unfolding replace_spans sort_spans allocate_placeholder
overlap = refl

abbrev conversation : List Message
conversation = message (str "Ann Bob") ∷ message (str "hi") ∷ []

abbrev anonymized_conversation : List Message
anonymized_conversation =
    record (message (str "Ann Bob")) { content = str "<PERSON_2> <PERSON_1>" }
    ∷ message (str "hi")
    ∷ []

abbrev after : State
after = record {
  mappings = (str "<PERSON_1>", str "Bob") ∷ (str "<PERSON_2>", str "Ann") ∷ [];
  counters = (str "PERSON", 2) ∷ [];
}

runs :
    transform_contents (anonymize_reversibly finds) fresh conversation
    ≡ (ok anonymized_conversation, after)
unfolding transform_contents anonymize_reversibly allocate_placeholder
runs = refl

two_people_well : AreDisjoint 7 two_people × All Closes two_people
two_people_well = (
  (
    span (str "PERSON") 0 3 (omega arith) (omega arith),
    ((inl refl, tt), (span (str "PERSON") 4 7 (omega arith) (omega arith), (tt, tt))),
  ),
  (omega arith, (omega arith, tt)),
)

finds_people : IsAnonymizable finds (str "Ann Bob")
finds_people = (
  omega arith,
  λ rs e. subst (λ r. AreDisjoint 7 r × All Closes r) (ok-injective e) two_people_well,
)

finds_nobody : IsAnonymizable finds (str "hi")
finds_nobody =
    (omega arith, λ rs e. subst (λ r. AreDisjoint 2 r × All Closes r) (ok-injective e) (tt, tt))

deanonymize_anonymized_example : deanonymize after anonymized_conversation ≡ conversation
deanonymize_anonymized_example =
    deanonymize_anonymized finds fresh after conversation anonymized_conversation fresh-IsTracked
      (finds_people, (finds_nobody, tt)) runs

finds_grows :
    IsTracked (transform_contents (anonymize_reversibly finds) fresh conversation).1
    × Keeps fresh (transform_contents (anonymize_reversibly finds) fresh conversation).1
finds_grows =
    transform_contents_grows finds fresh conversation fresh-IsTracked
      (finds_people, (finds_nobody, tt))

after-IsTracked : IsTracked after
after-IsTracked = subst (λ p. IsTracked p.1) runs finds_grows.0

abbrev reply : Message
reply = message (str "<PERSON_2>!")

reply-Restores : Restores after.mappings reply.content (str "Ann!")
reply-Restores =
    placed (str "<PERSON_2>") (str "Ann") (tag (str "PERSON_2") (omega arith)) refl
      (byte 33 (omega arith) done)

reply_restored : deanonymize after (reply ∷ []) ≡ record reply { content = str "Ann!" } ∷ []
reply_restored = deanonymize_reply after reply (str "Ann!") after-IsTracked reply-Restores
