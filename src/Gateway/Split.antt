-- ===== src/Gateway/Split.antt =====
-- internal/dataplane/gateway/stream.go: `splitContent`. A text is its bytes; the loop runs on fuel, one
-- unit per byte of the text, which is enough since each round cuts off at least one byte.
use mathlib.Core.List.{append-nil}
use sheeld.Prelude.{
  ℕ, zero, suc, ◌≤◌, ◌<◌, ◌≡◌, inl, inr, refl, arith, Bool, true, false, not, ◌&&◌, ◌==◌, nat_eq,
  ltb, leb, if◌then◌else◌, Bool-cases, Str, List, [], ◌∷◌, Option, none, some, length, get_elem?,
  take, drop, concat, All, take-append-drop, length-take, length-drop,
}

abbrev pub stream_chunk_size : ℕ
stream_chunk_size = 48

-- `utf8.RuneStart`: the byte is not of the form 10xxxxxx.
abbrev pub rune_start : ℕ → Bool
rune_start b = not (leb 128 b && ltb b 192)

abbrev starts_rune : Option ℕ → Bool
starts_rune none = true
starts_rune (some b) = rune_start b

-- The loop that moves the cut back past continuation bytes.
back_up : Str → ℕ → ℕ
back_up text zero = 0
back_up text (suc cut) =
    if starts_rune (get_elem? text (suc cut)) then suc cut else back_up text cut

-- `strings.LastIndexByte`
last_index_byte : Str → ℕ → Option ℕ
last_index_byte [] c = none
last_index_byte (b ∷ bs) c = elim (last_index_byte bs c) [
  | some i ↦ some (suc i)
  | none ↦ if b == c then some 0 else none
]

abbrev after_space : Option ℕ → ℕ → ℕ
after_space none cut = cut
after_space (some zero) cut = cut
after_space (some (suc i)) cut = suc (suc i)

abbrev or_size : ℕ → ℕ → ℕ
or_size size zero = size
or_size size (suc cut) = suc cut

-- Where one round cuts a text longer than `size`.
pub cut_at : Str → ℕ → ℕ
unfolding back_up last_index_byte
cut_at text size =
    let cut = back_up text size in
    or_size size (after_space (last_index_byte (take cut text) 32) cut)

-- The loop.
pub pieces_from : ℕ → Str → ℕ → List Str
unfolding cut_at
pieces_from zero text size = text ∷ []
pieces_from (suc fuel) text size =
    let rest = pieces_from fuel (drop (cut_at text size) text) size in
    if ltb size (length text) then take (cut_at text size) text ∷ rest else (text ∷ [])

unfoldable pub split_content : Str → ℕ → List Str
unfolding pieces_from
split_content [] size = []
split_content (b ∷ bs) size = pieces_from (length (b ∷ bs)) (b ∷ bs) size

back_up_le : (text : Str) (cut : ℕ) → back_up text cut ≤ cut
unfolding back_up
back_up_le text zero = omega arith
back_up_le text (suc cut) = elim (Bool-cases (starts_rune (get_elem? text (suc cut)))) [
  | inl h ↦ rw h (omega arith)
  | inr h ↦ rw h (let q = back_up_le text cut in omega arith)
]

abbrev Within : ℕ → Option ℕ → Type 0
Within n none = Unit
Within n (some i) = i < n

Within-step :
    (n : ℕ) (here : Bool) (found : Option ℕ)
    → Within n found
    → Within (suc n) (elim found [ some i ↦ some (suc i) | none ↦ if here then some 0 else none ])
Within-step n here (some i) w = omega (arith, w)
Within-step n true none w = omega arith
Within-step n false none w = tt

last_index_byte-Within : (bs : Str) (c : ℕ) → Within (length bs) (last_index_byte bs c)
unfolding last_index_byte
last_index_byte-Within [] c = tt
last_index_byte-Within (b ∷ bs) c =
    Within-step (length bs) (b == c) (last_index_byte bs c) (last_index_byte-Within bs c)

after_space_le : (o : Option ℕ) (n cut : ℕ) → Within n o → n ≤ cut → after_space o cut ≤ cut
after_space_le none n cut w h = omega arith
after_space_le (some zero) n cut w h = omega arith
after_space_le (some (suc i)) n cut w h = omega (arith, w, h)

or_size_bounds :
    (size cut : ℕ) → 1 ≤ size → cut ≤ size → (1 ≤ or_size size cut) × (or_size size cut ≤ size)
or_size_bounds size zero h k = (h, omega arith)
or_size_bounds size (suc cut) h k = (omega arith, k)

cut_at_bounds :
    (text : Str) (size : ℕ) → 1 ≤ size → (1 ≤ cut_at text size) × (cut_at text size ≤ size)
unfolding cut_at
cut_at_bounds text size h =
    let cut = back_up text size in
    let l = length-take cut text in
    let b = back_up_le text size in
    let a =
      after_space_le (last_index_byte (take cut text) 32) (length (take cut text)) cut
        (last_index_byte-Within (take cut text) 32) (omega arith) in
    or_size_bounds size (after_space (last_index_byte (take cut text) 32) cut) h (omega arith)

concat-pieces_from : (fuel : ℕ) (text : Str) (size : ℕ) → concat (pieces_from fuel text size) ≡ text
unfolding pieces_from
concat-pieces_from zero text size = append-nil text
concat-pieces_from (suc fuel) text size = elim (Bool-cases (ltb size (length text))) [
  | inr h ↦ rw h (append-nil text)
  | inl h ↦
      rw (h, concat-pieces_from fuel (drop (cut_at text size) text) size)
        (take-append-drop (cut_at text size) text)
]

-- A piece that is sent: not empty and at most `size` bytes.
abbrev pub Fits : ℕ → Str → Type 0
Fits size piece = (1 ≤ length piece) × (length piece ≤ size)

pieces_from-Fits :
    (fuel : ℕ) (text : Str) (size : ℕ)
    → 1 ≤ size
    → 1 ≤ length text
    → length text ≤ fuel
    → All (Fits size) (pieces_from fuel text size)
unfolding pieces_from
pieces_from-Fits zero text size h n f = absurd (omega arith)
pieces_from-Fits (suc fuel) text size h n f = elim (Bool-cases (ltb size (length text))) [
  | inr g ↦ rw g ((n, ground (arith, g)), tt)
  | inl g ↦
      let b = cut_at_bounds text size h in
      let t = length-take (cut_at text size) text in
      let d = length-drop (cut_at text size) text in
      let l : size < length text = ground (arith, g) in
      rw g (
        (omega arith, omega arith),
        pieces_from-Fits fuel (drop (cut_at text size) text) size h (omega arith) (omega arith),
      )
]

-- The pieces of a text, joined, are the text; and for a chunk size of at least one byte no piece is
-- empty or longer than the chunk size.
pub split_content-Fits :
    (text : Str) (size : ℕ)
    → 1 ≤ size
    → (concat (split_content text size) ≡ text) × All (Fits size) (split_content text size)
unfolding split_content
split_content-Fits [] size h = (refl, tt)
split_content-Fits (b ∷ bs) size h = (
  concat-pieces_from (suc (length bs)) (b ∷ bs) size,
  pieces_from-Fits (suc (length bs)) (b ∷ bs) size h (omega arith) (omega arith),
)
