-- ===== src/Llm/Client/Retry.antt =====
-- The retry loop of `ChatCompletionAt`: how often it calls, how long it waits, when it succeeds.
use mathlib.Core.List.{append-nil}
use native.Mathlib.Decide.{dec_lt}
use sheeld.Prelude.{
  ℕ, zero, suc, ◌+◌, ◌-◌, ◌*◌, ◌≤◌, ◌<◌, ◌≡◌, ◌↔◌, refl, Bool, true, false, List, [], ◌∷◌, ◌++◌,
  Str, ap, sym, ◌∙◌, subst, arith, ◌==◌, bytes_eq, if◌then◌else◌, str,
}
use sheeld.Llm.{ChatRequest, ChatResponse}
use sheeld.Llm.Codec.{marshal_request}
use sheeld.Llm.Client.{
  Client, Network, HttpRequest, Attempt, success, failure, do_once, Reply, response, failed,
  Failure, exhausted, cancelled, rejected, after, wait, ended, Call, rounds, chat_completion_at,
}

-- Backoffs that double, from `b` on.
abbrev pub doubling : ℕ → ℕ → List ℕ
doubling b zero = []
doubling b (suc n) = b ∷ doubling (b * 2) n

-- The request that every attempt of a call sends.
abbrev pub sent : Client → Str → Str → ChatRequest → HttpRequest
sent c base_url api_key req = record {
  url = (if base_url == [] then c.base_url else base_url) ++ str "/chat/completions";
  bearer = api_key;
  body = marshal_request req;
}

append_one : (xs : List ℕ) (x : ℕ) (ys : List ℕ) → (xs ++ x ∷ []) ++ ys ≡ xs ++ x ∷ ys
append_one [] x ys = refl
append_one (y ∷ xs) x ys = ap (λ l. y ∷ l) (append_one xs x ys)

-- One round ends the call with a response, ends it with an error, or goes on.
module _ (P : Call → Type 0) (a : ℕ) (w : List ℕ) where
  after_cases :
      (over : Bool) (x : Attempt) (go : Call)
      → ((r : ChatResponse) → x ≡ success r → P (ended (response r) a w))
      → P (ended (failed rejected) a w)
      → (x ≡ failure true → over ≡ false → P go)
      → P (after over x a w go)
  after_cases over (success r) go s f g = s r refl
  after_cases true (failure true) go s f g = f
  after_cases false (failure true) go s f g = g refl refl
  after_cases over (failure false) go s f g = f

  wait_cases :
      (over : Bool) (go : Call)
      → P (ended (failed cancelled) a w)
      → (over ≡ false → P go)
      → P (wait over a w go)
  wait_cases true go f g = f
  wait_cases false go f g = g refl

-- A call made `n` more attempts after attempt `a`, with a doubled wait before each of them.
pub record Paced (left a b : ℕ) (w : List ℕ) (c : Call) : Type 0 where
  pub more : ℕ
  pub within : more ≤ left
  pub counted : c.attempts ≡ a + suc more
  pub doubled : c.waits ≡ w ++ doubling b more

Paced-stop : (left a b : ℕ) (w : List ℕ) (r : Reply) → Paced left a b w (ended r a w)
Paced-stop left a b w r = record {
  more = 0;
  within = omega arith;
  counted = omega arith;
  doubled = sym (append-nil w);
}

Paced-go :
    (left a b : ℕ) (w : List ℕ) (c : Call)
    → Paced left (suc a) (b * 2) (w ++ b ∷ []) c
    → Paced (suc left) a b w c
Paced-go left a b w c p = record {
  more = suc p.more;
  within = omega (arith, p.within);
  counted = omega (arith, p.counted);
  doubled = p.doubled ∙ append_one w b (doubling (b * 2) p.more);
}

module _ (net : Network) (req : HttpRequest) where
  -- Attempt `j` failed, and the loop went on to the next.
  pub record GoesOn (j : ℕ) : Type 0 where
    pub transient : do_once net j req ≡ failure true
    pub context_live : net.context_over j ≡ false
    pub waited : net.over_in_wait (suc j) ≡ false

  -- Attempt `k` answers with `r`, and each attempt from `a` before it went on.
  pub record SucceedsAt (a k : ℕ) (r : ChatResponse) : Type 0 where
    pub from_start : a ≤ k
    pub answered : do_once net k req ≡ success r
    pub before : (j : ℕ) → a ≤ j → j < k → GoesOn j

  rounds-Paced : (left a b : ℕ) (w : List ℕ) → Paced left a b w (rounds net req left a b w)
  unfolding rounds
  rounds-Paced zero a b w =
      after_cases (Paced zero a b w) a w (net.context_over a) (do_once net a req)
        (ended (failed exhausted) a w) (λ r e. Paced-stop zero a b w (response r))
        (Paced-stop zero a b w (failed rejected)) (λ e o. Paced-stop zero a b w (failed exhausted))
  rounds-Paced (suc left) a b w =
      let go = rounds net req left (suc a) (b * 2) (w ++ b ∷ []) in
      after_cases (Paced (suc left) a b w) a w (net.context_over a) (do_once net a req)
        (wait (net.over_in_wait (suc a)) a w go) (λ r e. Paced-stop (suc left) a b w (response r))
        (Paced-stop (suc left) a b w (failed rejected))
        (λ e o.
          wait_cases (Paced (suc left) a b w) a w (net.over_in_wait (suc a)) go
            (Paced-stop (suc left) a b w (failed cancelled))
            (λ f. Paced-go left a b w go (rounds-Paced left (suc a) (b * 2) (w ++ b ∷ []))))

  SucceedsAt-here : (a : ℕ) (r : ChatResponse) → do_once net a req ≡ success r → SucceedsAt a a r
  SucceedsAt-here a r e = record {
    from_start = omega arith;
    answered = e;
    before = λ j h k. absurd (omega arith);
  }

  SucceedsAt-later :
      (a k : ℕ) (r : ChatResponse) → GoesOn a → SucceedsAt (suc a) k r → SucceedsAt a k r
  SucceedsAt-later a k r g s = record {
    from_start = omega (arith, s.from_start);
    answered = s.answered;
    before = λ j h l. elim (dec_lt a j) [
      | yes p ↦ s.before j p l
      | no p ↦ let e : a ≡ j = omega arith in subst GoesOn e g
    ];
  }

  abbrev Sound : ℕ → ℕ → Call → Type 0
  Sound left a c =
      (r : ChatResponse) → c.reply ≡ response r → (k : ℕ) × (k ≤ a + left) × SucceedsAt a k r

  Sound-here :
      (left a : ℕ) (w : List ℕ) (q : ChatResponse)
      → do_once net a req ≡ success q
      → Sound left a (ended (response q) a w)
  Sound-here left a w q e r h = (a, omega arith, SucceedsAt-here a r (ground (arith, e, h)))

  Sound-failed : (left a : ℕ) (w : List ℕ) (f : Failure) → Sound left a (ended (failed f) a w)
  Sound-failed left a w f r h = absurd (cc h)

  rounds-Sound : (left a b : ℕ) (w : List ℕ) → Sound left a (rounds net req left a b w)
  unfolding rounds
  rounds-Sound zero a b w =
      after_cases (Sound zero a) a w (net.context_over a) (do_once net a req)
        (ended (failed exhausted) a w) (Sound-here zero a w) (Sound-failed zero a w rejected)
        (λ e o. Sound-failed zero a w exhausted)
  rounds-Sound (suc left) a b w =
      let go = rounds net req left (suc a) (b * 2) (w ++ b ∷ []) in
      after_cases (Sound (suc left) a) a w (net.context_over a) (do_once net a req)
        (wait (net.over_in_wait (suc a)) a w go) (Sound-here (suc left) a w)
        (Sound-failed (suc left) a w rejected)
        (λ e o.
          wait_cases (Sound (suc left) a) a w (net.over_in_wait (suc a)) go
            (Sound-failed (suc left) a w cancelled)
            (λ f r h.
              let (k, m, s) = rounds-Sound left (suc a) (b * 2) (w ++ b ∷ []) r h in
              (
                k,
                omega arith,
                SucceedsAt-later a k r (record { transient = e; context_live = o; waited = f }) s,
              )))

  SucceedsAt-next : (a k : ℕ) (r : ChatResponse) → a < k → SucceedsAt a k r → SucceedsAt (suc a) k r
  SucceedsAt-next a k r l s = record {
    from_start = l;
    answered = s.answered;
    before = λ j h m. s.before j (omega arith) m;
  }

  rounds_complete :
      (left a b : ℕ) (w : List ℕ) (k : ℕ) (r : ChatResponse)
      → k ≤ a + left
      → SucceedsAt a k r
      → (rounds net req left a b w).reply ≡ response r
  unfolding rounds
  rounds_complete zero a b w k r m s =
      let e : k ≡ a = omega (arith, s.from_start) in
      rw (subst (λ n. do_once net n req ≡ success r) e s.answered)
  rounds_complete (suc left) a b w k r m s = elim (dec_lt a k) [
    | yes l ↦
        let g = s.before a (omega arith) l in
        rw (g.transient, g.context_live, g.waited)
          (rounds_complete left (suc a) (b * 2) (w ++ b ∷ []) k r (omega arith)
            (SucceedsAt-next a k r l s))
    | no l ↦
        let e : k ≡ a = omega (arith, s.from_start) in
        rw (subst (λ n. do_once net n req ≡ success r) e s.answered)
  ]

-- A call makes between one and `max_retries + 1` attempts, and waits between them, first for the base
-- backoff and then each time twice as long.
pub attempts_bounded :
    (c : Client) (net : Network) (base_url api_key : Str) (req : ChatRequest)
    → ((chat_completion_at c net base_url api_key req).attempts ≤ c.max_retries + 1)
      × (1 ≤ (chat_completion_at c net base_url api_key req).attempts)
      × ((chat_completion_at c net base_url api_key req).waits
          ≡ doubling c.base_backoff ((chat_completion_at c net base_url api_key req).attempts - 1))
unfolding chat_completion_at
attempts_bounded c net base_url api_key req =
    let p = rounds-Paced net (sent c base_url api_key req) c.max_retries 0 c.base_backoff [] in
    (
      omega (arith, p.counted, p.within),
      omega (arith, p.counted),
      p.doubled ∙ ap (doubling c.base_backoff) (omega (arith, p.counted)),
    )

-- A call answers with a response exactly when some attempt within the limit gets that response and
-- each attempt before it failed transiently, with the context live then and in the wait after it.
pub response_iff :
    (c : Client) (net : Network) (base_url api_key : Str) (req : ChatRequest) (r : ChatResponse)
    → ((chat_completion_at c net base_url api_key req).reply ≡ response r)
      ↔ ((k : ℕ) × (k ≤ c.max_retries) × SucceedsAt net (sent c base_url api_key req) 0 k r)
unfolding chat_completion_at
response_iff c net base_url api_key req r = (
  λ h.
      let (k, m, s) =
        rounds-Sound net (sent c base_url api_key req) c.max_retries 0 c.base_backoff [] r h in
      (k, omega arith, s),
  λ (k, m, s).
      rounds_complete net (sent c base_url api_key req) c.max_retries 0 c.base_backoff [] k r
        (omega arith) s,
)
