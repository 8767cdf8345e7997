-- ===== src/Veeam/Attempts.antt =====
-- The requests that one call of the client sends.
use mathlib.Core.Path.{subst}
use autodeploy_web.Base.{
  ℕ, zero, suc, Bool, true, false, List, [], ◌∷◌, Option, none, some, Text, text, text_eq, length,
  is_empty, ◌+◌, ◌≤◌, arith, ◌≡◌, refl, sym, ap, ◌∙◌, ◌⊎◌, inl, inr,
}
use autodeploy_web.Veeam.{
  Config, Body, Request, Response, ok, err, Answer, Outside, Client, Result, and_then, prefixed,
  send, token_request, accept_token, is_success, authenticate, reauthenticate, request, asks_token,
  exchange,
}

module _ (cfg : Config) (world : Outside) where
  -- The request `q` was the last one sent, and its answer asks for a new token.
  pub record Rejected (q : Request) (sent : List Request) : Type 0 where
    pub answer : Response
    pub replied : world.reply (q ∷ sent) ≡ ok answer
    pub asks : asks_token cfg world answer ≡ true

  -- The answer to a sign-in after the requests `sent` is a success that gives the token `t`.
  pub record Granted (t : Text) (sent : List Request) : Type 0 where
    pub answer : Response
    pub replied : world.reply (token_request cfg world ∷ sent) ≡ ok answer
    pub success : is_success answer ≡ true
    pub decoded : world.decode_token answer ≡ ok t
    pub nonempty : is_empty t ≡ false

  -- What a call sends for the request that `q` writes with a token: nothing, once, or twice. The second
  -- time comes after a rejection, with the token that the answer to the sign-in in between decodes to,
  -- or with the one that other goroutines have left, which is not the rejected one.
  pub data Attempts (q : Text → Request) (token : Text) (before : List Request)
      : List Request → Type 0 where
    unsent : Attempts q token before before
    once : Attempts q token before (q token ∷ before)
    not_again :
        Rejected (q token) before
        → Attempts q token before (token_request cfg world ∷ q token ∷ before)
    again_shared :
        (t : Text)
        → Rejected (q token) before
        → t ≡ world.stored (q token ∷ before) token
        → text_eq t token ≡ false
        → Attempts q token before (q t ∷ q token ∷ before)
    again_signed_in :
        (t : Text)
        → Rejected (q token) before
        → Granted t (q token ∷ before)
        → Attempts q token before (q t ∷ token_request cfg world ∷ q token ∷ before)

  -- How sending a request comes out.
  pub data Sent (q : Request) (c : Client) : Type 0 where
    unsent : (e : Text) → send cfg world q c ≡ (err e, c) → Sent q c
    lost : (e : Text) → send cfg world q c ≡ (err e, record c { sent = q ∷ c.sent }) → Sent q c
    answered :
        (r : Response)
        → world.reply (q ∷ c.sent) ≡ ok r
        → send cfg world q c ≡ (ok r, record c { sent = q ∷ c.sent })
        → Sent q c

  pub send-Sent : (q : Request) (c : Client) → Sent q c
  unfolding send
  send-Sent q c = by_address (world.new_request q.url) refl
    where
      by_reply :
          (a : Answer Response)
          → world.reply (q ∷ c.sent) ≡ a
          → world.new_request q.url ≡ none
          → Sent q c
      by_reply (ok r) h n = answered r h (rw (send, n, h) refl)
      by_reply (err e) h n = lost e (rw (send, n, h) refl)

      by_address : (o : Option Text) → world.new_request q.url ≡ o → Sent q c
      by_address none n = by_reply (world.reply (q ∷ c.sent)) refl n
      by_address (some e) n = unsent e (rw (send, n) refl)

  accept_token-sent : (r : Response) (c : Client) → (accept_token cfg world r c).1.sent ≡ c.sent
  unfolding accept_token
  accept_token-sent r c = by_status (is_success r) refl
    where
      by_token :
          (a : Answer Text)
          → world.decode_token r ≡ a
          → is_success r ≡ true
          → (accept_token cfg world r c).1.sent ≡ c.sent
      by_token (err e) d h = rw (h, d) refl
      by_token (ok []) d h = rw (h, d) refl
      by_token (ok (x ∷ t)) d h = rw (h, d) refl

      by_status : (b : Bool) → is_success r ≡ b → (accept_token cfg world r c).1.sent ≡ c.sent
      by_status false h = rw h refl
      by_status true h = by_token (world.decode_token r) refl h

  -- A token that a sign-in has left comes from its answer.
  unfoldable pub Accepts : Response → Result (Unit {0}) → Type 0
  Accepts r (ok _, d) =
      (is_success r ≡ true) × (world.decode_token r ≡ ok d.token) × (is_empty d.token ≡ false)
  Accepts r (err e, d) = Unit {0}

  accept_token-Accepts : (r : Response) (c : Client) → Accepts r (accept_token cfg world r c)
  unfolding accept_token Accepts
  accept_token-Accepts r c = by_status (is_success r) refl
    where
      by_token :
          (a : Answer Text)
          → world.decode_token r ≡ a
          → is_success r ≡ true
          → Accepts r (accept_token cfg world r c)
      by_token (err e) d h = rw (h, d) tt
      by_token (ok []) d h = rw (h, d) tt
      by_token (ok (x ∷ t)) d h = rw (h, d) (h, d, refl)

      by_status : (b : Bool) → is_success r ≡ b → Accepts r (accept_token cfg world r c)
      by_status false h = rw h tt
      by_status true h = by_token (world.decode_token r) refl h

  -- How a renewal of the token `stale` ends, by a client that holds the token `held`.
  pub data Renewed (stale held : Text) (before : List Request) : Result (Unit {0}) → Type 0 where
    address_refused :
        (e : Text) (c : Client) → c.sent ≡ before → Renewed stale held before (err e, c)
    refused :
        (e : Text) (c : Client)
        → c.sent ≡ token_request cfg world ∷ before
        → Renewed stale held before (err e, c)
    shared :
        (c : Client)
        → c.sent ≡ before
        → c.token ≡ world.stored before held
        → text_eq c.token stale ≡ false
        → Renewed stale held before (ok tt, c)
    signed_in :
        (c : Client)
        → c.sent ≡ token_request cfg world ∷ before
        → Granted c.token before
        → Renewed stale held before (ok tt, c)

  authenticate-Renewed :
      (stale held : Text) (c : Client) → Renewed stale held c.sent (authenticate cfg world c)
  unfolding authenticate and_then Accepts
  authenticate-Renewed stale held c = elim (send-Sent (token_request cfg world) c) [
    | unsent e h ↦ rw h (address_refused e c refl)
    | lost e h ↦ rw h (refused e _ refl)
    | answered r a h ↦ rw h (by_token r a _ refl (accept_token-Accepts r sent_on))
  ]
    where
      sent_on : Client
      sent_on = record c { sent = token_request cfg world ∷ c.sent }

      by_token :
          (r : Response)
          → world.reply (token_request cfg world ∷ c.sent) ≡ ok r
          → (x : Result (Unit {0})) → accept_token cfg world r sent_on ≡ x
          → Accepts r (accept_token cfg world r sent_on)
          → Renewed stale held c.sent (accept_token cfg world r sent_on)
      by_token r a (ok tt, d) h g =
          let s = ap (λ x. x.1.sent) (sym h) ∙ accept_token-sent r sent_on in
          let k : Accepts r (ok tt, d) = subst (Accepts r) h g in
          rw h (
            signed_in d s
              (record { answer = r; replied = a; success = k.0; decoded = k.1; nonempty = k.2 }))
      by_token r a (err e, d) h g =
          let s = ap (λ x. x.1.sent) (sym h) ∙ accept_token-sent r sent_on in rw h (refused e d s)

  pub reauthenticate-Renewed :
      (stale : Text) (c : Client) → Renewed stale c.token c.sent (reauthenticate cfg world stale c)
  unfolding reauthenticate
  reauthenticate-Renewed stale c = by_token (text_eq (world.stored c.sent c.token) stale) refl
    where
      by_token :
          (b : Bool)
          → text_eq (world.stored c.sent c.token) stale ≡ b
          → Renewed stale c.token c.sent (reauthenticate cfg world stale c)
      by_token true h = rw (reauthenticate, h) (authenticate-Renewed stale c.token _)
      by_token false h = rw (reauthenticate, h) (shared _ refl refl h)

  -- A second attempt with the token `t` comes after the requests `before`.
  pub exchange_zero-sent :
      {A : Type 0} (m p : Text) (b : Body) (f : Response → Answer A) (c : Client)
      → ((exchange cfg world 0 m p b f c).1.sent ≡ c.sent)
        ⊎ ((exchange cfg world 0 m p b f c).1.sent ≡ request cfg world m p b c ∷ c.sent)
  unfolding exchange and_then
  exchange_zero-sent m p b f c = elim (send-Sent (request cfg world m p b c) c) [
    | unsent e h ↦ inl (rw h refl)
    | lost e h ↦ inr (rw h refl)
    | answered r a h ↦ inr (rw h refl)
  ]

  pub exchange-Attempts :
      {A : Type 0} (m p : Text) (b : Body) (f : Response → Answer A) (c : Client)
      → Attempts
          (λ t. request cfg world m p b (record c { token = t }))
          c.token
          c.sent
          (exchange cfg world 1 m p b f c).1.sent
  unfolding exchange and_then prefixed
  exchange-Attempts {A} m p b f c = elim (send-Sent (q c.token) c) [
    | unsent e h ↦ rw h unsent
    | lost e h ↦ rw h once
    | answered r a h ↦ by_answer r a h (asks_token cfg world r) refl
  ]
    where
      q : Text → Request
      q t = request cfg world m p b (record c { token = t })

      sent_on : Client
      sent_on = record c { sent = q c.token ∷ c.sent }

      next : Result (Unit {0}) → Result A
      next x =
          and_then (prefixed (text "veeam: re-authenticate after 401: ") x)
            (λ _ c''. exchange cfg world 0 m p b f c'')

      by_renewal :
          Rejected (q c.token) c.sent
          → (x : Result (Unit {0})) → Renewed c.token c.token (q c.token ∷ c.sent) x
          → Attempts q c.token c.sent (next x).1.sent
      by_renewal j _ (address_refused e d s) = rw s once
      by_renewal j _ (refused e d s) = rw s (not_again j)
      by_renewal j _ (shared d s l n) = elim (exchange_zero-sent m p b f d) [
        | inl u ↦ rw (u, s) once
        | inr u ↦ rw (u, s) (again_shared d.token j l n)
      ]
      by_renewal j _ (signed_in d s g) = elim (exchange_zero-sent m p b f d) [
        | inl u ↦ rw (u, s) (not_again j)
        | inr u ↦ rw (u, s) (again_signed_in d.token j g)
      ]

      by_answer :
          (r : Response)
          → world.reply (q c.token ∷ c.sent) ≡ ok r
          → send cfg world (q c.token) c ≡ (ok r, sent_on)
          → (o : Bool) → asks_token cfg world r ≡ o
          → Attempts q c.token c.sent (exchange cfg world 1 m p b f c).1.sent
      by_answer r a s false h = rw (exchange, s, and_then, h) once
      by_answer r a s true h =
          rw (exchange, s, and_then, h)
            (by_renewal (record { answer = r; replied = a; asks = h })
              (reauthenticate cfg world c.token sent_on) (reauthenticate-Renewed c.token sent_on))

  pub exchange-Bounded :
      {A : Type 0} (m p : Text) (b : Body) (f : Response → Answer A) (c : Client)
      → length (exchange cfg world 1 m p b f c).1.sent ≤ length c.sent + 3
  exchange-Bounded m p b f c = by_attempts (exchange-Attempts m p b f c)
    where
      by_attempts :
          {s : List Request}
          → Attempts (λ t. request cfg world m p b (record c { token = t })) c.token c.sent s
          → length s ≤ length c.sent + 3
      by_attempts unsent = omega arith
      by_attempts once = omega arith
      by_attempts (not_again _) = omega arith
      by_attempts (again_shared _ _ _ _) = omega arith
      by_attempts (again_signed_in _ _ _) = omega arith

  -- The answer to the request sent last, and what was made of it.
  pub record Answered {A : Type 0} (f : Response → Answer A) (a : A) (sent : List Request)
      : Type 0 where
    pub answer : Response
    pub replied : world.reply sent ≡ ok answer
    pub handled : f answer ≡ ok a

  unfoldable pub Answers : {A : Type 0} → (Response → Answer A) → Result A → Type 0
  Answers f (ok a, d) = Answered f a d.sent
  Answers f (err e, d) = Unit {0}

  handled-Answers :
      {A : Type 0} (f : Response → Answer A) (r : Response) (d : Client)
      → world.reply d.sent ≡ ok r
      → (x : Answer A) → f r ≡ x
      → Answers f (x, d)
  unfolding Answers
  handled-Answers f r d a (ok v) h = record { answer = r; replied = a; handled = h }
  handled-Answers f r d a (err e) h = tt

  -- A result comes from the answer to the request that was sent last.
  pub exchange-Answers :
      {A : Type 0} (n : ℕ) (m p : Text) (b : Body) (f : Response → Answer A) (c : Client)
      → Answers f (exchange cfg world n m p b f c)
  unfolding exchange and_then prefixed Answers
  exchange-Answers zero m p b f c = elim (send-Sent (request cfg world m p b c) c) [
    | unsent e h ↦ rw h tt
    | lost e h ↦ rw h tt
    | answered r a h ↦ rw h (handled-Answers f r _ a (f r) refl)
  ]
  exchange-Answers {A} (suc k) m p b f c = elim (send-Sent (request cfg world m p b c) c) [
    | unsent e h ↦ rw h tt
    | lost e h ↦ rw h tt
    | answered r a h ↦
        by_answer r _ a h (λ d. exchange-Answers k m p b f d) (asks_token cfg world r) refl
  ]
    where
      by_renewal :
          ((d : Client) → Answers f (exchange cfg world k m p b f d))
          → (x : Result (Unit {0}))
          → Answers f (
              and_then
                (prefixed (text "veeam: re-authenticate after 401: ") x)
                (λ _ d. exchange cfg world k m p b f d))
      by_renewal again (err e, d) = tt
      by_renewal again (ok _, d) = again d

      by_answer :
          (r : Response) (d : Client)
          → world.reply d.sent ≡ ok r
          → send cfg world (request cfg world m p b c) c ≡ (ok r, d)
          → ((e : Client) → Answers f (exchange cfg world k m p b f e))
          → (o : Bool) → asks_token cfg world r ≡ o
          → Answers f (exchange cfg world (suc k) m p b f c)
      by_answer r d a s again false h =
          rw (exchange, s, and_then, h) (handled-Answers f r d a (f r) refl)
      by_answer r d a s again true h = rw (exchange, s, and_then, h) (by_renewal again _)
