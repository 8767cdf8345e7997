-- ===== src/Veeam/Sessions/Finished.antt =====
-- What the end of a wait for a session says, and how many requests it takes.
use autodeploy_web.Base.{
  ℕ, zero, suc, ◌+◌, ◌*◌, ◌≤◌, true, false, List, Option, none, some, Text, text, text_eq, ◌≡◌,
  refl, length, arith, ◌||◌, ◌++◌,
}
use autodeploy_web.Veeam.{
  Config, Request, Response, ok, err, Answer, Outside, Client, Result, and_then, decoded,
  is_success, do_request, no_body,
}
use autodeploy_web.Veeam.Attempts.{Answers, exchange-Answers, exchange-Bounded}
use autodeploy_web.Veeam.Calls.{SessionModel, Library}
use autodeploy_web.Veeam.Sessions.{verdict, poll_session, wait_session}

-- A session that has ended and not failed.
pub record Completed (s : SessionModel) : Type 0 where
  pub not_failed : text_eq s.result (text "Failed") ≡ false
  pub over :
      (text_eq s.result (text "Success") || text_eq s.result (text "Warning"))
        || text_eq s.state (text "Stopped")
      ≡ true

verdict-Completed : (id : Text) (s : SessionModel) → verdict id s ≡ some (ok tt) → Completed s
unfolding verdict
verdict-Completed id s h = record { not_failed = ground arith; over = ground arith }

module _ (cfg : Config) (world : Outside) (lib : Library) where
  -- The answer to the last request sent: a success that tells of a session that has ended and not failed.
  pub record LastSaysOver (sent : List Request) : Type 0 where
    pub answer : Response
    pub session : SessionModel
    pub replied : world.reply sent ≡ ok answer
    pub success : is_success answer ≡ true
    pub tells : lib.decode_session answer ≡ ok session
    pub completed : Completed session

  decoded-ok :
      (m p : Text) (r : Response) (s : SessionModel)
      → decoded cfg world m p lib.decode_session r ≡ ok s
      → (is_success r ≡ true) × (lib.decode_session r ≡ ok s)
  unfolding decoded
  decoded-ok m p r s h = ground arith

  -- How a poll comes out.
  data Polled (c : Client) : Result SessionModel → Type 0 where
    poll_failed : (e : Text) (d : Client) → length d.sent ≤ length c.sent + 3 → Polled c (err e, d)
    told :
        (s : SessionModel) (d : Client)
        → length d.sent ≤ length c.sent + 3
        → (Completed s → LastSaysOver d.sent)
        → Polled c (ok s, d)

  poll_session-Polled : (id : Text) (c : Client) → Polled c (poll_session cfg world lib id c)
  unfolding poll_session do_request Answers
  poll_session-Polled id c =
      by_result _ (exchange-Bounded cfg world (text "GET") (path id) no_body (decode id) c)
        (exchange-Answers cfg world 1 (text "GET") (path id) no_body (decode id) c)
    where
      path : Text → Text
      path i = text "/api/v1/sessions/" ++ lib.path_escape i

      decode : Text → Response → Answer SessionModel
      decode i = decoded cfg world (text "GET") (path i) lib.decode_session

      by_result :
          (x : Result SessionModel)
          → length x.1.sent ≤ length c.sent + 3
          → Answers cfg world (decode id) x
          → Polled c x
      by_result (err e, d) b a = poll_failed e d b
      by_result (ok s, d) b a =
          let k = decoded-ok (text "GET") (path id) a.answer s a.handled in
          told s d b (λ m. record {
            answer = a.answer;
            session = s;
            replied = a.replied;
            success = k.0;
            tells = k.1;
            completed = m;
          })

  -- What a wait comes to, that sends at most so many requests.
  pub data Waited (most : ℕ) : Result (Unit {0}) → Type 0 where
    given_up : (e : Text) (d : Client) → length d.sent ≤ most → Waited most (err e, d)
    finished : (d : Client) → length d.sent ≤ most → LastSaysOver d.sent → Waited most (ok tt, d)

  Waited-mono : {k m : ℕ} {x : Result (Unit {0})} → k ≤ m → Waited k x → Waited m x
  Waited-mono l (given_up e d b) = given_up e d (omega arith)
  Waited-mono l (finished d b o) = finished d (omega arith) o

  verdict-Waited :
      (id : Text) (s : SessionModel) (d : Client) (most : ℕ) (v : Answer (Unit {0}))
      → verdict id s ≡ some v
      → length d.sent ≤ most
      → (Completed s → LastSaysOver d.sent)
      → Waited most (v, d)
  verdict-Waited id s d most (ok tt) h b o = finished d b (o (verdict-Completed id s h))
  verdict-Waited id s d most (err e) h b o = given_up e d b

  -- The wait for a session ends after at most three requests for each poll before its deadline and
  -- three for the last, and returns without an error only when the last answer is a success that
  -- tells of a session that has ended and not failed.
  pub wait_session-Waited :
      (ended : List Request → Option Text) (timeout id : Text) (n : ℕ) (c : Client)
      → Waited (length c.sent + 3 * suc n) (wait_session cfg world lib ended timeout id n c)
  unfolding wait_session and_then
  wait_session-Waited ended timeout id zero c =
      by_poll (poll_session cfg world lib id c) refl (poll_session-Polled id c)
    where
      by_verdict :
          (s : SessionModel) (d : Client)
          → poll_session cfg world lib id c ≡ (ok s, d)
          → length d.sent ≤ length c.sent + 3
          → (Completed s → LastSaysOver d.sent)
          → (o : Option (Answer (Unit {0}))) → verdict id s ≡ o
          → Waited (length c.sent + 3 * 1) (wait_session cfg world lib ended timeout id 0 c)
      by_verdict s d p b l (some v) h =
          rw (wait_session, p, and_then, h) (verdict-Waited id s d _ v h (omega arith) l)
      by_verdict s d p b l none h = rw (wait_session, p, and_then, h) (given_up _ d (omega arith))

      by_poll :
          (x : Result SessionModel)
          → poll_session cfg world lib id c ≡ x
          → Polled c x
          → Waited (length c.sent + 3 * 1) (wait_session cfg world lib ended timeout id 0 c)
      by_poll _ p (poll_failed e d b) = rw (wait_session, p, and_then) (given_up e d (omega arith))
      by_poll _ p (told s d b l) = by_verdict s d p b l (verdict id s) refl
  wait_session-Waited ended timeout id (suc n) c =
      by_poll (poll_session cfg world lib id c) refl (poll_session-Polled id c)
        (λ d. wait_session-Waited ended timeout id n d)
    where
      Goal : Type 0
      Goal =
          Waited (length c.sent + 3 * suc (suc n))
            (wait_session cfg world lib ended timeout id (suc n) c)

      by_context :
          (s : SessionModel) (d : Client)
          → poll_session cfg world lib id c ≡ (ok s, d)
          → length d.sent ≤ length c.sent + 3
          → verdict id s ≡ none
          → Waited (length d.sent + 3 * suc n) (wait_session cfg world lib ended timeout id n d)
          → (o : Option Text) → ended d.sent ≡ o
          → Goal
      by_context s d p b h w (some e) k =
          rw (wait_session, p, and_then, h, k) (given_up e d (omega arith))
      by_context s d p b h w none k =
          rw (wait_session, p, and_then, h, k) (Waited-mono (omega arith) w)

      by_verdict :
          (s : SessionModel) (d : Client)
          → poll_session cfg world lib id c ≡ (ok s, d)
          → length d.sent ≤ length c.sent + 3
          → (Completed s → LastSaysOver d.sent)
          → Waited (length d.sent + 3 * suc n) (wait_session cfg world lib ended timeout id n d)
          → (o : Option (Answer (Unit {0}))) → verdict id s ≡ o
          → Goal
      by_verdict s d p b l w (some v) h =
          rw (wait_session, p, and_then, h) (verdict-Waited id s d _ v h (omega arith) l)
      by_verdict s d p b l w none h = by_context s d p b h w (ended d.sent) refl

      by_poll :
          (x : Result SessionModel)
          → poll_session cfg world lib id c ≡ x
          → Polled c x
          → ((d : Client)
              → Waited
                  (length d.sent + 3 * suc n)
                  (wait_session cfg world lib ended timeout id n d))
          → Goal
      by_poll _ p (poll_failed e d b) w =
          rw (wait_session, p, and_then) (given_up e d (omega arith))
      by_poll _ p (told s d b l) w = by_verdict s d p b l (w d) (verdict id s) refl
