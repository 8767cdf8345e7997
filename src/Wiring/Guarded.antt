-- ===== src/Wiring/Guarded.antt =====
-- What holds of every run of a program, whatever the answers: a monitor follows the calls, `P`
-- holds of each call in the monitor's state, `Q` of a result and `E` of an error.
use autodeploy_web.Base.{Text, ◌++◌}
use autodeploy_web.Wiring.Program.{
  Call, Response, Answer, ok, err, Program, ret, fail, call, ◌>>=◌, ◌>>◌, returned, ask, attempt,
  wrap,
}

pub record Monitor (S : Type 0) : Type 1 where
  pub next : S → (c : Call) → Answer (Response c) → S
  pub Allowed : S → Call → Type 0

unfoldable pub Leads :
    {S A : Type 0} → Monitor S → (S → A → Type 0) → (S → Text → Type 0) → Program A → S → Type 0
Leads m Q E (ret a) s = Q s a
Leads m Q E (fail e) s = E s e
Leads m Q E (call c k) s =
    m.Allowed s c × ((r : Answer (Response c)) → Leads m Q E (k r) (m.next s c r))

-- The same as a record, so that its arguments are read off a goal.
pub record Guarded {S A : Type 0} (m : Monitor S) (Q : S → A → Type 0) (E : S → Text → Type 0)
    (p : Program A) (s : S) : Type 0 where
  pub leads : Leads m Q E p s

module _ {S : Type 0} {m : Monitor S} where
  pub ret-Guarded :
      {A : Type 0} {Q : S → A → Type 0} {E : S → Text → Type 0} (a : A) (s : S)
      → Q s a
      → Guarded m Q E (ret a) s
  unfolding Leads
  ret-Guarded a s q = record { leads = q }

  pub fail-Guarded :
      {A : Type 0} {Q : S → A → Type 0} {E : S → Text → Type 0} (e : Text) (s : S)
      → E s e
      → Guarded m Q E (fail e) s
  unfolding Leads
  fail-Guarded e s q = record { leads = q }

  pub call-Guarded :
      {A : Type 0} {Q : S → A → Type 0} {E : S → Text → Type 0} (c : Call)
      (k : Answer (Response c) → Program A) (s : S)
      → m.Allowed s c
      → ((r : Answer (Response c)) → Guarded m Q E (k r) (m.next s c r))
      → Guarded m Q E (call c k) s
  unfolding Leads
  call-Guarded c k s a h = record { leads = (a, λ r. (h r).leads) }

  pub bind-Guarded :
      {A B : Type 0} {R : S → A → Type 0} {Q : S → B → Type 0} {E : S → Text → Type 0}
      (p : Program A) (f : A → Program B) (s : S)
      → Guarded m R E p s
      → ((t : S) (a : A) → R t a → Guarded m Q E (f a) t)
      → Guarded m Q E (p >>= f) s
  unfolding Leads ◌>>=◌
  bind-Guarded (ret a) f s g h = h s a g.leads
  bind-Guarded (fail e) f s g h = record { leads = g.leads }
  bind-Guarded (call c k) f s g h = record {
    leads = (
      g.leads.0,
      λ r. (bind-Guarded (k r) f (m.next s c r) (record { leads = g.leads.1 r }) h).leads,
    );
  }

  pub then-Guarded :
      {A B : Type 0} {R : S → A → Type 0} {Q : S → B → Type 0} {E : S → Text → Type 0}
      (p : Program A) (q : Program B) (s : S)
      → Guarded m R E p s
      → ((t : S) (a : A) → R t a → Guarded m Q E q t)
      → Guarded m Q E (p >> q) s
  unfolding ◌>>◌
  then-Guarded p q s g h = bind-Guarded p (λ _. q) s g h

  pub ask-Guarded :
      (c : Call) (s : S) {Q : S → Response c → Type 0} {E : S → Text → Type 0}
      → m.Allowed s c
      → ((a : Response c) → Q (m.next s c (ok a)) a)
      → ((e : Text) → E (m.next s c (err e)) e)
      → Guarded m Q E (ask c) s
  unfolding ask
  ask-Guarded c s {Q} {E} g h i = call-Guarded c returned s g leaf
    where
      leaf : (r : Answer (Response c)) → Guarded m Q E (returned r) (m.next s c r)
      leaf (ok a) = ret-Guarded a _ (h a)
      leaf (err e) = fail-Guarded e _ (i e)

  pub attempt-Guarded :
      {A : Type 0} {R : S → A → Type 0} {Q : S → Answer A → Type 0} {F E : S → Text → Type 0}
      (p : Program A) (s : S)
      → Guarded m R F p s
      → ((t : S) (a : A) → R t a → Q t (ok a))
      → ((t : S) (e : Text) → F t e → Q t (err e))
      → Guarded m Q E (attempt p) s
  unfolding Leads attempt
  attempt-Guarded (ret a) s g h i = record { leads = h s a g.leads }
  attempt-Guarded (fail e) s g h i = record { leads = i s e g.leads }
  attempt-Guarded (call c k) s g h i = record {
    leads = (
      g.leads.0,
      λ r. (attempt-Guarded (k r) (m.next s c r) (record { leads = g.leads.1 r }) h i).leads,
    );
  }

  pub cases-Guarded :
      {A B : Type 0} {R : S → A → Type 0} {Q : S → B → Type 0} {F E : S → Text → Type 0}
      (p : Program A) (f : Answer A → Program B) (s : S)
      → Guarded m R F p s
      → ((t : S) (a : A) → R t a → Guarded m Q E (f (ok a)) t)
      → ((t : S) (e : Text) → F t e → Guarded m Q E (f (err e)) t)
      → Guarded m Q E (attempt p >>= f) s
  unfolding Leads attempt ◌>>=◌
  cases-Guarded (ret a) f s g h i = h s a g.leads
  cases-Guarded (fail e) f s g h i = i s e g.leads
  cases-Guarded (call c k) f s g h i = record {
    leads = (
      g.leads.0,
      λ r. (cases-Guarded (k r) f (m.next s c r) (record { leads = g.leads.1 r }) h i).leads,
    );
  }

  pub wrap-Guarded :
      {A : Type 0} {Q : S → A → Type 0} {F E : S → Text → Type 0} (l : Text) (p : Program A) (s : S)
      → Guarded m Q F p s
      → ((t : S) (e : Text) → F t e → E t (l ++ e))
      → Guarded m Q E (wrap l p) s
  unfolding Leads wrap
  wrap-Guarded l (ret a) s g h = record { leads = g.leads }
  wrap-Guarded l (fail e) s g h = record { leads = h s e g.leads }
  wrap-Guarded l (call c k) s g h = record {
    leads = (
      g.leads.0,
      λ r. (wrap-Guarded l (k r) (m.next s c r) (record { leads = g.leads.1 r }) h).leads,
    );
  }

  pub weaken-Guarded :
      {A : Type 0} {R Q : S → A → Type 0} {F E : S → Text → Type 0} (p : Program A) (s : S)
      → Guarded m R F p s
      → ((t : S) (a : A) → R t a → Q t a)
      → ((t : S) (e : Text) → F t e → E t e)
      → Guarded m Q E p s
  unfolding Leads
  weaken-Guarded (ret a) s g h i = record { leads = h s a g.leads }
  weaken-Guarded (fail e) s g h i = record { leads = i s e g.leads }
  weaken-Guarded (call c k) s g h i = record {
    leads = (
      g.leads.0,
      λ r. (weaken-Guarded (k r) (m.next s c r) (record { leads = g.leads.1 r }) h i).leads,
    );
  }

  pub both-Guarded :
      {A : Type 0} {Q R : S → A → Type 0} {E : S → Text → Type 0} (p : Program A) (s : S)
      → Guarded m Q E p s
      → Guarded m R E p s
      → Guarded m (λ t a. Q t a × R t a) E p s
  unfolding Leads
  both-Guarded (ret a) s g h = record { leads = (g.leads, h.leads) }
  both-Guarded (fail e) s g h = record { leads = g.leads }
  both-Guarded (call c k) s g h = record {
    leads = (
      g.leads.0,
      λ r.
          (both-Guarded (k r) (m.next s c r) (record { leads = g.leads.1 r })
            (record { leads = h.leads.1 r })).leads,
    );
  }
