-- ===== src/Wiring/Calls.antt =====
-- Which calls a program makes, whatever the answers.
pub mod Loops
pub mod Nodes
pub mod Advanced
pub mod Cluster
pub mod Pool
pub mod Whole
use autodeploy_web.Base.{Text}
use autodeploy_web.Wiring.Program.{
  Call, Response, Answer, ok, err, Program, ret, fail, call, ◌>>=◌, ◌>>◌, returned, ask, attempt,
  wrap, finally_logout, logout,
}
use autodeploy_web.Wiring.Guarded.{Monitor, Guarded, Leads}

module _ (P : Call → Type 0) where
  unfoldable pub Each : {A : Type 0} → Program A → Type 0
  Each (ret a) = Unit
  Each (fail e) = Unit
  Each (call c k) = P c × ((r : Answer (Response c)) → Each (k r))

  pub record Only {A : Type 0} (p : Program A) : Type 0 where
    pub each : Each p

module _ {P : Call → Type 0} where
  pub ret-Only : {A : Type 0} (a : A) → Only P (ret a)
  unfolding Each
  ret-Only a = record { each = tt }

  pub fail-Only : {A : Type 0} (e : Text) → Only P {A = A} (fail e)
  unfolding Each
  fail-Only e = record { each = tt }

  pub call-Only :
      {A : Type 0} (c : Call) (k : Answer (Response c) → Program A)
      → P c
      → ((r : Answer (Response c)) → Only P (k r))
      → Only P (call c k)
  unfolding Each
  call-Only c k p h = record { each = (p, λ r. (h r).each) }

  pub ask-Only : (c : Call) → P c → Only P (ask c)
  unfolding ask
  ask-Only c p = call-Only c returned p leaf
    where
      leaf : (r : Answer (Response c)) → Only P (returned r)
      leaf (ok a) = ret-Only a
      leaf (err e) = fail-Only e

  pub bind-Only :
      {A B : Type 0} {p : Program A} {f : A → Program B}
      → Only P p
      → ((a : A) → Only P (f a))
      → Only P (p >>= f)
  unfolding Each ◌>>=◌
  bind-Only {p = p} {f = f} g h = go p g
    where
      go : (q : Program _) → Only P q → Only P (q >>= f)
      go (ret a) g' = h a
      go (fail e) g' = fail-Only e
      go (call c k) g' =
          call-Only c (λ r. k r >>= f) g'.each.0 (λ r. go (k r) (record { each = g'.each.1 r }))

  pub then-Only :
      {A B : Type 0} {p : Program A} {q : Program B} → Only P p → Only P q → Only P (p >> q)
  unfolding ◌>>◌
  then-Only g h = bind-Only g (λ _. h)

  attempt_lem : {A : Type 0} (p : Program A) → Only P p → Only P (attempt p)
  unfolding Each attempt
  attempt_lem (ret a) g = ret-Only _
  attempt_lem (fail e) g = ret-Only _
  attempt_lem (call c k) g =
      call-Only c (λ r. attempt (k r)) g.each.0
        (λ r. attempt_lem (k r) (record { each = g.each.1 r }))

  pub attempt-Only : {A : Type 0} {p : Program A} → Only P p → Only P (attempt p)
  attempt-Only {p = p} g = attempt_lem p g

  wrap_lem : {A : Type 0} (l : Text) (p : Program A) → Only P p → Only P (wrap l p)
  unfolding Each wrap
  wrap_lem l (ret a) g = ret-Only a
  wrap_lem l (fail e) g = fail-Only _
  wrap_lem l (call c k) g =
      call-Only c (λ r. wrap l (k r)) g.each.0
        (λ r. wrap_lem l (k r) (record { each = g.each.1 r }))

  pub wrap-Only : {A : Type 0} {p : Program A} (l : Text) → Only P p → Only P (wrap l p)
  wrap-Only {p = p} l g = wrap_lem l p g

  finally_lem : {A : Type 0} (p : Program A) → P logout → Only P p → Only P (finally_logout p)
  unfolding Each finally_logout
  finally_lem (ret a) l g = call-Only logout _ l (λ _. ret-Only a)
  finally_lem (fail e) l g = call-Only logout _ l (λ _. fail-Only e)
  finally_lem (call c k) l g =
      call-Only c (λ r. finally_logout (k r)) g.each.0
        (λ r. finally_lem (k r) l (record { each = g.each.1 r }))

  pub finally_logout-Only :
      {A : Type 0} {p : Program A} → P logout → Only P p → Only P (finally_logout p)
  finally_logout-Only {p = p} l g = finally_lem p l g

  -- A program whose error is read: its two outcomes go on on their own.
  pub cases-Only :
      {A B : Type 0} {p : Program A} (f : Answer A → Program B)
      → Only P p
      → ((a : A) → Only P (f (ok a)))
      → ((e : Text) → Only P (f (err e)))
      → Only P (attempt p >>= f)
  cases-Only {A} {B} {p} f k g h = bind-Only (attempt-Only k) both
    where
      both : (r : Answer A) → Only P (f r)
      both (ok a) = g a
      both (err e) = h e

pub imp-Only :
    {P Q : Call → Type 0} {A : Type 0} (p : Program A)
    → ((c : Call) → P c → Q c)
    → Only P p
    → Only Q p
unfolding Each
imp-Only (ret a) h o = ret-Only a
imp-Only (fail e) h o = fail-Only e
imp-Only (call c k) h o =
    call-Only c k (h c o.each.0) (λ r. imp-Only (k r) h (record { each = o.each.1 r }))

module _ {S : Type 0} (m : Monitor S) (I : S → Type 0) where
  -- A call that is allowed while `I` holds, and keeps it.
  abbrev pub Fine : Call → Type 0
  Fine c = (s : S) → I s → m.Allowed s c × ((r : Answer (Response c)) → I (m.next s c r))

  -- A program of such calls keeps the invariant.
  pub Only-Guarded :
      {A : Type 0} (p : Program A) (s : S)
      → Only Fine p
      → I s
      → Guarded m (λ t _. I t) (λ t _. I t) p s
  unfolding Each Leads
  Only-Guarded (ret a) s g i = record { leads = i }
  Only-Guarded (fail e) s g i = record { leads = i }
  Only-Guarded (call c k) s g i = record {
    leads = (
      (g.each.0 s i).0,
      λ r.
          (Only-Guarded (k r) (m.next s c r) (record { each = g.each.1 r })
            ((g.each.0 s i).1 r)).leads,
    );
  }
