-- ===== src/Fanout/Handles.antt =====
-- No channel is closed twice, and none loses its identity: the handles of the open and the closed
-- channels are all different, whatever is called.
use mathlib.Core.Path.{subst, subst₂}
use mathlib.Core.List.{Permᴰ, map-append}
use mathlib.Core.List.Permᴰ
use autodeploy_web.Base.Registry.Laws.{All-perm, All-imp}
use autodeploy_web.Base.{
  ℕ, suc, ◌<◌, ◌≡◌, ◌≢◌, refl, sym, ◌∙◌, List, [], ◌∷◌, ◌++◌, map, append_assoc, arith, Text, ◌==◌,
  ℤ, inl, inr, Bool-cases, Option-cases, All, some, Option,
}
use autodeploy_web.Fanout.{
  Chan, Fanout, channel_size, send, emit, append_line, subscribe, new, detach, cancel, close_subs,
}

-- The calls that a log and its viewers make.
pub data Call : Type 0 where
  append : Text → Call
  emits : Text → Call
  subscribes : ℤ → Call
  cancels : ℕ → Call
  closes : Call

pub call : Call → Fanout → Fanout
call (append l) f = append_line l f
call (emits l) f = emit l f
call (subscribes buf) f = (subscribe buf f).2
call (cancels h) f = cancel h f
call closes f = close_subs f

unfoldable pub calls : List Call → Fanout → Fanout
unfolding call
calls [] f = f
calls (c ∷ cs) f = calls cs (call c f)

abbrev handles_of : List Chan → List ℕ
handles_of = map (λ (c : Chan). c.handle)

abbrev pub handles : Fanout → List ℕ
handles f = handles_of f.subs ++ handles_of f.closed

abbrev pub Differ : List ℕ → Type 0
Differ [] = Unit
Differ (x ∷ xs) = All (λ y. x ≢ y) xs × Differ xs

-- Every handle was given out, and no two channels share one.
pub record Inv (f : Fanout) : Type 0 where
  pub differ : Differ (handles f)
  pub given : All (λ h. h < f.next) (handles f)

Differ-perm : {xs ys : List ℕ} → Permᴰ xs ys → Differ xs → Differ ys
Differ-perm Permᴰ.nil d = tt
Differ-perm (Permᴰ.cons {a} {b} {l₁ = l} e p) d =
    (All-perm (λ y. b ≢ y) p (subst (λ (c : ℕ). All (λ y. c ≢ y) l) e d.0), Differ-perm p d.1)
Differ-perm (Permᴰ.swap {a} {b} {l = l} e f) d = (
  ((λ q. d.0.0 (e ∙ sym q ∙ sym f)), subst (λ (c : ℕ). All (λ y. c ≢ y) l) f d.1.0),
  (subst (λ (c : ℕ). All (λ y. c ≢ y) l) e d.0.1, d.1.1),
)
Differ-perm (Permᴰ.trans p q) d = Differ-perm q (Differ-perm p d)

handles-send : (line : Text) (cs : List Chan) → handles_of (map (send line) cs) ≡ handles_of cs
unfolding send
handles-send line [] = refl
handles-send line (c ∷ cs) = ground (arith, handles-send line cs)

fresh_differ : (n : ℕ) (xs : List ℕ) → All (λ h. h < n) xs → All (λ y. n ≢ y) xs
fresh_differ n xs h = All-imp xs (λ y lt. omega arith) h

detach-perm :
    (h : ℕ) (cs : List Chan) (c : Chan) (rest : List Chan)
    → detach h cs ≡ some (c, rest)
    → Permᴰ (handles_of cs) (c.handle ∷ handles_of rest)
unfolding detach
detach-perm h [] c rest e = cc
detach-perm h (x ∷ cs) c rest e = elim (Bool-cases (x.handle == h)) [
  | inl hit ↦
      let found : ◌≡◌ {A = Option (Chan × List Chan)} (some (x, cs)) (some (c, rest)) =
        rw hit at e in
      let p : x ≡ c = ground arith in
      let q : cs ≡ rest = ground arith in
      subst₂ (λ (d : Chan) (l : List Chan). Permᴰ (handles_of (x ∷ cs)) (d.handle ∷ handles_of l)) p
        q (Permᴰ.refl _)
  | inr miss ↦ elim (Option-cases (detach h cs)) [
    | inl absent ↦ absurd (ground arith)
    | inr ((d, l), found) ↦
        let p : d ≡ c = ground arith in
        let q : x ∷ l ≡ rest = ground arith in
        subst₂ (λ (b : Chan) (m : List Chan). Permᴰ (handles_of (x ∷ cs)) (b.handle ∷ handles_of m))
          p q (Permᴰ.trans (Permᴰ.cons refl (detach-perm h cs d l found)) (Permᴰ.swap refl refl))
  ]
]

emit-Inv : (line : Text) (f : Fanout) → Inv f → Inv (emit line f)
unfolding emit
emit-Inv line f v = record {
  differ = rw (handles-send line f.subs) v.differ;
  given = rw (handles-send line f.subs) v.given;
}

subscribe-Inv : (buf : ℤ) (f : Fanout) → Inv f → Inv (subscribe buf f).2
unfolding subscribe
subscribe-Inv buf f v = record {
  differ = Differ-perm (Permᴰ.symm moved) (fresh_differ f.next (handles f) v.given, v.differ);
  given =
      All-perm (λ h. h < suc f.next) (Permᴰ.symm moved)
        (omega arith, All-imp (handles f) (λ h lt. omega arith) v.given);
}
  where
    new_chan : Chan
    new_chan = record { handle = f.next; capacity = channel_size buf; queue = [] }

    moved : Permᴰ (handles_of (f.subs ++ new_chan ∷ []) ++ handles_of f.closed) (f.next ∷ handles f)
    moved =
        rw (map-append (λ (c : Chan). c.handle) f.subs (new_chan ∷ []), append_assoc)
          (Permᴰ.middle f.next (handles_of f.subs) (handles_of f.closed))

detached :
    (f : Fanout) (c : Chan) (rest : List Chan)
    → Permᴰ (handles_of f.subs) (c.handle ∷ handles_of rest)
    → Inv f
    → Inv (record f { subs = rest; closed = c ∷ f.closed })
detached f c rest p v = record {
  differ = Differ-perm moved v.differ;
  given = All-perm _ moved v.given;
}
  where
    moved : Permᴰ (handles f) (handles_of rest ++ c.handle ∷ handles_of f.closed)
    moved =
        Permᴰ.trans (Permᴰ.append_right (handles_of f.closed) p)
          (Permᴰ.symm (Permᴰ.middle c.handle (handles_of rest) (handles_of f.closed)))

cancel-Inv : (h : ℕ) (f : Fanout) → Inv f → Inv (cancel h f)
unfolding cancel
cancel-Inv h f v = elim (Option-cases (detach h f.subs)) [
  | inl e ↦ rw (e, cancel) v
  | inr ((c, rest), e) ↦ rw (e, cancel) (detached f c rest (detach-perm h f.subs c rest e) v)
]

close_subs-Inv : (f : Fanout) → Inv f → Inv (close_subs f)
unfolding close_subs
close_subs-Inv f v = record {
  differ = rw (map-append (λ (c : Chan). c.handle) f.subs f.closed) v.differ;
  given = rw (map-append (λ (c : Chan). c.handle) f.subs f.closed) v.given;
}

-- One step for each call.
call-Inv : (c : Call) (f : Fanout) → Inv f → Inv (call c f)
unfolding call append_line
call-Inv (append l) f v = emit-Inv l _ (record { differ = v.differ; given = v.given })
call-Inv (emits l) f v = emit-Inv l f v
call-Inv (subscribes buf) f v = subscribe-Inv buf f v
call-Inv (cancels h) f v = cancel-Inv h f v
call-Inv closes f v = close_subs-Inv f v

calls-Inv : (cs : List Call) (f : Fanout) → Inv f → Inv (calls cs f)
unfolding calls
calls-Inv [] f v = v
calls-Inv (c ∷ cs) f v = calls-Inv cs (call c f) (call-Inv c f v)

new-Inv : (lines : List Text) → Inv (new lines)
unfolding new
new-Inv lines = record { differ = tt; given = tt }

-- After any calls on a new log, the handles of its open and its closed channels are all different.
pub calls-Differ : (lines : List Text) (cs : List Call) → Differ (handles (calls cs (new lines)))
calls-Differ lines cs = (calls-Inv cs (new lines) (new-Inv lines)).differ
