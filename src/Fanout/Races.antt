-- ===== src/Fanout/Races.antt =====
-- `AppendLine` of internal/deploy/deploy.go in its real steps: under the mutex it stores the line
-- and copies the list of subscribers, and after the unlock it sends to each copied channel, while
-- other goroutines may call a cancel function. Sending on a closed channel panics in Go, also
-- inside a `select` with a default.
use mathlib.Core.Path.{subst}
use mathlib.Core.List.{map-append}
use autodeploy_web.Base.{
  ℕ, sym, append_assoc, All-append, All-append_left, All-append_right, ◌≡◌, ◌≢◌, refl, ap, ◌∙◌,
  List, [], ◌∷◌, ◌++◌, map, arith, Text, ◌==◌, if◌then◌else◌, any, Bool, true, false, All,
}
use autodeploy_web.Fanout.Handles.{Inv, Differ}
use autodeploy_web.Fanout.{
  Chan, Fanout, max_buffered_lines, push_line, send, append_line, detach, cancel,
}

-- A delivery under way: the line, and the handles of the copied channels not yet sent to.
pub record Delivery : Type 0 where
  pub line : Text
  pub waiting : List ℕ

pub record Racing : Type 0 where
  pub fan : Fanout
  pub panicked : Bool

abbrev pub is_closed : ℕ → Fanout → Bool
is_closed h f = any (λ (c : Chan). c.handle == h) f.closed

send_to : ℕ → Text → Chan → Chan
send_to h line c = if c.handle == h then send line c else c

-- Under the mutex: the line is stored and the subscribers are copied.
pub lock_append : Text → Fanout → Fanout × List ℕ
lock_append line f = (
  record f { lines = push_line max_buffered_lines line f.lines },
  map (λ (c : Chan). c.handle) f.subs,
)

-- One send of the loop after the unlock. A panic ends the process.
pub deliver : Text → ℕ → Racing → Racing
unfolding send_to
deliver line h r =
    if r.panicked
    then r
    else if is_closed h r.fan
    then record r { panicked = true }
    else record r { fan = record r.fan { subs = map (send_to h line) r.fan.subs } }

pub deliver_each : Text → List ℕ → Racing → Racing
unfolding deliver
deliver_each line [] r = r
deliver_each line (h ∷ hs) r = deliver_each line hs (deliver line h r)

panicked_stays :
    (line : Text) (hs : List ℕ) (r : Racing)
    → r.panicked ≡ true
    → (deliver_each line hs r).panicked ≡ true
unfolding deliver_each
panicked_stays line [] r p = p
panicked_stays line (h ∷ hs) r p = panicked_stays line hs (deliver line h r) (ground arith)

closed_panics :
    (line : Text) (h : ℕ) (hs : List ℕ) (f : Fanout)
    → is_closed h f ≡ true
    → (deliver_each line (h ∷ hs) (record { fan = f; panicked = false })).panicked ≡ true
unfolding deliver_each
closed_panics line h hs f e =
    panicked_stays line hs (deliver line h (record { fan = f; panicked = false })) (ground arith)

cancel_closes :
    (f : Fanout) (c : Chan) (cs : List Chan)
    → f.subs ≡ c ∷ cs
    → is_closed c.handle (cancel c.handle f) ≡ true
unfolding cancel detach
cancel_closes f c cs e = ground arith

-- When the first subscriber's cancel function runs between the unlock and the sends of a
-- deployment's AppendLine, which goes through a copy of the subscribers, the delivery panics,
-- whatever the other subscribers are.
pub cancel-deliver_panics :
    (line : Text) (f : Fanout) (c : Chan) (cs : List Chan)
    → f.subs ≡ c ∷ cs
    → (deliver_each line
        (lock_append line f).1
        (record { fan = cancel c.handle (lock_append line f).0; panicked = false })).panicked
      ≡ true
unfolding lock_append
cancel-deliver_panics line f c cs e =
    subst
      (λ (hs : List Chan).
        (deliver_each line (map (λ (d : Chan). d.handle) hs)
          (record { fan = cancel c.handle (lock_append line f).0; panicked = false })).panicked
        ≡ true)
      (sym e)
      (closed_panics line c.handle (map (λ (d : Chan). d.handle) cs)
        (cancel c.handle (lock_append line f).0) (cancel_closes (lock_append line f).0 c cs e))

module _ (line : Text) where
  send-handle : (c : Chan) → (send line c).handle ≡ c.handle
  unfolding send
  send-handle c = ground arith

  send_to_others :
      (h : ℕ) (cs : List Chan) → All (λ c. c.handle ≢ h) cs → map (send_to h line) cs ≡ cs
  unfolding send_to
  send_to_others h [] a = refl
  send_to_others h (c ∷ cs) a = ground (arith, send_to_others h cs a.1)

  send_to_self : (c : Chan) → send_to c.handle line c ≡ send line c
  unfolding send_to
  send_to_self c = ground arith

  others_of_map :
      (h : ℕ) (cs : List Chan)
      → All (λ y. h ≢ y) (map (λ (c : Chan). c.handle) cs)
      → All (λ c. c.handle ≢ h) cs
  others_of_map h [] a = tt
  others_of_map h (c ∷ cs) a = ((λ e. a.0 (sym e)), others_of_map h cs a.1)

  deliver_one :
      (zs : List Chan) (y : Chan) (ys : List Chan)
      → All (λ z. z.handle ≢ y.handle) zs
      → All (λ z. z.handle ≢ y.handle) ys
      → map (send_to y.handle line) (zs ++ y ∷ ys) ≡ (zs ++ send line y ∷ []) ++ ys
  deliver_one zs y ys a b =
      map-append (send_to y.handle line) zs (y ∷ ys)
      ∙ rw (send_to_others y.handle zs a, send_to_others y.handle ys b, send_to_self y)
          (sym (append_assoc zs (send line y ∷ []) ys))

  apart_next :
      (zs : List Chan) (y : Chan) (ys : List Chan)
      → All (λ w. All (λ z. z.handle ≢ w.handle) zs) ys
      → All (λ w. w.handle ≢ y.handle) ys
      → All (λ w. All (λ z. z.handle ≢ w.handle) (zs ++ send line y ∷ [])) ys
  apart_next zs y [] a b = tt
  apart_next zs y (w ∷ ys) a b = (
    All-append (λ z. z.handle ≢ w.handle) zs (send line y ∷ []) a.0
        ((λ e. b.0 (sym (sym (send-handle y) ∙ e))), tt),
    apart_next zs y ys a.1 b.1,
  )

  with_subs : Fanout → List Chan → Racing
  with_subs f cs = record { fan = record f { subs = cs }; panicked = false }

  deliver_open :
      (h : ℕ) (f : Fanout) (cs : List Chan)
      → is_closed h f ≡ false
      → deliver line h (record { fan = record f { subs = cs }; panicked = false })
        ≡ record { fan = record f { subs = map (send_to h line) cs }; panicked = false }
  unfolding deliver
  deliver_open h f cs o = ground arith

  deliver_rest :
      (ys zs : List Chan) (f : Fanout)
      → All (λ y. All (λ z. z.handle ≢ y.handle) zs) ys
      → Differ (map (λ (c : Chan). c.handle) ys)
      → All (λ y. is_closed y.handle f ≡ false) ys
      → deliver_each line
          (map (λ (c : Chan). c.handle) ys)
          (record { fan = record f { subs = zs ++ ys }; panicked = false })
        ≡ record { fan = record f { subs = zs ++ map (send line) ys }; panicked = false }
  unfolding deliver_each with_subs
  deliver_rest [] zs f apart d o = refl
  deliver_rest (y ∷ ys) zs f apart d o =
      let others = others_of_map y.handle ys d.0 in
      ap (deliver_each line (map (λ (c : Chan). c.handle) ys)) (
        deliver_open y.handle f (zs ++ y ∷ ys) o.0
        ∙ ap (with_subs f) (deliver_one zs y ys apart.0 others))
      ∙ (deliver_rest ys (zs ++ send line y ∷ []) f (apart_next zs y ys apart.1 others) d.1 o.1
          ∙ ap (with_subs f) (append_assoc zs (send line y ∷ []) (map (send line) ys)))

  none_apart : (ys : List Chan) → All (λ y. All {A = Chan} (λ z. z.handle ≢ y.handle) []) ys
  none_apart [] = tt
  none_apart (y ∷ ys) = (tt, none_apart ys)

  Differ-left : (xs ys : List ℕ) → Differ (xs ++ ys) → Differ xs
  Differ-left [] ys d = tt
  Differ-left (x ∷ xs) ys d = (All-append_left (λ y. x ≢ y) xs ys d.0, Differ-left xs ys d.1)

  not_closed :
      (h : ℕ) (cs : List Chan)
      → All (λ y. h ≢ y) (map (λ (c : Chan). c.handle) cs)
      → any (λ (c : Chan). c.handle == h) cs ≡ false
  not_closed h [] a = refl
  not_closed h (c ∷ cs) a = ground (arith, not_closed h cs a.1)

  open_not_closed :
      (xs cs : List Chan)
      → Differ (map (λ (c : Chan). c.handle) xs ++ map (λ (c : Chan). c.handle) cs)
      → All (λ y. any (λ (c : Chan). c.handle == y.handle) cs ≡ false) xs
  open_not_closed [] cs d = tt
  open_not_closed (x ∷ xs) cs d = (
    not_closed x.handle cs
        (All-append_right (λ y. x.handle ≢ y) (map (λ (c : Chan). c.handle) xs) _ d.0),
    open_not_closed xs cs d.1,
  )

  -- With distinct handles and no cancel between the unlock and the sends, the delivery never
  -- panics and comes to the same as appending the line in one step.
  pub deliver-append_line :
      (f : Fanout)
      → Inv f
      → deliver_each line
          (lock_append line f).1
          (record { fan = (lock_append line f).0; panicked = false })
        ≡ record { fan = append_line line f; panicked = false }
  unfolding lock_append append_line
  deliver-append_line f v =
      deliver_rest f.subs [] (lock_append line f).0 (none_apart f.subs)
        (Differ-left _ (map (λ (c : Chan). c.handle) f.closed) v.differ)
        (open_not_closed f.subs f.closed v.differ)
