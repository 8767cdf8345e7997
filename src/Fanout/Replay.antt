-- ===== src/Fanout/Replay.antt =====
-- What a subscriber sees: the history that it is given, and then what its channel holds.
use mathlib.Core.List.{map-id, map-map}
use autodeploy_web.Base.{
  sym, zero, ltb→lt, ℕ, suc, ◌+◌, ◌-◌, ◌≤◌, ◌<◌, ◌≡◌, refl, ap, ◌∙◌, List, [], ◌∷◌, ◌++◌,
  append_assoc, append-nil, map, arith, Text, ltb, if◌then◌else◌, inl, inr, Bool-cases, length,
  take, length-append, none, some, ◌==◌, Option, false, All, ℤ,
}
use autodeploy_web.Fanout.{
  Chan, Fanout, max_buffered_lines, channel_size, send, append_line, append_all, subscribe,
}
use autodeploy_web.Fanout.Ring.{last_lines}

-- What the channel with a handle holds.
unfoldable pub received : ℕ → List Chan → Option (List Text)
received h [] = none
received h (c ∷ cs) = if c.handle == h then some c.queue else received h cs

-- Sending a list of lines, one by one, to one channel that nobody reads.
send_all : List Text → Chan → Chan
send_all [] c = c
send_all (l ∷ ls) c = send_all ls (send l c)

send_all-full : (ls : List Text) (c : Chan) → c.capacity ≤ length c.queue → send_all ls c ≡ c
unfolding send_all send
send_all-full [] c h = refl
send_all-full (l ∷ ls) c h = ground (arith, send_all-full ls c h)

take-suc_room :
    (n m : ℕ) (l : Text) (ls : List Text)
    → m < n
    → take (n - m) (l ∷ ls) ≡ l ∷ take (n - (m + 1)) ls
take-suc_room n m l ls h = rw e
  where
    e : n - m ≡ suc (n - (m + 1))
    e = omega arith

take-nil : (n : ℕ) → take {A = Text} n [] ≡ []
take-nil zero = refl
take-nil (suc n) = refl

send-room :
    (l : Text) (c : Chan)
    → length c.queue < c.capacity
    → send l c ≡ record c { queue = c.queue ++ l ∷ [] }
unfolding send
send-room l c h = ground arith

send_all-room :
    (ls : List Text) (l : Text) (c : Chan)
    → length c.queue < c.capacity
    → (length (send l c).queue ≤ (send l c).capacity
        → (send_all ls (send l c)).queue
          ≡ (send l c).queue ++ take ((send l c).capacity - length (send l c).queue) ls)
    → (send_all ls (send l c)).queue ≡ c.queue ++ take (c.capacity - length c.queue) (l ∷ ls)
send_all-room ls l c h rest =
    rest (rw (send-room l c h) (omega (arith, length-append c.queue (l ∷ []))))
    ∙ rw (send-room l c h) (
        rw (length-append c.queue (l ∷ []), take-suc_room c.capacity (length c.queue) l ls h)
          (append_assoc c.queue (l ∷ []) _))

-- A channel that nobody reads holds what it held and then the first lines that fit.
send_all-queue :
    (ls : List Text) (c : Chan)
    → length c.queue ≤ c.capacity
    → (send_all ls c).queue ≡ c.queue ++ take (c.capacity - length c.queue) ls
unfolding send_all
send_all-queue [] c h = rw (take-nil (c.capacity - length c.queue)) (sym (append-nil c.queue))
send_all-queue (l ∷ ls) c h = elim (Bool-cases (ltb (length c.queue) c.capacity)) [
  | inl room ↦ send_all-room ls l c (ltb→lt _ _ room) (send_all-queue ls (send l c))
  | inr full ↦ rw (send_all-full (l ∷ ls) c (ground arith)) (full_queue full)
]
  where
    full_queue :
        ltb (length c.queue) c.capacity ≡ false
        → c.queue ≡ c.queue ++ take (c.capacity - length c.queue) (l ∷ ls)
    full_queue full = rw (no_room full) (sym (append-nil c.queue))
      where
        no_room : ltb (length c.queue) c.capacity ≡ false → c.capacity - length c.queue ≡ 0
        no_room f = ground arith

append_all-subs : (ls : List Text) (f : Fanout) → (append_all ls f).subs ≡ map (send_all ls) f.subs
unfolding append_all append_line send_all
append_all-subs [] f = sym (map-id f.subs)
append_all-subs (l ∷ ls) f =
    append_all-subs ls (append_line l f) ∙ map-map (send_all ls) (send l) f.subs

send_all-handle : (ls : List Text) (c : Chan) → (send_all ls c).handle ≡ c.handle
unfolding send_all send
send_all-handle [] c = refl
send_all-handle (l ∷ ls) c = ground (arith, send_all-handle ls (send l c))

received-last :
    (ls : List Text) (cs : List Chan) (c : Chan)
    → All (λ d. d.handle < c.handle) cs
    → received c.handle (map (send_all ls) (cs ++ c ∷ [])) ≡ some (send_all ls c).queue
unfolding received
received-last ls [] c h = ground (arith, send_all-handle ls c)
received-last ls (d ∷ cs) c h = ground (arith, send_all-handle ls d, received-last ls cs c h.1)

-- A viewer that subscribes after some lines were logged and does not read while others are logged
-- is given the last 5000 of the former as its history, and its channel then holds the first of the
-- latter, as many as its buffer takes; the handles in use are below the next one and the log holds
-- the last 5000 lines.
pub subscribe_replay :
    (buf : ℤ) (f : Fanout) (before ls : List Text)
    → All (λ c. c.handle < f.next) f.subs
    → f.lines ≡ last_lines max_buffered_lines before
    → ((subscribe buf f).0 ≡ last_lines max_buffered_lines before)
      × (received (subscribe buf f).1 (append_all ls (subscribe buf f).2).subs
          ≡ some (take (channel_size buf) ls))
unfolding subscribe
subscribe_replay buf f before ls h e = (
  e,
  ap (received f.next) (append_all-subs ls (subscribe buf f).2)
      ∙ received-last ls f.subs fresh h
      ∙ ap some (send_all-queue ls fresh (omega arith))
      ∙ ap (λ (k : ℕ). some (take k ls)) {x = channel_size buf - 0} (omega arith),
)
  where
    fresh : Chan
    fresh = record { handle = f.next; capacity = channel_size buf; queue = [] }
