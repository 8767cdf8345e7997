-- ===== src/Fanout.antt =====
-- The log of a job or a deployment and its live subscribers (internal/job/job.go `AppendLine`,
-- `Snapshot`, `Subscribe`, `closeSubs`). A channel has the handle that tells it from the others,
-- its capacity and what it holds; a closed channel stays readable. Each method is one step here,
-- since it holds the mutex; the delivery that runs after the unlock is told apart in
-- Fanout/Races.antt, for a deployment (internal/deploy/deploy.go), whose AppendLine copies the
-- subscribers. A job's goes through the array that `cancel` shifts, which these lists do not share.
pub mod Ring
pub mod Handles
pub mod Replay
pub mod Races
use autodeploy_web.Base.{
  ℕ, zero, suc, ◌+◌, Bool, List, [], ◌∷◌, ◌++◌, map, Option, none, some, Text, ltb, leb, ◌==◌,
  if◌then◌else◌, length, drop, ℤ, pos, pos_part, leb_ℤ,
}

abbrev pub max_buffered_lines : ℕ
max_buffered_lines = 5000

pub record Chan : Type 0 where
  pub handle : ℕ
  pub capacity : ℕ
  pub queue : List Text

pub record Fanout : Type 0 where
  pub lines : List Text
  pub subs : List Chan
  pub closed : List Chan
  pub next : ℕ

pub new : List Text → Fanout
new lines = record { lines = lines; subs = []; closed = []; next = 0 }

-- The ring buffer: a full one loses its oldest line first.
unfoldable pub push_line : ℕ → Text → List Text → List Text
push_line bound line lines = (if leb bound (length lines) then drop 1 lines else lines) ++ line ∷ []

-- A send that does not block: a full channel loses the line.
unfoldable pub send : Text → Chan → Chan
send line c =
    if ltb (length c.queue) c.capacity then record c { queue = c.queue ++ line ∷ [] } else c

unfoldable pub emit : Text → Fanout → Fanout
emit line f = record f { subs = map (send line) f.subs }

unfoldable pub append_line : Text → Fanout → Fanout
unfolding emit
append_line line f = emit line (record f { lines = push_line max_buffered_lines line f.lines })

unfoldable pub snapshot : Fanout → List Text
snapshot f = f.lines

abbrev pub default_buffer : ℕ
default_buffer = 64

abbrev pub channel_size : ℤ → ℕ
channel_size buf = if leb_ℤ buf (pos 0) then default_buffer else pos_part buf

-- The history, the new channel's handle, and the state with it registered.
unfoldable pub subscribe : ℤ → Fanout → List Text × ℕ × Fanout
subscribe buf f = (
  f.lines,
  f.next,
  record f {
    subs = f.subs ++ record { handle = f.next; capacity = channel_size buf; queue = [] } ∷ [];
    next = suc f.next;
  },
)

-- The first subscription with the handle, and the others in order.
unfoldable pub detach : ℕ → List Chan → Option (Chan × List Chan)
detach h [] = none
detach h (c ∷ cs) =
    if c.handle == h
    then some (c, cs)
    else elim (detach h cs) [ none ↦ none | some (d, rest) ↦ some (d, c ∷ rest) ]

-- The cancel function that `Subscribe` returns.
unfoldable pub cancel : ℕ → Fanout → Fanout
unfolding detach
cancel h f = elim (detach h f.subs) [
  | none ↦ f
  | some (c, rest) ↦ record f { subs = rest; closed = c ∷ f.closed }
]

unfoldable pub close_subs : Fanout → Fanout
close_subs f = record f { subs = []; closed = f.subs ++ f.closed }

unfoldable pub append_all : List Text → Fanout → Fanout
append_all [] f = f
append_all (l ∷ ls) f = append_all ls (append_line l f)
