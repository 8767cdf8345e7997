-- ===== src/Tests/Logs.antt =====
-- The logs and their subscribers at concrete inputs (internal/job/job.go, internal/deploy/deploy.go).
use autodeploy_web.Base.{
  ◌≡◌, ◌≤◌, refl, List, [], ◌∷◌, Text, text, true, false, some, take, length, pos, arith,
}
use autodeploy_web.Fanout.{
  Chan, Fanout, max_buffered_lines, channel_size, new, subscribe, cancel, append_all, append_line,
}
use autodeploy_web.Fanout.Ring.{last_lines, append_all-last_lines}
use autodeploy_web.Fanout.Replay.{received, subscribe_replay}
use autodeploy_web.Fanout.Handles.{Call, append, subscribes, cancels, closes, Inv}
use autodeploy_web.Fanout.Races.{
  lock_append, deliver_each, cancel-deliver_panics, deliver-append_line,
}

abbrev two_lines : List Text
two_lines = text "building" ∷ text "done" ∷ []

abbrev viewer : Chan
viewer = record { handle = 0; capacity = 2; queue = [] }

abbrev watched : Fanout
watched = record { lines = two_lines; subs = viewer ∷ []; closed = []; next = 1 }

abbrev some_calls : List Call
some_calls =
    subscribes (pos 2) ∷ append (text "building") ∷ subscribes (pos 0) ∷ cancels 0 ∷ closes ∷ []

append_all-last_lines_example :
    ((append_all two_lines (new [])).lines ≡ last_lines max_buffered_lines two_lines)
    × (length (append_all two_lines (new [])).lines ≤ max_buffered_lines)
append_all-last_lines_example = append_all-last_lines two_lines

subscribe_replay_example :
    ((subscribe (pos 2) watched).0 ≡ last_lines max_buffered_lines two_lines)
    × (received
          (subscribe (pos 2) watched).1
          (append_all two_lines (subscribe (pos 2) watched).2).subs
        ≡ some (take (channel_size (pos 2)) two_lines))
subscribe_replay_example =
    subscribe_replay (pos 2) watched two_lines two_lines (omega arith, tt) refl

cancel-deliver_panics_example :
    (deliver_each
      (text "late")
      (lock_append (text "late") watched).1
      (record { fan = cancel 0 (lock_append (text "late") watched).0; panicked = false })).panicked
    ≡ true
cancel-deliver_panics_example = cancel-deliver_panics (text "late") watched viewer [] refl

watched-Inv : Inv watched
watched-Inv = record { differ = (tt, tt); given = (omega arith, tt) }

deliver-append_line_example :
    deliver_each
      (text "late")
      (lock_append (text "late") watched).1
      (record { fan = (lock_append (text "late") watched).0; panicked = false })
    ≡ record { fan = append_line (text "late") watched; panicked = false }
deliver-append_line_example = deliver-append_line (text "late") watched watched-Inv
