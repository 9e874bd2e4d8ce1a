-- ===== src/Session/Examples.antt =====
-- Concrete sessions (runtime/src/session.rs).
use openab_pty.Base.{
  List, ◌+◌, ◌-◌, ◌*◌, ◌≤◌, ◌<◌, ◌≡◌, ◌≢◌, refl, true, false, none, some, [], ◌∷◌, ◌++◌, arith,
  length, codes,
}
use openab_pty.Crate.{Result, ok, SessionName}
use openab_pty.CapProxy.Inspect.{process}
use openab_pty.Scan.{run, scan}
use openab_pty.RingBuf.Scrollback.{contiguous, read_since}
use openab_pty.Session.Policy.{WindowSize, default_size, default_policy}
use openab_pty.Session.Takeover.{allow}
use openab_pty.Session.Handle.{
  Session, fresh, evicted, write_input, writer_turn, on_output, proxied,
}
use openab_pty.Session.Handle.Fence.{view, IsFenced}
use openab_pty.Session.Attach.{attach_locked, attach_deliver, own, won}
use openab_pty.Session.Attach.Steps.{
  Step, attach_step, write_step, output_step, perform, performs, performs-IsFenced, displaced_write,
  displaced_chunk,
}
use openab_pty.Session.Takeover.Budget.{done, later}
use openab_pty.Session.Attach.Takeovers.{
  attach_times, takes_over, takeovers_granted, takeovers_bound,
}
use openab_pty.Session.Attach.Handoff.{buffered, attempt, deliver_to, handoff, handoff_race}

abbrev name_one : SessionName
name_one = codes "one"

abbrev accept : WindowSize → Result WindowSize
accept size = ok size

-- A new session, and the same with its first connection.
abbrev new_session : Session
new_session = fresh name_one 1 default_size 0 64 false false 3

abbrev attached : Session
attached =
    performs length accept true default_policy new_session (attach_step 1 default_size none 5 ∷ [])

abbrev second_attach : Step
second_attach = attach_step 1 default_size none 9

attached-IsFenced : IsFenced (view attached)
attached-IsFenced =
    performs-IsFenced length accept true default_policy name_one 1 default_size 0 64 false false 3
      (attach_step 1 default_size none 5 ∷ [])

performs-IsFenced_example : IsFenced (
    view (
      performs length accept true default_policy new_session
        (attach_step 1 default_size none 5 ∷ write_step 1 6 (b'l' ∷ []) ∷ [])))
performs-IsFenced_example =
    performs-IsFenced length accept true default_policy name_one 1 default_size 0 64 false false 3
      (attach_step 1 default_size none 5 ∷ write_step 1 6 (b'l' ∷ []) ∷ [])

attached_pings : (attached.missed_pings ≡ 0) × (attached.missed_ping_limit ≡ 3)
unfolding perform performs fresh attach_locked own allow default_policy
attached_pings = (refl, refl)

attached_owner : attached.owner_conn ≡ 1
unfolding perform performs fresh attach_locked own allow default_policy
attached_owner = refl

taken_over : (perform length accept true default_policy attached second_attach).owner_conn ≡ 2
unfolding perform performs fresh attach_locked own allow default_policy
taken_over = refl

owner_changes :
    (perform length accept true default_policy attached second_attach).owner_conn
    ≢ attached.owner_conn
owner_changes e = let a = attached_owner in let t = taken_over in omega arith

owner_positive : 0 < attached.owner_conn
owner_positive = let a = attached_owner in omega arith

displaced_write_example :
    write_input
      (performs length accept true default_policy
        (perform length accept true default_policy attached second_attach)
        (output_step 10 (b'x' ∷ []) ∷ []))
      attached.owner_conn
      11
      (b'l' ∷ [])
    ≡ (
      evicted,
      performs length accept true default_policy
          (perform length accept true default_policy attached second_attach)
          (output_step 10 (b'x' ∷ []) ∷ []),
    )
displaced_write_example =
    displaced_write length accept true default_policy attached second_attach
      (output_step 10 (b'x' ∷ []) ∷ []) attached-IsFenced owner_positive owner_changes 11
      (b'l' ∷ [])

-- The first connection has written a byte that the writer thread has not met yet.
abbrev typed : Session
typed = performs length accept true default_policy attached (write_step 1 6 (b'l' ∷ []) ∷ [])

typed-IsFenced : IsFenced (view typed)
unfolding performs perform
typed-IsFenced =
    performs-IsFenced length accept true default_policy name_one 1 default_size 0 64 false false 3
      (attach_step 1 default_size none 5 ∷ write_step 1 6 (b'l' ∷ []) ∷ [])

typed_facts :
    (typed.owner_conn ≡ 1)
    × ((perform length accept true default_policy typed second_attach).owner_conn ≡ 2)
    × ((performs length accept true default_policy
          (perform length accept true default_policy typed second_attach)
          []).input
        ≡ record { conn = typed.owner_conn; bytes = b'l' ∷ []; runtime_originated = false } ∷ [])
unfolding perform performs fresh attach_locked own allow default_policy write_input
typed_facts = (refl, refl, refl)

displaced_chunk_example :
    (writer_turn (
      performs length accept true default_policy
        (perform length accept true default_policy typed second_attach)
        [])).0
    ≡ none
displaced_chunk_example =
    displaced_chunk length accept true default_policy typed second_attach [] typed-IsFenced
      (omega (arith, typed_facts)) (λ e. omega (arith, typed_facts, e)) (b'l' ∷ []) [] typed_facts.2

-- A client that comes back at offset 2 of "hello".
abbrev printed : Session
printed = record new_session {
  buffer = record { buf = codes "hello"; capacity = 65_536; written = 5; dropped = 0 };
}

printed-IsFenced : IsFenced (view printed)
unfolding view fresh
printed-IsFenced = ground arith

resumes :
    (attempt length true default_policy printed 1 default_size
      (some 2)
      9
      1
      5
      5
      none
      (codes "llo")
      (codes "!")).0
    ≡ won 1 5 none (some (contiguous (codes "llo") 5))
unfolding fresh attach_locked own allow default_policy read_since
resumes = refl

sent_length :
    length
      (proxied
        (deliver_to length true default_policy printed 1 default_size
          (some 2)
          9
          1
          5
          5
          none
          (codes "llo")
          (codes "!")
          (attempt length true default_policy printed 1 default_size
            (some 2)
            9
            1
            5
            5
            none
            (codes "llo")
            (codes "!")).1)
        (codes "!")).0
    ≡ 1
unfolding fresh attach_locked own allow default_policy read_since proxied attach_deliver process run
    scan
sent_length = refl

room : (printed.backlog_bounds.capacity_bytes ≡ 262_144)
unfolding fresh
room = refl

handoff_example :
    buffered 1 (
      on_output
        (deliver_to length true default_policy printed 1 default_size
          (some 2)
          9
          1
          5
          5
          none
          (codes "llo")
          (codes "!")
          (attempt length true default_policy printed 1 default_size
            (some 2)
            9
            1
            5
            5
            none
            (codes "llo")
            (codes "!")).1)
        9
        (codes "!"))
    ≡ some (
        codes "llo"
        ++ (proxied
            (deliver_to length true default_policy printed 1 default_size
              (some 2)
              9
              1
              5
              5
              none
              (codes "llo")
              (codes "!")
              (attempt length true default_policy printed 1 default_size
                (some 2)
                9
                1
                5
                5
                none
                (codes "llo")
                (codes "!")).1)
            (codes "!")).0)
handoff_example =
    handoff length true default_policy printed 1 default_size (some 2) 9 1 5 5 none (codes "llo")
      (codes "!") printed-IsFenced resumes (omega (arith, room)) (omega (arith, room))
      (omega (arith, room, sent_length))

live_length :
    length
      (proxied
        (attempt length true default_policy printed 1 default_size
          (some 2)
          9
          1
          5
          5
          none
          (codes "llo")
          (codes "!")).1
        (codes "!")).0
    ≡ 1
unfolding fresh attach_locked own allow default_policy read_since proxied process run scan
live_length = refl

handoff_race_example :
    buffered 1 (
      deliver_to length true default_policy printed 1 default_size
        (some 2)
        9
        1
        5
        5
        none
        (codes "llo")
        (codes "!")
        (on_output
          (attempt length true default_policy printed 1 default_size
            (some 2)
            9
            1
            5
            5
            none
            (codes "llo")
            (codes "!")).1
          9
          (codes "!")))
    ≡ some (
        (proxied
          (attempt length true default_policy printed 1 default_size
            (some 2)
            9
            1
            5
            5
            none
            (codes "llo")
            (codes "!")).1
          (codes "!")).0
        ++ codes "llo")
handoff_race_example =
    handoff_race length true default_policy printed 1 default_size (some 2) 9 1 5 5 none
      (codes "llo") (codes "!") printed-IsFenced resumes (omega (arith, room)) (omega (arith, room))
      (omega (arith, room, live_length))

-- Three connections in a row: the second and the third take the session over.
abbrev rivals : List Step
rivals =
    attach_step 1 default_size none 5
    ∷ output_step 6 (codes "hi")
    ∷ attach_step 1 default_size none 9
    ∷ attach_step 1 default_size none 12
    ∷ []

rivals_counted : takeovers_granted length accept true default_policy new_session rivals ≡ 2
unfolding takeovers_granted takes_over perform fresh attach_locked own allow default_policy
    on_output process run
rivals_counted = refl

takeovers_bound_example :
    takeovers_granted length accept true default_policy new_session rivals
      * default_policy.takeover_window
    ≤ default_policy.max_takeovers_per_window * ((20 - 0) + default_policy.takeover_window)
unfolding attach_times
takeovers_bound_example =
    takeovers_bound length accept true default_policy name_one 1 default_size 0 64 false false 3
      rivals 20
      (later (omega arith) (later (omega arith) (later (omega arith) (done (omega arith)))))
