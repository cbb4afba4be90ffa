-- ===== src/Runtime/Serve.antt =====
-- The loop of `IPCServer.start` (kernel/runtime.py), on what happens to its socket in order, and
-- which messages it survives.
use terminal_agent.Base.{
  ℕ, ◌+◌, ◌≡◌, ◌∙◌, refl, ap, String, Option, List, [], ◌∷◌, ◌++◌, length, arith,
}
use mathlib.Core.List.{append-nil}
use terminal_agent.Value.{Value}
use terminal_agent.Runtime.{Browser}
use terminal_agent.Runtime.Sandbox.{Parsed, Ended}
use terminal_agent.Runtime.Ipc.{
  Request, run, validate, unknown, malformed, foreign, request_of, Outcome, answered, raised,
  unmodelled, respond, handle_connection,
}

pub data Event : Type 0 where
  -- `accept` finds no connection for a second
  timeout : Event
  -- a connection with the text that is sent over it, and how long its run takes
  connection : (duration : ℕ) → (sent : String) → Event
  -- `stop` is called
  stop : Event

pub data Ending : Type 0 where
  serving stopped crashed unknown_ending : Ending

-- how the loop goes on, the texts that it has sent, and the kernel
abbrev pub Served : Type 0
Served = Ending × List String × Browser

abbrev pub sent_first : String → Served → Served
sent_first reply (ending, replies, b) = (ending, reply ∷ replies, b)

-- how the loop goes on after a connection
abbrev pub after_connection : (Value → String) → (Browser → Served) → Outcome × Browser → Served
after_connection dumps next (answered v, b) = sent_first (dumps v) (next b)
after_connection dumps next (raised, b) = (crashed, [], b)
after_connection dumps next (unmodelled, b) = (unknown_ending, [], b)

module _ (parse : String → Parsed) (exec : String → Browser → Ended × Browser) (limit : String)
    (format : Value → String) (loads : String → Option Value) (dumps : Value → String)
    (recv : String → String) where
  unfoldable pub serve : List Event → Browser → Served
  unfolding handle_connection
  serve [] b = (serving, [], b)
  serve (timeout ∷ events) b = serve events b
  serve (stop ∷ events) b = (stopped, [], b)
  serve (connection duration sent ∷ events) b =
      after_connection dumps (serve events)
        (handle_connection parse exec limit format loads dumps recv duration sent b)

  -- a request that is answered
  abbrev pub IsAnswered : Request → Type 0
  IsAnswered (run code principal) = Unit
  IsAnswered (validate code) = Unit
  IsAnswered (unknown method) = Unit
  IsAnswered malformed = ⊥
  IsAnswered foreign = ⊥

  -- the loop goes on, and each message is a request that is answered
  abbrev pub AreRequests : List Event → Type 0
  AreRequests [] = Unit
  AreRequests (timeout ∷ events) = AreRequests events
  AreRequests (connection duration sent ∷ events) =
      IsAnswered (request_of (loads (recv sent))) × AreRequests events
  AreRequests (stop ∷ events) = ⊥

  -- the messages among the events
  abbrev pub messages : List Event → ℕ
  messages [] = 0
  messages (timeout ∷ events) = messages events
  messages (connection duration sent ∷ events) = 1 + messages events
  messages (stop ∷ events) = messages events

  respond-answered :
      (duration : ℕ) (request : Request) (b : Browser)
      → IsAnswered request
      → (v : Value) × (after : Browser) × (respond parse exec limit format duration request b
          ≡ (answered v, after))
  unfolding respond
  respond-answered duration (run code principal) b h = (_, _, refl)
  respond-answered duration (validate code) b h = (_, _, refl)
  respond-answered duration (unknown method) b h = (_, _, refl)
  respond-answered duration malformed b h = elim h [ ]
  respond-answered duration foreign b h = elim h [ ]

  -- what the loop has done after some events, however it goes on
  pub record IsServing (events : List Event) (b : Browser) : Type 0 where
    pub replies : List String
    pub after : Browser
    pub one_each : length replies ≡ messages events
    pub served : serve events b ≡ (serving, replies, after)
    pub goes_on :
        (later : List Event)
        → serve (events ++ later) b
          ≡ ((serve later after).0, replies ++ (serve later after).1, (serve later after).2)

  -- As long as each message is a request that is answered and stop is not called, the server goes
  -- on: it has sent one reply for each message, and what comes later is served as by a server that
  -- starts on the kernel as it is then.
  pub serve-IsServing :
      (events : List Event) (b : Browser) → AreRequests events → IsServing events b
  unfolding serve
  serve-IsServing [] b h = record {
    replies = [];
    after = b;
    one_each = refl;
    served = refl;
    goes_on = λ later. refl;
  }
  serve-IsServing (timeout ∷ events) b h =
      let rest = serve-IsServing events b h in
      record {
        replies = rest.replies;
        after = rest.after;
        one_each = rest.one_each;
        served = rest.served;
        goes_on = rest.goes_on;
      }
  serve-IsServing (connection duration sent ∷ events) b h =
      let (v, after, e) = respond-answered duration (request_of (loads (recv sent))) b h.0 in
      let rest = serve-IsServing events after h.1 in
      record {
        replies = dumps v ∷ rest.replies;
        after = rest.after;
        one_each = omega (arith, rest.one_each);
        served =
            ap (after_connection dumps (serve events)) e ∙ ap (sent_first (dumps v)) rest.served;
        goes_on = λ later.
            ap (after_connection dumps (serve (events ++ later))) e
            ∙ ap (sent_first (dumps v)) (rest.goes_on later);
      }
  serve-IsServing (stop ∷ events) b h = elim h [ ]

  -- a message that is no request ends the loop
  serve-malformed :
      (b : Browser) (duration : ℕ) (sent : String) (later : List Event)
      → request_of (loads (recv sent)) ≡ malformed
      → serve (connection duration sent ∷ later) b ≡ (crashed, [], b)
  unfolding serve respond
  serve-malformed b duration sent later e =
      ap
        (λ (r : Request).
          after_connection dumps (serve later) (respond parse exec limit format duration r b))
        e

  -- After messages that are requests that are answered, with timeouts between them, a message that
  -- cannot be read as a request ends the server with an exception: the replies and the kernel are
  -- those from before, whatever connections come later.
  pub serve-crashed :
      (events : List Event) (b : Browser) (duration : ℕ) (sent : String) (later : List Event)
      → AreRequests events
      → request_of (loads (recv sent)) ≡ malformed
      → serve (events ++ connection duration sent ∷ later) b
        ≡ (crashed, (serve events b).1, (serve events b).2)
  serve-crashed events b duration sent later h e =
      let s = serve-IsServing events b h in
      s.goes_on (connection duration sent ∷ later)
      ∙ ap (λ (r : Served). (r.0, s.replies ++ r.1, r.2))
          (serve-malformed s.after duration sent later e)
      ∙ rw (s.served, append-nil) refl
