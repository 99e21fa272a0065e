-- ===== src/Socket/Throwing.antt =====
-- The functions of the sockets that throw: each calls the one with an error argument on an error of
-- its own, and throws what is set there if the call failed.
use netb.Prelude.{ℕ, Bool, Option, none, some, Outcome, ok, ◌▹◌, if◌then◌else◌}
use netb.Memory.{Bytes}
use netb.Errors.{Error, no_error, Exception, throw_error}
use netb.Socket.{State, Action, Address, create, bind, listen, accept, connect, block, reuse}

-- What is thrown, if anything, and the value that is returned otherwise.
abbrev pub Throws : Type 0 → Type 0
Throws A = State → Outcome (Option Exception × A × State)

-- THROW_ERROR of the error that the state holds
unfoldable pub raised : Option Error → Option Exception
unfolding throw_error
raised none = none
raised (some e) = throw_error e

-- `Error e; if(!f(&e)) { THROW_ERROR(e); }`
unfoldable pub throwing : Action Bool → Throws Bool
unfolding raised
throwing m s = m (record s { error = some no_error }) ▹ λ (b, s').
    ok ((if b then none else raised s'.error), b, record s' { error = s.error })

-- `Error e; if((s = f(&e)) == INVALID_SOCKET) { THROW_ERROR(e); } return s;`
unfoldable pub throwing_value : Action (Option ℕ) → Throws (Option ℕ)
unfolding raised
throwing_value m s = m (record s { error = some no_error }) ▹ λ (v, s').
    ok (elim v [ none ↦ raised s'.error | some n ↦ none ], v, record s' { error = s.error })

module _ (msg : Bytes) where
  -- Create(domain, type, protocol)
  unfoldable pub create_or_throw : ℕ → ℕ → ℕ → Throws Bool
  unfolding throwing create
  create_or_throw domain type protocol = throwing (create msg domain type protocol)

  -- Bind(addr)
  unfoldable pub bind_or_throw : Address → Throws Bool
  unfolding throwing bind
  bind_or_throw addr = throwing (bind msg addr)

  -- Listen(backlog)
  unfoldable pub listen_or_throw : ℕ → Option ℕ → Throws Bool
  unfolding throwing listen
  listen_or_throw somaxconn backlog = throwing (listen msg somaxconn backlog)

  -- Accept()
  unfoldable pub accept_or_throw : Throws (Option ℕ)
  unfolding throwing_value accept
  accept_or_throw = throwing_value (accept msg)

  -- Connect(addr)
  unfoldable pub connect_or_throw : Address → Throws Bool
  unfolding throwing connect
  connect_or_throw addr = throwing (connect msg addr)

  -- Block(block)
  unfoldable pub block_or_throw : Bool → Throws Bool
  unfolding throwing block
  block_or_throw b = throwing (block msg b)

  -- ReuseAddress(reuse) and ReusePort(reuse)
  unfoldable pub reuse_or_throw : ℕ → ℕ → (Bool → Bytes) → Bool → Throws Bool
  unfolding throwing reuse
  reuse_or_throw level name flag b = throwing (reuse msg level name flag b)
