-- ===== src/Http/Sending.antt =====
-- The order of what core/http.c sends.
pub mod Writes
use client.Base.{
  ℕ, zero, suc, ◌≤◌, ◌≡◌, ◌⊎◌, refl, sym, ◌∙◌, ap, Bool, true, false, Option, none, some, List, [],
  ◌∷◌, ◌++◌, ◌==◌, min, length, take, if◌then◌else◌, arith, append-nil, append_assoc, All,
  Bool-cases, inl, inr,
}
use client.Text.{Text}
use client.Http.{HttpConnection, conn_write, flush_loop, http_flush, is_empty, http_write}
use client.Http.Sending.Writes.{stream, HasSpace, Fits, Sends, write-Sends, flush-Sends}

-- The steps of the sending side: the program writes a message, or the socket is ready.
pub data Step : Type 0 where
  write : Text → Step
  flush : Step

unfoldable pub step : Step → HttpConnection → HttpConnection
step (write data') c = http_write data' c
step flush c = http_flush c

unfoldable pub run : List Step → HttpConnection → HttpConnection
run [] c = c
run (s ∷ steps) c = run steps (step s c)

abbrev pub message : Step → Text
message (write data') = data'
message flush = []

abbrev pub messages : List Step → Text
messages [] = []
messages (s ∷ steps) = message s ++ messages steps

step-Sends :
    (n : ℕ) (s : Step) (c : HttpConnection)
    → HasSpace n c
    → All (Fits n) c.send
    → Fits n (message s)
    → Sends n (message s) c (step s c)
unfolding step
step-Sends n (write data') c h all fits = write-Sends n data' c h all fits
step-Sends n flush c h all fits = flush-Sends n c h all

-- In any sequence of writes and flushes no byte is lost, repeated or moved: what has gone out and
-- what waits in the queue are together what was there before, followed by the messages in the order
-- of their writes. No message exceeds `n` bytes, and the socket has at each write no space, or room
-- for `n` bytes: it never takes a part of a message.
pub run-Sends :
    (n : ℕ) (steps : List Step) (c : HttpConnection)
    → HasSpace n c
    → All (λ m. length m ≤ n) c.send
    → All (λ s. length (message s) ≤ n) steps
    → stream (run steps c) ≡ stream c ++ messages steps
unfolding run
run-Sends n [] c h all fits = sym (append-nil (stream c))
run-Sends n (s ∷ steps) c h all fits =
    let one = step-Sends n s c h all fits.0 in
    run-Sends n steps (step s c) one.space one.queue fits.1
    ∙ ap (λ t. t ++ messages steps) one.stream_end
    ∙ append_assoc (stream c) (message s) (messages steps)

partial_write :
    (s : ℕ) (more : List ℕ) (data' : Text) (c : HttpConnection)
    → (s == 0) ≡ false
    → conn_write data' (record c { space = s ∷ more })
      ≡ (some (min s (length data')), record c { space = more; wire = c.wire ++ take s data' })
unfolding conn_write
partial_write s more data' c h = rw h refl

-- A message that is written while the queue is empty, to a socket that takes a part of it, loses
-- the rest: what is on the wire is continued by the first `s` bytes only, where `s` is the space of
-- the socket, above zero, and nothing is queued.
pub http_write-partial :
    (s : ℕ) (more : List ℕ) (data' : Text) (c : HttpConnection)
    → (s == 0) ≡ false
    → let d = http_write data' (record c { space = s ∷ more; send = [] }) in
      (d.wire ≡ c.wire ++ take s data') × (d.send ≡ [])
unfolding http_write
http_write-partial s more data' c some_space =
    let e =
      ap {B = HttpConnection}
        (λ w. elim w.0 [ some _ ↦ w.1 | none ↦ record w.1 { send = w.1.send ++ data' ∷ [] } ])
        (partial_write s more data' (record c { send = [] }) some_space) in
    (ap (λ d. d.wire) e, ap (λ d. d.send) e)
