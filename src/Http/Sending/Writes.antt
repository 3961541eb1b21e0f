-- ===== src/Http/Sending/Writes.antt =====
-- A write and a flush of core/http.c, and the order of the bytes.
use client.Base.{
  ℕ, zero, suc, ◌≤◌, ◌≡◌, ◌⊎◌, refl, sym, ◌∙◌, ap, Bool, true, false, Option, none, some, List, [],
  ◌∷◌, ◌++◌, ◌==◌, min, length, take, if◌then◌else◌, arith, append-nil, append_assoc, All,
  Bool-cases, inl, inr,
}
use client.Text.{Text}
use client.Http.{HttpConnection, conn_write, flush_loop, http_flush, is_empty, http_write}

abbrev joined : List Text → Text
joined [] = []
joined (t ∷ l) = t ++ joined l

-- What the socket has taken, and what waits to be sent.
abbrev pub stream : HttpConnection → Text
stream c = c.wire ++ joined c.send

-- At each write the socket has no space, or room for `n` bytes.
abbrev pub HasSpace : ℕ → HttpConnection → Type 0
HasSpace n c = All (λ s. (s ≡ 0) ⊎ (n ≤ s)) c.space

take-all : (n : ℕ) (t : Text) → length t ≤ n → take n t ≡ t
take-all zero [] h = refl
take-all (suc n) [] h = refl
take-all zero (c ∷ t) h = absurd (omega arith)
take-all (suc n) (c ∷ t) h = ap (λ r. c ∷ r) (take-all n t (omega (arith, h)))

joined-append : (l : List Text) (t : Text) → joined (l ++ t ∷ []) ≡ joined l ++ t
joined-append [] t = append-nil t
joined-append (x ∷ l) t = ap (λ r. x ++ r) (joined-append l t) ∙ sym (append_assoc x (joined l) t)

abbrev pub Fits : ℕ → Text → Type 0
Fits n t = length t ≤ n

-- A write: the queue stays, and the message is refused or is on the wire.
record Write (n : ℕ) (data' : Text) (c : HttpConnection) (w : Option ℕ × HttpConnection)
    : Type 0 where
  queue : w.1.send ≡ c.send
  closing : HasSpace n w.1
  outcome :
      ((w.0 ≡ none) × (w.1.wire ≡ c.wire))
      ⊎ ((w.0 ≡ some (length data')) × (w.1.wire ≡ c.wire ++ data'))

space_cases :
    (n : ℕ) (data' : Text) (c : HttpConnection) (s : List ℕ)
    → All (λ x. (x ≡ 0) ⊎ (n ≤ x)) s
    → Fits n data'
    → Write n data' (record c { space = s }) (conn_write data' (record c { space = s }))
unfolding conn_write
space_cases n data' c [] h fits = record { queue = refl; closing = tt; outcome = inl (refl, refl) }
space_cases n data' c (x ∷ s) h fits = elim (Bool-cases (x == 0)) [
  | inl e ↦ rw e (record { queue = refl; closing = h.1; outcome = inl (refl, refl) })
  | inr e ↦
      let room : length data' ≤ x = ground (arith, h.0, fits, e) in
      let all : min x (length data') ≡ length data' = omega (arith, room) in
      rw (e, all, take-all x data' room)
        (record { queue = refl; closing = h.1; outcome = inr (refl, refl) })
]

conn_write-Write :
    (n : ℕ) (data' : Text) (c : HttpConnection)
    → HasSpace n c
    → Fits n data'
    → Write n data' c (conn_write data' c)
conn_write-Write n data' c h fits = space_cases n data' c c.space h fits

-- What a step of the sending side keeps, where `t` has been written.
pub record Sends (n : ℕ) (t : Text) (c d : HttpConnection) : Type 0 where
  pub stream_end : stream d ≡ stream c ++ t
  pub space : HasSpace n d
  pub queue : All (λ m. length m ≤ n) d.send

-- The rest of a flush behind the write of `item`.
follow : Text → List Text → Option ℕ × HttpConnection → HttpConnection
follow item queue w = elim w.0 [
  | none ↦ w.1
  | some m ↦ if m == 0 then w.1 else flush_loop queue w.1
]

nothing : (t : Text) → (length t == 0) ≡ true → t ≡ []
nothing [] h = refl
nothing (c ∷ t) h = absurd (ground arith)

module _ (n : ℕ) (item : Text) (queue : List Text) (c : HttpConnection)
    (fits : All (Fits n) (item ∷ queue)) where
  refused :
      (w : Option ℕ × HttpConnection)
      → w.1.send ≡ item ∷ queue
      → w.1.wire ≡ c.wire
      → HasSpace n w.1
      → Sends n (joined (item ∷ queue)) (record c { send = [] }) w.1
  refused w q e h = record {
    stream_end =
        ap (λ t. t ++ joined w.1.send) e
        ∙ ap (λ l. c.wire ++ joined l) q
        ∙ ap (λ t. t ++ joined (item ∷ queue)) (sym (append-nil c.wire));
    space = h;
    queue = rw q fits;
  }

  taken :
      (w : Option ℕ × HttpConnection)
      → w.1.wire ≡ c.wire ++ item
      → Sends n (joined queue) (record w.1 { send = [] }) (flush_loop queue w.1)
      → Sends n (joined (item ∷ queue)) (record c { send = [] }) (flush_loop queue w.1)
  taken w e r = record {
    stream_end =
        r.stream_end
        ∙ ap (λ t. (t ++ []) ++ joined queue) e
        ∙ ap (λ t. t ++ joined queue) (append-nil (c.wire ++ item))
        ∙ append_assoc c.wire item (joined queue)
        ∙ ap (λ t. t ++ joined (item ∷ queue)) (sym (append-nil c.wire));
    space = r.space;
    queue = r.queue;
  }

  follow-Sends :
      (w : Option ℕ × HttpConnection)
      → Write n item (record c { send = item ∷ queue }) w
      → Sends n (joined queue) (record w.1 { send = [] }) (flush_loop queue w.1)
      → Sends n (joined (item ∷ queue)) (record c { send = [] }) (follow item queue w)
  unfolding follow
  follow-Sends w write r = elim write.outcome [
    | inl o ↦ rw o.0 (refused w write.queue o.1 write.closing)
    | inr o ↦ elim (Bool-cases (length item == 0)) [
      | inl e ↦
          let empty : item ≡ [] = nothing item e in
          let same : w.1.wire ≡ c.wire = o.1 ∙ ap (λ t. c.wire ++ t) empty ∙ append-nil c.wire in
          rw (o.0, e) (refused w write.queue same write.closing)
      | inr e ↦ rw (o.0, e) (taken w o.1 r)
    ]
  ]

flush_loop-Sends :
    (n : ℕ) (queue : List Text) (c : HttpConnection)
    → HasSpace n c
    → All (Fits n) queue
    → Sends n (joined queue) (record c { send = [] }) (flush_loop queue c)
unfolding flush_loop follow
flush_loop-Sends n [] c h fits = record {
  stream_end = sym (append-nil (c.wire ++ []));
  space = h;
  queue = tt;
}
flush_loop-Sends n (item ∷ queue) c h fits =
    let w = conn_write item (record c { send = item ∷ queue }) in
    let write = conn_write-Write n item (record c { send = item ∷ queue }) h fits.0 in
    follow-Sends n item queue c fits w write (flush_loop-Sends n queue w.1 write.closing fits.1)

closed :
    (n : ℕ) (c d : HttpConnection) (l : List Text) (close : Bool)
    → Sends n [] c d
    → Sends n [] c (elim l [ [] ↦ if close then record d { is_open = false } else d | _ ∷ _ ↦ d ])
closed n c d (x ∷ l) close s = s
closed n c d [] false s = s
closed n c d [] true s = record { stream_end = s.stream_end; space = s.space; queue = s.queue }

-- Where the socket has at each write no space or room for a whole message, `http_flush` neither
-- loses nor reorders a byte: what is on the wire and what waits are together as before.
pub flush-Sends :
    (n : ℕ) (c : HttpConnection) → HasSpace n c → All (Fits n) c.send → Sends n [] c (http_flush c)
unfolding http_flush
flush-Sends n c h fits =
    let r = flush_loop-Sends n c.send c h fits in
    closed n c (flush_loop c.send c) (flush_loop c.send c).send (flush_loop c.send c).close
      (record {
        stream_end =
            r.stream_end
            ∙ ap (λ t. t ++ joined c.send) (append-nil c.wire)
            ∙ sym (append-nil (stream c));
        space = r.space;
        queue = r.queue;
      })

All-append :
    (n : ℕ) (l : List Text) (t : Text) → All (Fits n) l → Fits n t → All (Fits n) (l ++ t ∷ [])
All-append n [] t h k = (k, tt)
All-append n (x ∷ l) t h k = (h.0, All-append n l t h.1 k)

queued :
    (n : ℕ) (data' : Text) (c d : HttpConnection)
    → d.send ≡ c.send
    → d.wire ≡ c.wire
    → HasSpace n d
    → All (Fits n) c.send
    → Fits n data'
    → Sends n data' c (record d { send = d.send ++ data' ∷ [] })
queued n data' c d q e h all fits = record {
  stream_end =
      ap (λ l. d.wire ++ joined (l ++ data' ∷ [])) q
      ∙ ap (λ t. t ++ joined (c.send ++ data' ∷ [])) e
      ∙ ap (λ t. c.wire ++ t) (joined-append c.send data')
      ∙ sym (append_assoc c.wire (joined c.send) data');
  space = h;
  queue = rw q (All-append n c.send data' all fits);
}

-- Where the queue is empty, a message is written at once, or queued when it is refused.
sent_now :
    (n : ℕ) (data' : Text) (c : HttpConnection) (w : Option ℕ × HttpConnection)
    → Write n data' c w
    → c.send ≡ []
    → Fits n data'
    → Sends n data' c
        (elim w.0 [ some _ ↦ w.1 | none ↦ record w.1 { send = w.1.send ++ data' ∷ [] } ])
sent_now n data' c w write e fits = elim write.outcome [
  | inl o ↦ rw o.0 (queued n data' c w.1 write.queue o.1 write.closing (rw e tt) fits)
  | inr o ↦ rw o.0 (record {
    stream_end =
        ap (λ l. w.1.wire ++ joined l) (write.queue ∙ e)
        ∙ append-nil w.1.wire
        ∙ o.1
        ∙ ap (λ t. t ++ data') (sym (append-nil c.wire))
        ∙ ap (λ l. (c.wire ++ joined l) ++ data') (sym e);
    space = write.closing;
    queue = rw (write.queue ∙ e) tt;
  })
]

-- Where the socket has at each write no space or room for a whole message, `http_write` adds the
-- message at the end of what is on the wire and what waits.
pub write-Sends :
    (n : ℕ) (data' : Text) (c : HttpConnection)
    → HasSpace n c
    → All (Fits n) c.send
    → Fits n data'
    → Sends n data' c (http_write data' c)
unfolding http_write
write-Sends n data' c h all fits = by_queue c.send refl
  where
    by_queue :
        (l : List Text)
        → c.send ≡ l
        → Sends n data' c (
            if is_empty l
            then elim (conn_write data' c).0 [
              | some _ ↦ (conn_write data' c).1
              | none ↦ record (conn_write data' c).1 {
                send = (conn_write data' c).1.send ++ data' ∷ [];
              }
            ]
            else record c { send = c.send ++ data' ∷ [] })
    by_queue [] e =
        sent_now n data' c (conn_write data' c) (conn_write-Write n data' c h fits) e fits
    by_queue (x ∷ l) e = queued n data' c c refl refl h all fits
