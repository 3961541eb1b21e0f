-- ===== src/Http/Requests.antt =====
-- The queue of the requests of core/http.c, by which responses find the context of their request.
use mathlib.Core.Path.{subst}
use client.Base.{
  ℕ, zero, suc, ◌≡◌, refl, sym, ◌∙◌, ap, Bool, true, false, Option, none, some, List, [], ◌∷◌, ◌++◌,
  ◌==◌, min, length, take, if◌then◌else◌, append-nil, append_assoc, Bool-cases, inl, inr, ◌<◌, ltb,
  arith, All, All-mono, length-append,
}
use client.Http.Texts
use client.LinkedList.{Ptr}
use client.Text.{Text}
use client.Http.{
  HttpConnection, HttpRequest, conn_write, is_empty, http_write, queue_request, request_text,
  http_request, write_buffer, http_get, set_last, set_request_context, dequeue_request,
}

-- What a write leaves as it is.
record Keeps (c d : HttpConnection) : Type 0 where
  host : d.host ≡ c.host
  accept : d.accept ≡ c.accept
  request : d.request ≡ c.request

Keeps-refl : (c : HttpConnection) → Keeps c c
Keeps-refl c = record { host = refl; accept = refl; request = refl }

conn_write-Keeps : (t : Text) (c : HttpConnection) → Keeps c (conn_write t c).1
unfolding conn_write
conn_write-Keeps t c = by_space c.space
  where
    by_space :
        (s : List ℕ)
        → Keeps c
            (elim s as (λ _. Option ℕ × HttpConnection) [
              | [] ↦ (none, c)
              | n ∷ more ↦ if n == 0 then (none, record c { space = more }) else (
                some (min n (length t)),
                record c { space = more; wire = c.wire ++ take n t },
              )
            ]).1
    by_space [] = Keeps-refl c
    by_space (n ∷ more) = elim (Bool-cases (n == 0)) [
      | inl e ↦ rw e (record { host = refl; accept = refl; request = refl })
      | inr e ↦ rw e (record { host = refl; accept = refl; request = refl })
    ]

http_write-Keeps : (t : Text) (c : HttpConnection) → Keeps c (http_write t c)
unfolding http_write
http_write-Keeps t c = by_queue (is_empty c.send) (conn_write t c) (conn_write-Keeps t c)
  where
    by_queue :
        (b : Bool) (w : Option ℕ × HttpConnection)
        → Keeps c w.1
        → Keeps c (
            if b
            then elim w.0 [ some _ ↦ w.1 | none ↦ record w.1 { send = w.1.send ++ t ∷ [] } ]
            else record c { send = c.send ++ t ∷ [] })
    by_queue false w k = record { host = refl; accept = refl; request = refl }
    by_queue true w k = by_result w.0
      where
        by_result :
            (r : Option ℕ)
            → Keeps c (elim r as (λ _. HttpConnection) [
              | some _ ↦ w.1
              | none ↦ record w.1 { send = w.1.send ++ t ∷ [] }
            ])
        by_result none = record { host = k.host; accept = k.accept; request = k.request }
        by_result (some _) = k

set_last-append :
    (x : Ptr) (l : List HttpRequest) (r : HttpRequest)
    → set_last x (l ++ r ∷ []) ≡ l ++ record r { context = some x } ∷ []
unfolding set_last
set_last-append x [] r = refl
set_last-append x (a ∷ []) r = refl
set_last-append x (a ∷ b ∷ l) r = ap (λ t. a ∷ t) (set_last-append x (b ∷ l) r)

-- `http_get` and `set_request_context`, as `get_seq` calls them, for each of the requests; none
-- where one of them is written behind its buffer.
unfoldable pub get_all : Text → List (Text × Ptr) → HttpConnection → Option HttpConnection
get_all date [] c = some c
get_all date (g ∷ gets) c = elim (http_get date g.0 c) [
  | none ↦ none
  | some d ↦ get_all date gets (set_request_context g.1 d)
]

abbrev pub requests : List (Text × Ptr) → List HttpRequest
requests [] = []
requests (g ∷ gets) = record { context = some g.1; method = 0; uri = g.0 } ∷ requests gets

-- The message fits the 256 bytes of the buffer, with the zero behind it.
abbrev pub IsShort : Text → HttpConnection → Text × Ptr → Type 0
IsShort date c g = length (request_text date g.0 0 c ++ Texts.newline) < 256

request_text-same :
    (date uri : Text) (method : ℕ) (c d : HttpConnection)
    → d.host ≡ c.host
    → d.accept ≡ c.accept
    → request_text date uri method d ≡ request_text date uri method c
unfolding request_text
request_text-same date uri method c d h a = rw (h, a)

-- What a request leaves as it is, and what it adds.
record Got (date : Text) (g : Text × Ptr) (c d : HttpConnection) : Type 0 where
  host : d.host ≡ c.host
  accept : d.accept ≡ c.accept
  request : d.request ≡ c.request ++ record { context = none; method = 0; uri = g.0 } ∷ []

one-get :
    (date : Text) (g : Text × Ptr) (c : HttpConnection)
    → IsShort date c g
    → (d : HttpConnection) × (http_get date g.0 c ≡ some d) × Got date g c d
unfolding http_get http_request write_buffer
one-get date g c h =
    let t = request_text date g.0 0 c in
    let d = queue_request 0 g.0 c in
    let first : ltb (length t) 256 ≡ true = ground (arith, length-append t Texts.newline) in
    let whole : ltb (length (t ++ Texts.newline)) 256 ≡ true = ground arith in
    let keeps = http_write-Keeps (t ++ Texts.newline) d in
    (
      http_write (t ++ Texts.newline) d,
      rw (first, whole) refl,
      record { host = keeps.host; accept = keeps.accept; request = keeps.request },
    )

get_all-request :
    (date : Text) (gets : List (Text × Ptr)) (c : HttpConnection)
    → All (IsShort date c) gets
    → (d : HttpConnection) × (get_all date gets c ≡ some d)
      × (d.request ≡ c.request ++ requests gets)
unfolding get_all set_request_context
get_all-request date [] c h = (c, refl, sym (append-nil c.request))
get_all-request date (g ∷ gets) c h =
    let (d, got, adds) = one-get date g c h.0 in
    let e = set_request_context g.1 d in
    let short : All (IsShort date e) gets =
      All-mono gets
        (λ x s.
          subst (λ t. length (t ++ Texts.newline) < 256)
            (sym (request_text-same date x.0 0 c e adds.host adds.accept)) s)
        h.1 in
    let (last, all, same) = get_all-request date gets e short in
    (
      last,
      rw (got, get_all) all,
      same
          ∙ ap (λ l. set_last g.1 l ++ requests gets) adds.request
          ∙ ap (λ l. l ++ requests gets)
              (set_last-append g.1 c.request (record { context = none; method = 0; uri = g.0 }))
          ∙ append_assoc c.request _ (requests gets),
    )

-- The requests of `n` responses, and the connection without them.
unfoldable pub dequeue_all : ℕ → HttpConnection → Option (List HttpRequest × HttpConnection)
dequeue_all zero c = some ([], c)
dequeue_all (suc n) c = elim (dequeue_request c) [
  | none ↦ none
  | some r ↦ elim (dequeue_all n r.1) [ none ↦ none | some l ↦ some (r.0 ∷ l.0, l.1) ]
]

dequeue_all-whole :
    (l : List HttpRequest) (c : HttpConnection)
    → dequeue_all (length l) (record c { request = l }) ≡ some (l, record c { request = [] })
unfolding dequeue_all dequeue_request
dequeue_all-whole [] c = refl
dequeue_all-whole (r ∷ l) c = rw (dequeue_all-whole l c)

length-requests : (gets : List (Text × Ptr)) → length (requests gets) ≡ length gets
length-requests [] = refl
length-requests (g ∷ gets) = ap suc (length-requests gets)

-- On a connection without a request in the queue, GET requests whose messages fit their buffer and
-- whose contexts are set as they are made are taken from the queue, one to a response, in the order
-- in which they were made, each with its own context, whether their messages have gone out or wait;
-- then the queue is empty.
pub dequeue-get_all :
    (date : Text) (gets : List (Text × Ptr)) (c : HttpConnection)
    → c.request ≡ []
    → All (IsShort date c) gets
    → (d : HttpConnection) × (get_all date gets c ≡ some d)
      × (dequeue_all (length gets) d ≡ some (requests gets, record d { request = [] }))
dequeue-get_all date gets c none_queued short =
    let (d, got, same) = get_all-request date gets c short in
    let whole : d.request ≡ requests gets = same ∙ ap (λ l. l ++ requests gets) none_queued in
    (
      d,
      got,
      ap (λ l. dequeue_all (length gets) (record d { request = l })) whole
          ∙ ap (λ n. dequeue_all n (record d { request = requests gets }))
              (sym (length-requests gets))
          ∙ dequeue_all-whole (requests gets) d,
    )
