-- ===== src/Retrieve/Requests.antt =====
-- core/retrieve.c: the requests for resources, and what is done with the responses. A run that
-- would follow a null pointer, or exceed the stack, has no result.
use Prim.Native.Nat.{Ordering}
use client.Base.{
  ℕ, ◌+◌, ◌-◌, ◌^◌, ◌%◌, Bool, true, false, not, Option, none, some, List, [], ◌∷◌, ◌&&◌, ◌==◌, ltb,
  leb, if◌then◌else◌,
}
use client.LinkedList.{Ptr}
use client.EventQueue.{resource_poll, retrieve_fail}
use client.Retrieve.{
  Client, Stub, http, set_stub, insert_event, get_seq, add_dep, remove_req, delete_reqs, find_stub,
  get_stub, remove_stub,
}
use client.Retrieve.Update.{dep_complete, update_resource}

-- What is read of an IEEE 2030.5 object.
pub record Object : Type 0 where
  pub href : Option ℕ
  -- of the lists
  pub all : ℕ
  pub results : ℕ
  pub items : List Ptr
  -- of the events: `interval.start + interval.duration`
  pub end_time : ℕ

pub data Method : Type 0 where
  get : Method
  post : Method
  delete : Method
  other : Method

-- The response on a connection: the request that it answers with its context, the path of the
-- request, the location and the body with its type.
pub record Response : Type 0 where
  pub conn : Ptr
  pub method : Method
  pub status : ℕ
  pub context : Ptr
  pub path : ℕ
  pub location : Option ℕ
  pub body : Option (Ptr × ℕ)

-- The first requirement of that type, or what it has moved to.
unfoldable pub find_req : List Ptr → Option ℕ → (Option ℕ → Option ℕ → Bool) → Client → Option Ptr
find_req [] kind same c = none
find_req (t ∷ l) kind same c =
    if same (c.stub t).kind kind
    then elim (c.stub t).moved [ some m ↦ some m | none ↦ some t ]
    else find_req l kind same c

abbrev pub same_kind : Option ℕ → Option ℕ → Bool
same_kind none none = true
same_kind (some a) (some b) = a == b
same_kind _ _ = false

unfoldable pub get_subordinate : Ptr → Option ℕ → Client → Option Ptr
unfolding find_req
get_subordinate s kind c = find_req (c.stub s).reqs kind same_kind c

-- `list_seq`: the paging is updated; the number of items that are needed is an `int` of the
-- difference on 32 bits, `needed`, above zero as `is_needed` says.
unfoldable pub list_seq : Ptr → Object → Client → Client
list_seq s obj c =
    set_stub s
      (record (c.stub s) { all = obj.all; offset = ((c.stub s).offset + obj.results) % 2 ^ 32 }) c

abbrev pub needed : Stub → ℕ
needed x = (x.all + (2 ^ 32 - x.offset)) % 2 ^ 32

abbrev pub is_needed : ℕ → Bool
is_needed n = ltb 0 n && ltb n (2 ^ 31)

-- The objects by address; the connection and the path that a reference on a connection leads to,
-- as `http_parse_uri` and `se_connect_uri` give them; the facts on the types; the dependency
-- function and the order of list items; the name that the bytes of a stub spell; the clock; the
-- stack.
module _ (object : Ptr → Object) (resolve : Ptr → ℕ → Option (Ptr × ℕ))
    (is_list_kind is_event_kind : Option ℕ → Bool) (item_kind : Option ℕ → Option ℕ)
    (dep : Ptr → Client → Client) (compare_keys : Option ℕ → Option Ptr → Option Ptr → Ordering)
    (name_at : Ptr → ℕ) (now fuel : ℕ) where
  -- Null where the reference cannot be parsed.
  unfoldable pub get_resource : Ptr → Option ℕ → ℕ → ℕ → Client → Option (Option Ptr × Client)
  get_resource conn kind href count c = elim (resolve conn href) [
    | none ↦ some (none, c)
    | some at ↦
        let found = get_stub at.1 kind at.0 (is_list_kind kind) (is_event_kind kind) c in
        let s = found.0 in
        let c1 = found.1 in
        elim (ltb (c1.stub s).poll_rate (now - (c1.stub s).time)) [
          | true ↦
              let c2 =
                update_resource fuel s (set_stub s (record (c1.stub s) { all = count }) c1) in
              elim c2 [ none ↦ none | some c3 ↦ some (some s, c3) ]
          | false ↦ some (some s, c1)
        ]
  ]

  -- An event is not polled that ends before the next poll.
  unfoldable pub poll_resource : Ptr → Client → Client
  poll_resource s c =
      let x = c.stub s in
      let ends : ℕ = elim x.content [ some obj ↦ (object obj).end_time | none ↦ 0 ] in
      let next = now + x.poll_rate in
      if x.is_event && leb ends next
      then c
      else if leb x.poll_next now
      then insert_event s resource_poll next (set_stub s (record x { poll_next = next }) c)
      else c

  unfoldable pub store_object : Ptr → Ptr → Client → Client
  store_object s obj c =
      let x = c.stub s in
      let y : Stub = elim x.content [
        | none ↦ record x { content = some obj }
        | some _ ↦
            if x.is_event
            then record x { event_status = some obj }
            else record x { content = some obj }
      ] in
      set_stub s y c

  unfoldable pub update_existing : Ptr → Ptr → Client → Option Client
  update_existing s obj c =
      let c1 = dep s (store_object s obj c) in
      elim ((c1.stub s).flags == 0) [ true ↦ dep_complete compare_keys fuel s c1 | false ↦ some c1 ]

  unfoldable pub object_path : Ptr → Ptr → Option ℕ
  object_path conn obj = elim (object obj).href [
    | none ↦ none
    | some href ↦ elim (resolve conn href) [ none ↦ none | some at ↦ some at.1 ]
  ]

  -- An item of a list; one without a valid reference is dropped.
  unfoldable pub list_item : Ptr → Ptr → Client → Option Client
  list_item s item c =
      let conn = (c.stub s).conn in
      let kind = item_kind (c.stub s).kind in
      elim (object_path conn item) [
        | none ↦ some c
        | some path ↦
            let found = get_stub path kind conn (is_list_kind kind) (is_event_kind kind) c in
            update_existing found.0 item (add_dep s found.0 found.1)
      ]

  unfoldable pub list_items : Ptr → List Ptr → Client → Option Client
  list_items s [] c = some c
  list_items s (item ∷ l) c = elim (list_item s item c) [
    | none ↦ none
    | some c1 ↦ list_items s l c1
  ]

  -- The rest of `list_object`: the next page is requested, or the empty list is complete.
  unfoldable pub next_page : Ptr → ℕ → Client → Option Client
  next_page s count c = elim (is_needed count) [
    | true ↦ some (get_seq s (c.stub s).offset count c)
    | false ↦ elim ((c.stub s).all == 0) [
      | true ↦ dep_complete compare_keys fuel s c
      | false ↦ some c
    ]
  ]

  -- The number of items that are needed, and the state.
  unfoldable pub list_object : Ptr → Ptr → Client → Option (ℕ × Client)
  list_object s obj c =
      let c1 = list_seq s (object obj) c in
      let count = needed (c1.stub s) in
      let c2 = dep s (set_stub s (record (c1.stub s) { content = some obj }) c1) in
      elim (list_items s (object obj).items c2) [
        | none ↦ none
        | some c3 ↦ elim (next_page s count c3) [ none ↦ none | some c4 ↦ some (count, c4) ]
      ]

  -- `match_request`: the stub of the request where the object is the one that it names.
  unfoldable pub match_request : Response → Ptr → ℕ → Client → Option Client
  match_request r obj kind c =
      let x = c.stub r.context in
      elim (object_path r.conn obj) [
        | none ↦ none
        | some path ↦
            if x.name == path
            then elim x.kind [
              | none ↦ some (set_stub r.context (record x { kind = some kind }) c)
              | some k ↦ if k == kind then some c else none
            ]
            else none
      ]

  abbrev set_status : Ptr → ℕ → Client → Client
  set_status s status c = set_stub s (record (c.stub s) { status = http status }) c

  -- The object of a GET whose request it matches.
  unfoldable pub receive_object : Response → Ptr → Client → Option Client
  receive_object r obj c =
      let s = r.context in
      let c1 = set_stub s (record (c.stub s) { time = now }) c in
      elim (c1.stub s).is_list [
        | true ↦ elim (list_object s obj c1) [
          | none ↦ none
          | some done ↦ if done.0 == 0 then some (set_status s r.status done.1) else some done.1
        ]
        | false ↦ elim (update_existing s obj c1) [
          | none ↦ none
          | some c2 ↦ some (set_status s r.status c2)
        ]
      ]

  -- A POST to a list: what it has made becomes a requirement of the list. The source does not ask
  -- whether there is a location, or whether it leads to a resource.
  unfoldable pub receive_location : Response → Client → Option Client
  receive_location r c = elim (find_stub r.path r.conn c) [
    | none ↦ some c
    | some s ↦
        if (c.stub s).is_list
        then elim r.location [
          | none ↦ none
          | some location ↦ elim (get_resource r.conn (item_kind (c.stub s).kind) location 0 c) [
            | none ↦ none
            | some found ↦ elim found.0 [ none ↦ none | some d ↦ some (add_dep s d found.1) ]
          ]
        ]
        else some c
  ]

  unfoldable pub process_response : Response → Client → Option Client
  process_response r c = elim r.method [
    | get ↦ elim r.body [
      | none ↦ some c
      | some body ↦ elim (match_request r body.0 body.1 c) [
        | none ↦ some c
        | some c1 ↦ receive_object r body.0 c1
      ]
    ]
    | post ↦ receive_location r c
    | delete ↦ some (remove_stub name_at r.context c)
    | other ↦ some c
  ]

  -- `s->moved = t`, where the reference leads to a resource.
  unfoldable pub move_to : Ptr → Ptr → Client → Client
  move_to s t c =
      let c1 : Client = elim (c.stub s).moved [
        | none ↦ c
        | some m ↦ if not (m == t) then remove_req s m c else c
      ] in
      let c2 = add_dep s t c1 in set_stub s (record (c2.stub s) { moved = some t }) c2

  unfoldable pub get_moved : Ptr → Option ℕ → Client → Option Client
  get_moved s none c = some (delete_reqs s c)
  get_moved s (some location) c =
      let x = c.stub s in
      elim (get_resource x.conn x.kind location x.all c) [
        | none ↦ none
        | some found ↦
            let c1 : Client = elim found.0 [ none ↦ found.1 | some t ↦ move_to s t found.1 ] in
            some (delete_reqs s c1)
      ]

  unfoldable pub process_redirect : Response → Client → Option Client
  process_redirect r c = elim (find_stub r.path r.conn c) [
    | none ↦ some c
    | some s ↦ elim (get_moved s r.location c) [
      | none ↦ none
      | some c1 ↦ some (set_status s r.status c1)
    ]
  ]

  -- `default`, of the statuses.
  unfoldable pub process_failure : Response → Client → Client
  process_failure r c = elim r.method [
    | get ↦ elim (find_stub r.path r.conn c) [
      | none ↦ c
      | some s ↦ insert_event s retrieve_fail 0 (set_status s r.status c)
    ]
    | _ ↦ c
  ]

  abbrev pub is_success : ℕ → Bool
  is_success n = if n == 200 then true else if n == 201 then true else n == 204

  abbrev pub is_redirect : ℕ → Bool
  is_redirect n = if n == 300 then true else n == 301

  -- What is returned, and the state; `none` for the response is another result of `se_receive`.
  unfoldable pub process_http : Option Response → Client → Option (ℕ × Client)
  process_http none c = some (0, c)
  process_http (some r) c =
      if is_success r.status
      then elim (process_response r c) [ none ↦ none | some c1 ↦ some (r.status, c1) ]
      else if is_redirect r.status
      then elim (process_redirect r c) [ none ↦ none | some c1 ↦ some (0, c1) ]
      else some (0, process_failure r c)

  -- The requests still in the queue, with their contexts.
  unfoldable pub cleanup_http : List (Method × Ptr) → Client → Client
  cleanup_http [] c = c
  cleanup_http (r ∷ l) c = cleanup_http l (elim r.0 [ get ↦ remove_stub name_at r.1 c | _ ↦ c ])
