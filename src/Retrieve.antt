-- ===== src/Retrieve.antt =====
-- core/retrieve.c and the database of core/resource.c: the stubs of resources, with the links
-- between a resource and what it requires. Stubs are held in a store by address, and the database
-- maps a name to the stubs of that name, one to a connection. Requests are logged, and so are the
-- calls of the completion routines, whose effects are left out. Flags are numbers of 32 bits.

pub mod Update
pub mod Dependencies
pub mod Completion
pub mod Reset
pub mod Removal
pub mod Requests
mod Tests
use Prim.Native.Nat.{Ordering}
use client.Query.{asked}
use client.Base.{
  ℕ, zero, suc, ◌+◌, ◌-◌, ◌^◌, bit_and, bit_or, min, Bool, true, false, not, Option, none, some,
  List, [], ◌∷◌, ◌++◌, ◌&&◌, ◌||◌, ◌==◌, ltb, leb, length, if◌then◌else◌,
}
use client.LinkedList.{Ptr, insert_unique, list_delete, list_subtract, is_some, find_by_data}
use client.LinkedList
use client.EventQueue
use client.EventQueue.{EventQueue, resource_remove}

-- The HTTP status of a stub: 0 for a new one, -1 while an update is under way.
pub data Status : Type 0 where
  updating : Status
  http : ℕ → Status

pub record Stub : Type 0 where
  pub name : ℕ
  pub conn : Ptr
  -- the schema type, none where it is negative
  pub kind : Option ℕ
  -- `base.info`, of the resources that are lists, and `se_event (resource_type (s))`
  pub is_list : Bool
  pub is_event : Bool
  -- the object that the resource holds, and the one of which it last took the event status
  pub content : Option Ptr
  pub event_status : Option Ptr
  -- `base.time`
  pub time : ℕ
  pub status : Status
  pub poll_next : ℕ
  pub poll_rate : ℕ
  pub complete : Bool
  pub flag : ℕ
  pub flags : ℕ
  pub offset : ℕ
  pub all : ℕ
  pub moved : Option Ptr
  pub list : List Ptr
  pub deps : List Ptr
  pub reqs : List Ptr
  -- whether there is a completion routine
  pub completion : Bool

-- `http_get (s->conn, ...)`, with the offset and the number of items of the query.
pub record Request : Type 0 where
  pub stub : Ptr
  pub offset : ℕ
  pub count : ℕ

pub record Client : Type 0 where
  pub stub : Ptr → Stub
  -- the database: `find_resource` is the first of the list
  pub resources : ℕ → List Ptr
  pub events : EventQueue
  pub requests : List Request
  pub completed : List Ptr
  -- the stubs that were given to `free_resource`
  pub freed : List Ptr
  -- the address of the next stub that is allocated
  pub fresh : Ptr

abbrev pub set_stub : Ptr → Stub → Client → Client
set_stub p s c = record c { stub = λ q. if q == p then s else c.stub q }

abbrev pub set_resources : ℕ → List Ptr → Client → Client
set_resources name l c = record c { resources = λ n. if n == name then l else c.resources n }

abbrev pub insert_event : Ptr → ℕ → ℕ → Client → Client
insert_event p type time c = record c { events = EventQueue.insert_event p type time c.events }

-- `flags & ~flag` on 32 bits.
abbrev pub clear_flag : ℕ → ℕ → ℕ
clear_flag flags flag = bit_and flags (2 ^ 32 - 1 - flag)

-- The URI is what `get_seq` of Query has; its buffer is left out here, where a name is a number.
unfoldable pub get_seq : Ptr → ℕ → ℕ → Client → Client
get_seq s offset count c = record c {
  requests = c.requests ++ record { stub = s; offset = offset; count = asked count } ∷ [];
}

unfoldable pub add_dep : Ptr → Ptr → Client → Client
add_dep r d c =
    let x = c.stub d in
    let c1 =
      set_stub d
        (record x {
          deps = insert_unique x.deps r;
          poll_rate = min x.poll_rate (c.stub r).poll_rate;
        })
        c in
    set_stub r (record (c1.stub r) { complete = false }) c1

-- `d` is null where the parent has no such link.
unfoldable pub new_dep : Ptr → Option Ptr → ℕ → Client → Client
unfolding add_dep
new_dep r none flag c = c
new_dep r (some d) flag c =
    let c1 = add_dep r d c in
    let c2 = set_stub d (record (c1.stub d) { flag = flag }) c1 in
    set_stub r (record (c2.stub r) { flags = bit_or (c2.stub r).flags flag }) c2

abbrev pub is_empty : List Ptr → Bool
is_empty [] = true
is_empty (_ ∷ _) = false

unfoldable pub remove_req : Ptr → Ptr → Client → Client
remove_req s r c =
    let deps = list_delete (c.stub r).deps s in
    let c1 = set_stub r (record (c.stub r) { deps = deps }) c in
    if is_empty deps then insert_event r resource_remove 0 c1 else c1

unfoldable pub remove_reqs : Ptr → List Ptr → Client → Client
remove_reqs s [] c = c
remove_reqs s (r ∷ l) c = remove_reqs s l (remove_req s r c)

-- One round of `remove_deps`.
unfoldable pub remove_from : Ptr → Ptr → Client → Client
remove_from s t c =
    let x = c.stub t in
    elim x.status [
      | updating ↦ set_stub t (record x { list = list_delete x.list s }) c
      | http _ ↦ set_stub t (record x { reqs = list_delete x.reqs s }) c
    ]

unfoldable pub remove_deps : Ptr → List Ptr → Client → Client
unfolding remove_from
remove_deps s [] c = c
remove_deps s (t ∷ l) c = remove_deps s l (remove_from s t c)

-- The stub of that name and connection.
unfoldable pub find_conn : List Ptr → Ptr → Client → Option Ptr
find_conn [] conn c = none
find_conn (s ∷ l) conn c = if (c.stub s).conn == conn then some s else find_conn l conn c

unfoldable pub find_stub : ℕ → Ptr → Client → Option Ptr
unfolding find_conn
find_stub name conn c = find_conn (c.resources name) conn c

-- `new_resource`, with the connection and the poll rate of `get_stub`.
abbrev pub new_stub : (name : ℕ) (kind : Option ℕ) (conn : Ptr) (is_list is_event : Bool) → Stub
new_stub name kind conn is_list is_event = record {
  name = name;
  conn = conn;
  kind = kind;
  is_list = is_list;
  is_event = is_event;
  content = none;
  event_status = none;
  time = 0;
  status = http 0;
  poll_next = 0;
  poll_rate = 900;
  complete = false;
  flag = 0;
  flags = 0;
  offset = 0;
  all = 0;
  moved = none;
  list = [];
  deps = [];
  reqs = [];
  completion = false;
}

-- `link_insert (list_next (head), s)`, or `insert_resource (s)` where there is no stub of the name.
abbrev pub link_behind : List Ptr → Ptr → List Ptr
link_behind [] s = s ∷ []
link_behind (head ∷ l) s = head ∷ s ∷ l

-- The stub and the state; the two tests on the type come with the new stub.
unfoldable pub get_stub : ℕ → Option ℕ → Ptr → Bool → Bool → Client → Ptr × Client
get_stub name kind conn is_list is_event c = elim (find_stub name conn c) [
  | some s ↦ (s, c)
  | none ↦
      let c1 = set_stub c.fresh (new_stub name kind conn is_list is_event) c in
      (
        c.fresh,
        record (set_resources name (link_behind (c.resources name) c.fresh) c1) {
          fresh = c.fresh + 1;
        },
      )
]

unfoldable pub delete_reqs : Ptr → Client → Client
delete_reqs s c =
    let c1 = remove_reqs s (c.stub s).reqs c in
    let c2 = remove_reqs s (c1.stub s).list c1 in
    set_stub s (record (c2.stub s) { reqs = []; list = [] }) c2

-- `remove_stub`, without the change of the database: the stub leaves the lists of its requirements
-- and of its dependents, and its events are dropped.
unfoldable pub unlink_stub : Ptr → Client → Client
unlink_stub s c =
    let c1 : Client = elim (c.stub s).moved [
      | some t ↦ remove_req s t c
      | none ↦ delete_reqs s c
    ] in
    let c2 = remove_deps s (c1.stub s).deps c1 in
    record c2 { events = EventQueue.remove_event s c2.events }

module _ (name_at : Ptr → ℕ) where
  -- `t` is what is left of the stubs of the name. The source calls `delete_resource (head)`, which
  -- takes the bytes of the stub for a name: `name_at` is the name that they spell. A stub
  -- is in the database, so that there is a head.
  unfoldable pub forget_stub : ℕ → List Ptr → List Ptr → Client → Client
  forget_stub name [] [] c = c
  forget_stub name (head ∷ l) [] c = set_resources (name_at head) [] c
  forget_stub name l (t ∷ rest) c = set_resources name (t ∷ rest) c

  unfoldable pub remove_stub : Ptr → Client → Client
  remove_stub s c =
      let name = (c.stub s).name in
      let head = c.resources name in
      let d = unlink_stub s (forget_stub name head (LinkedList.list_remove head s) c) in
      record d { freed = d.freed ++ s ∷ [] }
