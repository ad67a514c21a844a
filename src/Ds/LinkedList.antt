-- ===== src/Ds/LinkedList.antt =====
-- d4np/ds/linked_list.h and linked_list.c. A node is its address, and the heap gives the links of
-- each; the list object is the address of its sentinel and its length. Following or storing through
-- NULL gives `none`, which stands for undefined behaviour.
pub mod Walk
pub mod Splice
pub mod Valid
pub mod Calls
pub mod Ops
pub mod Visit
mod Tests
use egl_utils_c.Base.{
  ℕ, zero, suc, Bool, true, Option, none, some, List, [], ◌∷◌, ◌==◌, if◌then◌else◌, add_size,
  sub_size, ◌>>=◌,
}

-- d4np_list_node_t
pub record Node : Type 0 where
  pub prev : Option ℕ
  pub next : Option ℕ

-- d4np_linked_list_t
pub record LinkedList : Type 0 where
  pub sentinel : ℕ
  pub len : ℕ

abbrev pub Heap : Type 0
Heap = ℕ → Node

abbrev pub update : Heap → ℕ → Node → Heap
update h a node x = if a == x then node else h x

abbrev pub get_prev : Heap → Option ℕ → Option (Option ℕ)
get_prev h none = none
get_prev h (some a) = some (h a).prev

abbrev pub get_next : Heap → Option ℕ → Option (Option ℕ)
get_next h none = none
get_next h (some a) = some (h a).next

abbrev pub set_prev : Heap → Option ℕ → Option ℕ → Option Heap
set_prev h none p = none
set_prev h (some a) p = some (update h a (record (h a) { prev = p }))

abbrev pub set_next : Heap → Option ℕ → Option ℕ → Option Heap
set_next h none p = none
set_next h (some a) p = some (update h a (record (h a) { next = p }))

unfoldable pub link_between : Heap → ℕ → Option ℕ → Option ℕ → Option Heap
link_between h node prev next = do
  h1 ← set_prev h (some node) prev
  h2 ← set_next h1 (some node) next
  h3 ← set_next h2 prev (some node)
  set_prev h3 next (some node)

unfoldable pub unlink : Heap → Option ℕ → Option Heap
unlink h node = do
  p ← get_prev h node
  n ← get_next h node
  h1 ← set_next h p n
  n1 ← get_next h1 node
  p1 ← get_prev h1 node
  h2 ← set_prev h1 n1 p1
  h3 ← set_prev h2 node none
  set_next h3 node none

unfoldable pub init : Option LinkedList → Heap → Option LinkedList × Heap
init none h = (none, h)
init (some list) h = (
  some (record list { len = 0 }),
  update h list.sentinel (record { prev = some list.sentinel; next = some list.sentinel }),
)

unfoldable pub push_front : Option LinkedList → Option ℕ → Heap → Option (Option LinkedList × Heap)
unfolding link_between
push_front none _ h = some (none, h)
push_front (some list) none h = some (some list, h)
push_front (some list) (some node) h = do
  h' ← link_between h node (some list.sentinel) (h list.sentinel).next
  some (some (record list { len = add_size list.len 1 }), h')

unfoldable pub push_back : Option LinkedList → Option ℕ → Heap → Option (Option LinkedList × Heap)
unfolding link_between
push_back none _ h = some (none, h)
push_back (some list) none h = some (some list, h)
push_back (some list) (some node) h = do
  h' ← link_between h node (h list.sentinel).prev (some list.sentinel)
  some (some (record list { len = add_size list.len 1 }), h')

-- What the removals share: the node is unlinked, and the list is one shorter.
unfoldable pub drop_node : LinkedList → Option ℕ → Heap → Option (Option LinkedList × Heap)
unfolding unlink
drop_node list node h = do
  h' ← unlink h node
  some (some (record list { len = sub_size list.len 1 }), h')

unfoldable pub pop_front : Option LinkedList → Heap → Option (Option ℕ × Option LinkedList × Heap)
unfolding drop_node
pop_front none h = some (none, none, h)
pop_front (some list) h = if list.len == 0 then some (none, some list, h) else do
  let node = (h list.sentinel).next
  (list', h') ← drop_node list node h
  some (node, list', h')

unfoldable pub pop_back : Option LinkedList → Heap → Option (Option ℕ × Option LinkedList × Heap)
unfolding drop_node
pop_back none h = some (none, none, h)
pop_back (some list) h = if list.len == 0 then some (none, some list, h) else do
  let node = (h list.sentinel).prev
  (list', h') ← drop_node list node h
  some (node, list', h')

unfoldable pub remove : Option LinkedList → Option ℕ → Heap → Option (Option LinkedList × Heap)
unfolding drop_node
remove none _ h = some (none, h)
remove (some list) none h = some (some list, h)
remove (some list) (some node) h =
    if list.len == 0 then some (some list, h) else drop_node list (some node) h

unfoldable pub front : Option LinkedList → Heap → Option ℕ
front none h = none
front (some list) h = if list.len == 0 then none else (h list.sentinel).next

unfoldable pub back : Option LinkedList → Heap → Option ℕ
back none h = none
back (some list) h = if list.len == 0 then none else (h list.sentinel).prev

unfoldable pub is_empty : Option LinkedList → Bool
is_empty none = true
is_empty (some list) = list.len == 0

unfoldable pub len_of : Option LinkedList → ℕ
len_of none = 0
len_of (some list) = list.len

-- D4NP_LIST_FOR_EACH from `node` on: the nodes that the loop visits, in `fuel` rounds at most.
unfoldable pub for_each : ℕ → Heap → ℕ → Option ℕ → Option (List ℕ)
for_each fuel h sentinel none = none
for_each zero h sentinel (some node) = none
for_each (suc fuel) h sentinel (some node) =
    let rest = for_each fuel h sentinel (h node).next in
    if node == sentinel then some [] else (do visited ← rest; some (node ∷ visited))
