-- ===== src/Concurrency/ThreadPool/Queue.antt =====
-- The critical sections of the workers and of submit, on the list of queued nodes.
use egl_utils_c.Base.{
  ℕ, ◌≡◌, ◌≢◌, refl, sym, ap, ap₂, subst, ◌∙◌, inl, inr, true, false, Option, none, some, List, [],
  ◌∷◌, ◌++◌, Contains, Distinct, if◌then◌else◌,
}
use egl_utils_c.Core.Status.{ok, unsupported}
use egl_utils_c.Concurrency.ThreadPool.{
  TaskNode, TaskQueue, store_node, tail_after, take_head, take_node, link_after, enqueue, submit,
}
use egl_utils_c.Concurrency.ThreadPool.Chain.{
  Chain, last_of, task_of, tasks, Holds, store_node_self, store_node-ne, Chain-store, tasks-store,
  tasks-link, tasks-append, last_of-Contains, last_of-snoc, Distinct-snoc,
}

tail_after-Chain :
    (nodes : ℕ → TaskNode) (next tail : Option ℕ) (a : ℕ) (l : List ℕ)
    → Chain nodes next l
    → tail ≡ last_of (a ∷ l)
    → tail_after next tail ≡ last_of l
tail_after-Chain nodes next tail a [] c e = ap (λ n. tail_after n tail) c
tail_after-Chain nodes next tail a (b ∷ l) (c, _) e = ap (λ n. tail_after n tail) c ∙ e

-- A worker gets NULL from an empty queue, and otherwise the first node.
pub take_node-empty : (q : TaskQueue) → Holds q [] → take_node q ≡ (none, q)
unfolding take_node
take_node-empty q h = ap (λ o. take_head o q) h.chain

pub take_node-Holds :
    (q : TaskQueue) (a : ℕ) (l : List ℕ)
    → Holds q (a ∷ l)
    → (q' : TaskQueue) × (take_node q ≡ (some a, q'))
      × Holds q' l
      × (q'.nodes ≡ q.nodes)
      × (q'.shutting_down ≡ q.shutting_down)
unfolding take_node
take_node-Holds q a l h =
    let next = (q.nodes a).next in
    (
      record q { q_head = next; q_tail = tail_after next q.q_tail },
      ap (λ o. take_head o q) h.chain.0,
      record {
        chain = h.chain.1;
        tail = tail_after-Chain q.nodes next q.q_tail a l h.chain.1 h.tail;
        distinct = h.distinct.1;
      },
      refl,
      refl,
    )

-- The chain with one node linked after its last.
Chain-snoc :
    (h : ℕ → TaskNode) (head : Option ℕ) (x : ℕ) (l : List ℕ) (t a : ℕ)
    → Chain h head (x ∷ l)
    → Distinct (x ∷ l)
    → last_of (x ∷ l) ≡ some t
    → ¬ Contains (x ∷ l) a
    → (h a).next ≡ none
    → Chain (store_node h t (record (h t) { next = some a })) head ((x ∷ l) ++ (a ∷ []))
Chain-snoc h head x [] t a (e, c) d last out end =
    let same : x ≡ t = (let s : some x ≡ some t = last in cc) in
    let n : TaskNode = record (h t) { next = some a } in
    let here : (store_node h t n x).next ≡ some a =
      ap (λ y. (store_node h t n y).next) same ∙ ap (λ m. m.next) (store_node_self h t n) in
    let ne : t ≢ a = λ eq. out (inl (sym eq ∙ sym same)) in
    let after : (store_node h t n a).next ≡ none =
      ap (λ m. m.next) (store_node-ne h t a n ne) ∙ end in
    (e, (here, after))
Chain-snoc h head x (y ∷ l) t a (e, c) d last out end =
    let n : TaskNode = record (h t) { next = some a } in
    let ne : t ≢ x = λ eq. d.0 (subst (Contains (y ∷ l)) eq (last_of-Contains y l t last)) in
    let rest = Chain-snoc h (h x).next y l t a c d.1 last (λ k. out (inr k)) end in
    (
      e,
      subst (λ m. Chain (store_node h t n) m.next ((y ∷ l) ++ (a ∷ [])))
          (sym (store_node-ne h t x n ne)) rest,
    )

last_of-some : (x : ℕ) (l : List ℕ) → (t : ℕ) × (last_of (x ∷ l) ≡ some t)
last_of-some x [] = (x, refl)
last_of-some x (y ∷ l) = last_of-some y l

abbrev Enqueued : TaskQueue → List ℕ → ℕ → Type 0
Enqueued q l a =
    (q' : TaskQueue) × (enqueue a q ≡ q')
    × Holds q' (l ++ (a ∷ []))
    × (tasks q'.nodes (l ++ (a ∷ [])) ≡ tasks q.nodes l ++ (task_of (q.nodes a) ∷ []))
    × (q'.shutting_down ≡ q.shutting_down)

enqueue-Enqueued :
    (q : TaskQueue) (l : List ℕ) (a : ℕ)
    → Holds q l
    → ¬ Contains l a
    → (q.nodes a).next ≡ none
    → Enqueued q l a
unfolding enqueue
enqueue-Enqueued q [] a h out end = (
  record q { q_head = some a; q_tail = some a },
  ap (λ o. link_after o a q) h.tail,
  record { chain = (refl, end); tail = refl; distinct = ((λ k. k), tt) },
  refl,
  refl,
)
enqueue-Enqueued q (x ∷ l) a h out end =
    let (t, last) = last_of-some x l in
    let g : ℕ → TaskNode = store_node q.nodes t (record (q.nodes t) { next = some a }) in
    (
      record q { nodes = g; q_tail = some a },
      ap (λ o. link_after o a q) (h.tail ∙ last),
      record {
        chain = Chain-snoc q.nodes q.q_head x l t a h.chain h.distinct last out end;
        tail = sym (last_of-snoc (x ∷ l) a);
        distinct = Distinct-snoc (x ∷ l) a h.distinct out;
      },
      tasks-link q.nodes t (some a) ((x ∷ l) ++ (a ∷ [])) ∙ tasks-append q.nodes (x ∷ l) (a ∷ []),
      refl,
    )

-- The node of a task that is submitted, stored before the lock is taken.
abbrev pub filled : TaskQueue → ℕ → ℕ → ℕ → TaskQueue
filled q a fn arg = record q {
  nodes = store_node q.nodes a (record { next = none; fn = fn; arg = arg });
}

pub filled-Holds :
    (q : TaskQueue) (l : List ℕ) (a fn arg : ℕ)
    → Holds q l
    → ¬ Contains l a
    → Holds (filled q a fn arg) l
filled-Holds q l a fn arg h out = record {
  chain = Chain-store q.nodes a (record { next = none; fn = fn; arg = arg }) q.q_head l out h.chain;
  tail = h.tail;
  distinct = h.distinct;
}

-- Before the shutdown, submit puts the task of a node that is not queued behind the queued ones.
pub submit-Holds :
    (q : TaskQueue) (l : List ℕ) (a fn arg : ℕ)
    → Holds q l
    → ¬ Contains l a
    → q.shutting_down ≡ false
    → (q' : TaskQueue) × (submit (some a) (some fn) arg (some q) ≡ (ok, some q'))
      × Holds q' (l ++ (a ∷ []))
      × (tasks q'.nodes (l ++ (a ∷ [])) ≡ tasks q.nodes l ++ ((fn, arg) ∷ []))
      × (q'.shutting_down ≡ false)
unfolding submit
submit-Holds q l a fn arg h out open_ =
    let n : TaskNode = record { next = none; fn = fn; arg = arg } in
    let here : store_node q.nodes a n a ≡ n = store_node_self q.nodes a n in
    let (q', e, holds, kept, same) =
      enqueue-Enqueued (filled q a fn arg) l a (filled-Holds q l a fn arg h out) out
        (ap (λ m. m.next) here) in
    (
      q',
      ap
            (λ b.
              if b
              then (unsupported, some (filled q a fn arg))
              else (ok, some (enqueue a (filled q a fn arg))))
            open_
          ∙ ap (λ x. (ok, some x)) e,
      holds,
      kept ∙ ap₂ (λ r m. r ++ (task_of m ∷ [])) (tasks-store q.nodes a n l out) here,
      same ∙ open_,
    )

-- After it, the queue stays as it was.
pub submit-closed :
    (q : TaskQueue) (a fn arg : ℕ)
    → q.shutting_down ≡ true
    → submit (some a) (some fn) arg (some q) ≡ (unsupported, some (filled q a fn arg))
unfolding submit
submit-closed q a fn arg closed =
    ap
      (λ b.
        if b
        then (unsupported, some (filled q a fn arg))
        else (ok, some (enqueue a (filled q a fn arg))))
      closed
