-- ===== src/Concurrency/ThreadPool/Chain.antt =====
-- The linked queue as the list of its nodes.
use egl_utils_c.Base.{
  ℕ, ◌≡◌, ◌≢◌, refl, sym, ap, ap₂, subst, ◌∙◌, arith, ◌⊎◌, inl, inr, true, false, Option, none,
  some, List, [], ◌∷◌, ◌++◌, Contains, Contains-append, Distinct, ◌==◌, if◌then◌else◌,
}
use egl_utils_c.Concurrency.ThreadPool.{TaskNode, TaskQueue, store_node}

abbrev pub Chain : (ℕ → TaskNode) → Option ℕ → List ℕ → Type 0
Chain nodes head [] = head ≡ none
Chain nodes head (a ∷ l) = (head ≡ some a) × Chain nodes (nodes a).next l

abbrev pub last_of : List ℕ → Option ℕ
last_of [] = none
last_of (a ∷ []) = some a
last_of (a ∷ b ∷ l) = last_of (b ∷ l)

abbrev pub Task : Type 0
Task = ℕ × ℕ

abbrev pub task_of : TaskNode → Task
task_of n = (n.fn, n.arg)

abbrev pub tasks : (ℕ → TaskNode) → List ℕ → List Task
tasks nodes [] = []
tasks nodes (a ∷ l) = task_of (nodes a) ∷ tasks nodes l

-- The queue holds the nodes of the list, in order.
pub record Holds (q : TaskQueue) (l : List ℕ) : Type 0 where
  pub chain : Chain q.nodes q.q_head l
  pub tail : q.q_tail ≡ last_of l
  pub distinct : Distinct l

pub store_node_self : (h : ℕ → TaskNode) (a : ℕ) (n : TaskNode) → store_node h a n a ≡ n
store_node_self h a n = let e : (a == a) ≡ true = ground arith in ap (λ b. if b then n else h a) e

pub store_node-ne : (h : ℕ → TaskNode) (a x : ℕ) (n : TaskNode) → a ≢ x → store_node h a n x ≡ h x
store_node-ne h a x n ne =
    let e : (a == x) ≡ false = ground arith in ap (λ b. if b then n else h x) e

pub Chain-store :
    (h : ℕ → TaskNode) (a : ℕ) (n : TaskNode) (head : Option ℕ) (l : List ℕ)
    → ¬ Contains l a
    → Chain h head l
    → Chain (store_node h a n) head l
Chain-store h a n head [] out c = c
Chain-store h a n head (x ∷ l) out (e, c) =
    let ne : a ≢ x = λ eq. out (inl eq) in
    (
      e,
      subst (λ m. Chain (store_node h a n) m.next l) (sym (store_node-ne h a x n ne))
          (Chain-store h a n (h x).next l (λ k. out (inr k)) c),
    )

pub tasks-store :
    (h : ℕ → TaskNode) (a : ℕ) (n : TaskNode) (l : List ℕ)
    → ¬ Contains l a
    → tasks (store_node h a n) l ≡ tasks h l
tasks-store h a n [] out = refl
tasks-store h a n (x ∷ l) out =
    let ne : a ≢ x = λ eq. out (inl eq) in
    ap₂ (λ m t. task_of m ∷ t) (store_node-ne h a x n ne) (tasks-store h a n l (λ k. out (inr k)))

-- A store of a link changes no task.
pub tasks-link :
    (h : ℕ → TaskNode) (t : ℕ) (next : Option ℕ) (l : List ℕ)
    → tasks (store_node h t (record (h t) { next = next })) l ≡ tasks h l
tasks-link h t next [] = refl
tasks-link h t next (x ∷ l) = ap₂ (λ p r. p ∷ r) same (tasks-link h t next l)
  where
    g : ℕ → TaskNode
    g = store_node h t (record (h t) { next = next })

    order : (t ≡ x) ⊎ (t ≢ x)
    order = ground arith

    same : task_of (g x) ≡ task_of (h x)
    same = elim order [
      | inl e ↦
          ap (λ y. task_of (g y)) (sym e)
          ∙ ap task_of (store_node_self h t (record (h t) { next = next }))
          ∙ ap (λ y. task_of (h y)) e
      | inr ne ↦ ap task_of (store_node-ne h t x (record (h t) { next = next }) ne)
    ]

pub tasks-append : (h : ℕ → TaskNode) (k l : List ℕ) → tasks h (k ++ l) ≡ tasks h k ++ tasks h l
tasks-append h [] l = refl
tasks-append h (x ∷ k) l = ap (λ r. task_of (h x) ∷ r) (tasks-append h k l)

pub last_of-Contains : (a : ℕ) (l : List ℕ) (t : ℕ) → last_of (a ∷ l) ≡ some t → Contains (a ∷ l) t
last_of-Contains a [] t e = inl (let s : some a ≡ some t = e in cc)
last_of-Contains a (b ∷ l) t e = inr (last_of-Contains b l t e)

pub last_of-snoc : (l : List ℕ) (a : ℕ) → last_of (l ++ (a ∷ [])) ≡ some a
last_of-snoc [] a = refl
last_of-snoc (x ∷ []) a = refl
last_of-snoc (x ∷ y ∷ l) a = last_of-snoc (y ∷ l) a

pub Distinct-snoc : (l : List ℕ) (a : ℕ) → Distinct l → ¬ Contains l a → Distinct (l ++ (a ∷ []))
Distinct-snoc [] a d out = ((λ k. k), tt)
Distinct-snoc (x ∷ l) a (fresh, d) out = (
  (λ k. elim (Contains-append l (a ∷ []) x k) [
    | inl h ↦ fresh h
    | inr h ↦ elim h [ inl e ↦ out (inl (sym e)) | inr n ↦ n ]
  ]),
  Distinct-snoc l a d (λ k. out (inr k)),
)
