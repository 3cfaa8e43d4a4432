-- ===== src/Link/Hub/Registry/Starts.antt =====
-- The runs that a registration knows of, and the starts that it leaves in a node's queue: `register` of
-- backend/lib/runnerhub/connection.go.
use asgard.Prelude.Memᴰ
use asgard.Prelude.{
  ◌∙◌, ap, sym, subst, [], ◌∷◌, ◌++◌, ◌||◌, exists-mem, mem-exists, text_eq_refl, ◌≡◌, refl, ◌⊎◌,
  inl, inr, Bool, true, List, Memᴰ, Text, text_eq, text_eq_sound, some, Bool-cases,
}
use asgard.Link.Hub.Binding.{node-set}
use asgard.Link.Hub.{BackendPayload, start_run, cancel_run, BackendMessage, Node, Hub, set_node}
use asgard.Link.Hub.Registry.{
  queued_start_runs, cancel_untracked, enqueue, Register, node_of, known_runs, has,
}

-- A start of the run is queued for the node.
abbrev pub IsStartQueued : Node → Text → Type 0
IsStartQueued n id = (m : BackendMessage) × Memᴰ m n.queue × (m.payload ≡ start_run id)

-- The runner executes the run, or holds its result, or will be told to start it.
abbrev pub IsKnown : Register → Node → Text → Type 0
IsKnown reg n id = Memᴰ id reg.active_runs ⊎ Memᴰ id reg.completed_unacked_runs ⊎ IsStartQueued n id

has-mem : (id : Text) (ids : List Text) → has id ids ≡ true → Memᴰ id ids
unfolding has
has-mem id ids e =
    let (other, i, t) = exists-mem (λ other. text_eq other id) ids e in
    subst (λ (x : Text). Memᴰ x ids) (text_eq_sound other id t) i

mem-has : (id : Text) (ids : List Text) → Memᴰ id ids → has id ids ≡ true
unfolding has
mem-has id ids i = mem-exists (λ other. text_eq other id) ids i (text_eq_refl id)

payload-cases :
    (p : BackendPayload) → ((id : Text) × (p ≡ start_run id)) ⊎ ((id : Text) × (p ≡ cancel_run id))
payload-cases (start_run id) = inl (id, refl)
payload-cases (cancel_run id) = inr (id, refl)

-- The runs whose start is queued, as the code lists them.
queued-mem :
    (id : Text) (queue : List BackendMessage)
    → Memᴰ id (queued_start_runs queue)
    → (m : BackendMessage) × Memᴰ m queue × (m.payload ≡ start_run id)
unfolding queued_start_runs
queued-mem id [] i = elim i [ ]
queued-mem id (x ∷ queue) i = elim (payload-cases x.payload) [
  | inr (run, e) ↦
      let (m, k, p) = queued-mem id queue (rw (e, queued_start_runs) at i) in (m, Memᴰ.tail k, p)
  | inl (run, e) ↦ elim (Memᴰ.cases_cons (rw (e, queued_start_runs) at i)) [
    | inl same ↦ (x, Memᴰ.head refl, e ∙ ap start_run (sym same))
    | inr j ↦ let (m, k, p) = queued-mem id queue j in (m, Memᴰ.tail k, p)
  ]
]

mem-queued :
    (id : Text) (queue : List BackendMessage) (m : BackendMessage)
    → Memᴰ m queue
    → m.payload ≡ start_run id
    → Memᴰ id (queued_start_runs queue)
unfolding queued_start_runs
mem-queued id [] m i p = elim i [ ]
mem-queued id (x ∷ queue) m (Memᴰ.head e) p =
    let q : x.payload ≡ start_run id = sym (ap (λ (y : BackendMessage). y.payload) e) ∙ p in
    rw (q, queued_start_runs) (Memᴰ.head refl)
mem-queued id (x ∷ queue) m (Memᴰ.tail i) p =
    let rest = mem-queued id queue m i p in
    elim (payload-cases x.payload) [
      | inl (run, e) ↦ rw (e, queued_start_runs) (Memᴰ.tail rest)
      | inr (run, e) ↦ rw (e, queued_start_runs) rest
    ]

-- The cancellations that a registration queues leave the starts as they are.
pub cancelled-keeps :
    (keeps : Text → Bool) (cancelled ids : List Text) (n : Node) (m : BackendMessage)
    → Memᴰ m n.queue
    → Memᴰ m (cancel_untracked keeps cancelled ids n).queue
unfolding cancel_untracked enqueue
cancelled-keeps keeps cancelled [] n m i = i
cancelled-keeps keeps cancelled (id ∷ ids) n m i =
    elim (Bool-cases (keeps id || has id cancelled || text_eq id [])) [
      | inl skip ↦ rw (skip, cancel_untracked) (cancelled-keeps keeps cancelled ids n m i)
      | inr go ↦
          rw (go, cancel_untracked)
            (cancelled-keeps keeps (id ∷ cancelled) ids (enqueue (cancel_run id) n) m
              (Memᴰ.append_left _ i))
    ]

pub cancelled-starts :
    (keeps : Text → Bool) (cancelled ids : List Text) (n : Node) (m : BackendMessage) (run : Text)
    → Memᴰ m (cancel_untracked keeps cancelled ids n).queue
    → m.payload ≡ start_run run
    → Memᴰ m n.queue
unfolding cancel_untracked enqueue
cancelled-starts keeps cancelled [] n m run i p = i
cancelled-starts keeps cancelled (id ∷ ids) n m run i p =
    elim (Bool-cases (keeps id || has id cancelled || text_eq id [])) [
      | inl skip ↦ cancelled-starts keeps cancelled ids n m run (rw (skip, cancel_untracked) at i) p
      | inr go ↦
          let j =
            cancelled-starts keeps (id ∷ cancelled) ids (enqueue (cancel_run id) n) m run
              (rw (go, cancel_untracked) at i) p in
          elim (Memᴰ.append_cases n.queue j) [
            | inl old ↦ old
            | inr new ↦
                let e = ap (λ (y : BackendMessage). y.payload) (Memᴰ.eq_of_singleton new) in
                absurd (start-cancel (sym p ∙ e))
          ]
    ]
  where
    start-cancel : {a b : Text} → start_run a ≡ cancel_run b → ⊥
    start-cancel e = cc

pub node_of-at : (id : Text) (n : Node) (h : Hub) → h.nodes id ≡ some n → node_of id h ≡ n
unfolding node_of
node_of-at id n h e = rw (e, node_of) refl

pub node_of-set : (id : Text) (n : Node) (h : Hub) → node_of id (set_node id n h) ≡ n
node_of-set id n h = node_of-at id n (set_node id n h) (node-set id n h)

pub known_runs_sound :
    (reg : Register) (n : Node) (id : Text) → has id (known_runs reg n) ≡ true → IsKnown reg n id
unfolding known_runs
known_runs_sound reg n id e =
    let told = reg.active_runs ++ reg.completed_unacked_runs in
    elim (Memᴰ.append_cases told (has-mem id (told ++ queued_start_runs n.queue) e)) [
      | inr a ↦ inr (inr (queued-mem id n.queue a))
      | inl x ↦ elim (Memᴰ.append_cases reg.active_runs x) [ inl a ↦ inl a | inr a ↦ inr (inl a) ]
    ]

pub known_runs_complete :
    (reg : Register) (n : Node) (id : Text) → IsKnown reg n id → has id (known_runs reg n) ≡ true
unfolding known_runs
known_runs_complete reg n id k =
    let told = reg.active_runs ++ reg.completed_unacked_runs in
    mem-has id (told ++ queued_start_runs n.queue) (elim k [
      | inl a ↦ Memᴰ.append_left _ (Memᴰ.append_left _ a)
      | inr (inl a) ↦ Memᴰ.append_left _ (Memᴰ.append_right reg.active_runs a)
      | inr (inr (m, i, p)) ↦ Memᴰ.append_right told (mem-queued id n.queue m i p)
    ])
